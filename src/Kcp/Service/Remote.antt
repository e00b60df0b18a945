-- ===== src/Kcp/Service/Remote.antt =====
-- kcp/service/conn.go, serverSide: the half that dials, behind the client half. The reader of package
-- http and the dialer are parameters.
use go_game_proxy.Prelude.{
  Bool, false, not, ◌&&◌, ◌||◌, Option, none, some, List, [], ◌∷◌, ◌++◌, Bytes, ltb, ◌==◌,
  if◌then◌else◌, length,
}
use go_game_proxy.Prelude.Bytes.{same_bytes}
use go_game_proxy.Kcp.Little.{Cipher, encrypt, decrypt}

-- What the code takes of a request that `http.ReadRequest` has read.
pub record Request : Type 0 where
  pub method : Bytes
  pub url_host : Bytes
  pub shost_value : Bytes
  pub sport_value : Bytes

pub record Web : Type 0 where
  pub read_request : Bytes → Option Request
  pub dials : Bytes → Bool

unfoldable pub has_colon : Bytes → Bool
has_colon [] = false
has_colon (b ∷ bs) = (b == b':') || has_colon bs

-- The host that is dialled.
unfoldable pub host_of : Request → Bytes
host_of r =
    if ltb 0 (length r.url_host) && not (has_colon r.url_host)
    then r.url_host ++ (b':' ∷ b'8' ∷ b'0' ∷ [])
    else if length r.url_host == 0
    then r.shost_value ++ (b':' ∷ r.sport_value)
    else r.url_host

abbrev pub socks5_method : Bytes
socks5_method = b'S' ∷ b'O' ∷ b'C' ∷ b'K' ∷ b'S' ∷ b'5' ∷ []

abbrev pub connect_method : Bytes
connect_method = b'C' ∷ b'O' ∷ b'N' ∷ b'N' ∷ b'E' ∷ b'C' ∷ b'T' ∷ []

abbrev pub socks5_established : Bytes
socks5_established = 5 ∷ 0 ∷ 0 ∷ 1 ∷ 0 ∷ 0 ∷ 0 ∷ 0 ∷ 0 ∷ 0 ∷ []

-- "HTTP/1.1 200 Connection established" and two line ends
abbrev pub http_established : Bytes
http_established =
    b'H' ∷ b'T' ∷ b'T' ∷ b'P' ∷ b'/' ∷ b'1' ∷ b'.' ∷ b'1' ∷ b' ' ∷ b'2' ∷ b'0' ∷ b'0' ∷ b' ' ∷ b'C'
    ∷ b'o' ∷ b'n' ∷ b'n' ∷ b'e' ∷ b'c' ∷ b't' ∷ b'i' ∷ b'o' ∷ b'n' ∷ b' ' ∷ b'e' ∷ b's' ∷ b't'
    ∷ b'a' ∷ b'b' ∷ b'l' ∷ b'i' ∷ b's' ∷ b'h' ∷ b'e' ∷ b'd' ∷ b'\r' ∷ b'\n' ∷ b'\r' ∷ b'\n' ∷ []

unfoldable pub established_for : Bytes → Bytes
established_for method =
    if same_bytes method socks5_method
    then socks5_established
    else if same_bytes method connect_method
    then http_established
    else []

-- What `serverSide` did: where it dialled, what it wrote to either side, and whether it came to
-- `pipe`.
pub record RemoteSide : Type 0 where
  pub dialled : Option Bytes
  pub to_remote : List Bytes
  pub to_client : List Bytes
  pub pipes : Bool

abbrev pub nothing_served : RemoteSide
nothing_served = record { dialled = none; to_remote = []; to_client = []; pipes = false }

-- The end of `serverSide`, where the remote host has been dialled.
unfoldable pub answer_client : Cipher → Bool → Bytes → Bytes → Bytes → RemoteSide
answer_client cipher written host bytes [] = record {
  dialled = some host;
  to_remote = bytes ∷ [];
  to_client = [];
  pipes = written;
}
answer_client cipher written host bytes (b ∷ bs) = record {
  dialled = some host;
  to_remote = [];
  to_client = encrypt cipher (b ∷ bs) ∷ [];
  pipes = written;
}

unfoldable pub serve_read : Cipher → Web → Bool → Bytes → Option Request → RemoteSide
serve_read cipher web written bytes none = nothing_served
serve_read cipher web written bytes (some r) =
    if not (web.dials (host_of r))
    then record nothing_served { dialled = some (host_of r) }
    else answer_client cipher written (host_of r) bytes (established_for r.method)

-- `serverSide`, with what its first read delivers and whether its write succeeds.
unfoldable pub server_side : Cipher → Web → Bool → Option Bytes → RemoteSide
server_side cipher web written none = nothing_served
server_side cipher web written (some coded) =
    let bytes = decrypt cipher coded in serve_read cipher web written bytes (web.read_request bytes)

-- The request of the client half, as `http.ReadRequest` documents it: a path, so no host, and two
-- headers.
abbrev pub request_line : Bytes → Bytes → Request
request_line host port = record {
  method = socks5_method;
  url_host = [];
  shost_value = host;
  sport_value = port;
}
