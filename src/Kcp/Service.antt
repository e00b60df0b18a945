-- ===== src/Kcp/Service.antt =====
-- kcp/service: the half of the proxy that takes a client's SOCKS request and the half that dials. A
-- read is what it delivers, or none where it fails.
pub mod Halves
pub mod Remote
use go_game_proxy.Prelude.{
  ℕ, ◌+◌, ◌-◌, ◌*◌, Bool, true, false, not, Option, none, some, List, [], ◌∷◌, ◌++◌, Bytes, ltb,
  ◌==◌, if◌then◌else◌, length, take, drop, get_elem?,
}
use go_game_proxy.Packet.Wire.{Go, ret, panic, ◌>>=◌, or_panic, cut}
use go_game_proxy.Prelude.Bytes.{same_bytes}
use go_game_proxy.Kcp.Little.{Cipher, encrypt, decrypt}

-- `IP.String` of package net, and `strconv.Itoa`.
pub record Text : Type 0 where
  pub ip_string : Bytes → Bytes
  pub itoa : ℕ → Bytes

abbrev pub crlf : Bytes
crlf = b'\r' ∷ b'\n' ∷ []

-- "Shost: " and "Sport: "
abbrev pub shost : Bytes
shost = b'S' ∷ b'h' ∷ b'o' ∷ b's' ∷ b't' ∷ b':' ∷ b' ' ∷ []

abbrev pub sport : Bytes
sport = b'S' ∷ b'p' ∷ b'o' ∷ b'r' ∷ b't' ∷ b':' ∷ b' ' ∷ []

-- "SOCKS5 /socks5 HTTP/1.1"
abbrev pub socks5_line : Bytes
socks5_line =
    b'S' ∷ b'O' ∷ b'C' ∷ b'K' ∷ b'S' ∷ b'5' ∷ b' ' ∷ b'/' ∷ b's' ∷ b'o' ∷ b'c' ∷ b'k' ∷ b's' ∷ b'5'
    ∷ b' ' ∷ b'H' ∷ b'T' ∷ b'T' ∷ b'P' ∷ b'/' ∷ b'1' ∷ b'.' ∷ b'1' ∷ []

-- `to5Connect`
abbrev pub to5_connect : Bytes → Bytes → Bytes
to5_connect host port =
    socks5_line ++ (crlf ++ (shost ++ (host ++ (crlf ++ (sport ++ (port ++ (crlf ++ crlf)))))))

-- The slice of the host: every byte of it is indexed, and a domain takes all that stands between its
-- length, which is not looked at, and the port.
unfoldable pub request_host : Text → ℕ → Bytes → Go Bytes
request_host text atyp b =
    if atyp == 1
    then (cut b 4 8 >>= λ ip. ret (text.ip_string ip))
    else if atyp == 3
    then cut b 5 (length b - 2)
    else if atyp == 4
    then (cut b 4 20 >>= λ ip. ret (text.ip_string ip))
    else ret []

-- `parseSocks5Request`: what goes to the other half, or the refusal for the client, and which. The
-- refusal is built in the bytes of the request, which have been read by then.
unfoldable pub parse_socks5_request : Text → Bytes → Go (Bytes × Bool)
parse_socks5_request text b = do
  ver ← or_panic (get_elem? b 0)
  cmd ← or_panic (get_elem? b 1)
  rsv ← or_panic (get_elem? b 2)
  atyp ← or_panic (get_elem? b 3)
  if cmd == 1
      then (request_host text atyp b >>= λ host. or_panic (get_elem? b (length b - 2)) >>= λ hi.
          or_panic (get_elem? b (length b - 1)) >>= λ lo.
          ret (to5_connect host (text.itoa (hi * 256 + lo)), true))
      else ret (ver ∷ 1 ∷ rsv ∷ atyp ∷ 0 ∷ 0 ∷ 0 ∷ 0 ∷ 0 ∷ 0 ∷ [], false)

-- What a reader of the client leaves: the bytes that it writes back, whether the client speaks
-- SOCKS, and bytes to go on with.
abbrev pub Heard : Type 0
Heard = Bytes × Bool × Option Bytes

-- `handshakeSocks`
unfoldable pub handshake_socks : Option Bytes → Bool → Go Heard
handshake_socks none written = ret ([], false, none)
handshake_socks (some buf) written = or_panic (get_elem? buf 0) >>= λ ver.
    if ver == 5 then ret (5 ∷ 0 ∷ [], written, none) else ret ([], false, some buf)

-- The end of `parseSocks` for a request: a refusal is written to the client.
abbrev pub requested_of : Bytes × Bool → Heard
requested_of (to5, true) = ([], true, some to5)
requested_of (to5, false) = (to5, false, none)

-- `parseSocks`
unfoldable pub parse_socks : Text → Option Bytes → Go Heard
parse_socks text none = ret ([], false, none)
parse_socks text (some buf) = or_panic (get_elem? buf 0) >>= λ ver.
    let request = parse_socks5_request text buf >>= λ r. ret (requested_of r) in
    if ver == 5 then request else ret ([], false, some buf)

-- `writeExBytes`: the bytes for the other half.
abbrev pub write_ex_bytes : Cipher → Option Bytes → Option Bytes
write_ex_bytes cipher none = none
write_ex_bytes cipher (some bytes) = some (encrypt cipher bytes)

-- `clientSide` behind its dial, up to `pipe`: what it says to its client, and what it sends to the
-- other half if it goes on.
unfoldable pub client_side :
    Text → Cipher → Option Bytes → Bool → Option Bytes → Go (Bytes × Option Bytes)
client_side text cipher first written second =
    handshake_socks first written >>= λ (said, ok, bytes).
    let parsed = parse_socks text second >>= λ (more, ok2, bytes2).
    ret (said ++ more, if ok2 then write_ex_bytes cipher bytes2 else none) in
    if ok then parsed else ret (said, write_ex_bytes cipher bytes)
