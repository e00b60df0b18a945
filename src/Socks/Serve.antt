-- ===== src/Socks/Serve.antt =====
-- gotun2socks/gosocks: server.go, and the addresses and the failure reply of basic.go. The sockets
-- are what the events and the arguments say of them; an address has no zone.
pub mod Associate
pub mod Forwarding
pub mod Opened
pub mod Exchange
use go_game_proxy.Prelude.{
  ℕ, ◌+◌, ◌*◌, Bool, true, false, not, ◌||◌, ◌&&◌, Option, none, some, List, [], ◌∷◌, ◌++◌, Bytes,
  ◌==◌, if◌then◌else◌, u16, length, is_some, min,
}
use go_game_proxy.Prelude.Bytes.{same_bytes}
use go_game_proxy.Packet.Wire.{Go, ret, panic, ◌>>=◌}
use go_game_proxy.Socks.{
  Net, Result, done, failed, Common, UdpRequest, ipv4_host, ipv6_host, read_common, write_common,
  parse_udp_request, pack_udp_request,
}

-- `net.UDPAddr` and `net.TCPAddr`
pub record Addr : Type 0 where
  pub ip : Bytes
  pub port : ℕ

-- Package net as this code uses it: that of the messages, `String` of an address, and the address of
-- `SocksAddrToNetAddr`, where `none` is nil.
pub record Names : Type 0 where
  pub net : Net
  pub addr_string : Addr → Bytes
  pub resolve : Bytes → ℕ → Option Addr

abbrev pub any_v4 : Bytes
any_v4 = b'0' ∷ b'.' ∷ b'0' ∷ b'.' ∷ b'0' ∷ b'.' ∷ b'0' ∷ []

abbrev pub any_v6 : Bytes
any_v6 = b':' ∷ b':' ∷ []

-- `LegalClientAddr`, which reads the address that the client announced through its pointer.
unfoldable pub legal_client_addr : Names → Option Addr → Addr → Go Bool
legal_client_addr names none addr = panic
legal_client_addr names (some announced) addr =
    let ip = names.net.ip_string announced.ip in
    ret (
      (same_bytes ip any_v4 || same_bytes ip any_v6)
      || same_bytes (names.addr_string addr) (names.addr_string announced))

-- The reply with the address of `NetAddrToSocksAddr`.
unfoldable pub reply_with : ℕ → Names → Addr → Common
reply_with rep names a = record {
  flag = rep;
  host_type = if length a.ip == 16 then ipv6_host else ipv4_host;
  host = names.net.ip_string a.ip;
  port = u16 a.port;
}

-- `ReplyGeneralFailure`: the bytes that it writes. The type of the host is that of version 4.
unfoldable pub reply_general_failure : Net → Common → Go (Result Bytes)
reply_general_failure net req = write_common net (record {
  flag = 1;
  host_type = ipv4_host;
  host = if req.host_type == ipv6_host then any_v6 else any_v4;
  port = 0;
})

-- What a handler has written to the client's connection, and whether it has closed it.
pub record Answered : Type 0 where
  pub replies : List (Result Bytes)
  pub conn_open : Bool

-- Whether a message was packed and written.
unfoldable pub reached : Result Bytes → Bool → Bool
reached (failed e) sent = false
reached (done message) sent = sent

-- `HandleCmdConnect` up to its copy loop: `dialled` is the local address of the connection, and the
-- second result says that the copy loop runs.
unfoldable pub handle_cmd_connect : Names → Common → Option Addr → Bool → Go (Answered × Bool)
handle_cmd_connect names req none sent = reply_general_failure names.net req >>= λ r.
    ret (record { replies = r ∷ []; conn_open = false }, false)
handle_cmd_connect names req (some local) sent =
    write_common names.net (reply_with 0 names local) >>= λ r.
    ret (record { replies = r ∷ []; conn_open = reached r sent }, reached r sent)

-- `UDPAssociateFirstPacket`: what came of it.
pub data First : Type 0 where
  first_failed : First
  first_waits : First
  first_packet : Option Addr → UdpRequest → Addr → First

-- The end of a round: a packet that does not parse ends the loop, and a fragment is passed over.
unfoldable pub first_of : Result UdpRequest → Option Addr → Addr → Go First → Go First
first_of (failed e) announced addr rest = ret first_failed
first_of (done req) announced addr rest =
    if req.frag == 0 then ret (first_packet announced req addr) else rest

unfoldable pub goes_on : First → Bool
goes_on first_failed = false
goes_on first_waits = true
goes_on (first_packet announced req addr) = true

-- Its loop, over what `ReadFromUDP` returns; `none` is an error.
unfoldable pub first_loop : Names → Option Addr → List (Option (Addr × Bytes)) → Go First
first_loop names announced [] = ret first_waits
first_loop names announced (none ∷ reads) = ret first_failed
first_loop names announced (some (addr, body) ∷ reads) =
    let rest = first_loop names announced reads in
    legal_client_addr names announced addr >>= λ legal.
    if not legal
    then rest
    else parse_udp_request names.net body >>= λ req. first_of req announced addr rest

unfoldable pub udp_associate_first_packet :
    Names → Common → Option Addr → Bool → List (Option (Addr × Bytes)) → Go (Answered × First)
udp_associate_first_packet names req none sent reads = reply_general_failure names.net req >>= λ r.
    ret (record { replies = r ∷ []; conn_open = false }, first_failed)
udp_associate_first_packet names req (some bind) sent reads =
    write_common names.net (reply_with 0 names bind) >>= λ r.
    if not (reached r sent)
    then ret (record { replies = r ∷ []; conn_open = false }, first_failed)
    else (first_loop names (names.resolve req.host req.port) reads >>= λ f.
        ret (record { replies = r ∷ []; conn_open = goes_on f }, f))
