-- ===== src/Shadow/Handshake.antt =====
-- shadowsocks/socks.go: the text of an address, ParseAddr, and Handshake with a client's bytes. Package
-- net and `strconv` are parameters.
pub mod Agreement
use go_game_proxy.Prelude.{
  ℕ, ◌+◌, ◌*◌, ◌/◌, Bool, true, false, not, Option, none, some, List, [], ◌∷◌, ◌++◌, Bytes, ltb,
  ◌==◌, if◌then◌else◌, length, u8, get_elem?, get_or,
}
use go_game_proxy.Packet.Wire.{Go, ret, ◌>>=◌, or_panic, cut}
use go_game_proxy.Socks.{
  Result, done, failed, end_of_input, Reading, then_read, read_full, ipv4_host, ipv6_host,
  domain_host,
}
use go_game_proxy.Shadow.{read_addr}

-- `IP.String`, `strconv.Itoa`, `JoinHostPort`, `SplitHostPort`, `ParseIP` with its four bytes, if it
-- has such a form, or its sixteen, and `ParseUint` into 16 bits.
pub record Texts : Type 0 where
  pub ip_string : Bytes → Bytes
  pub itoa : ℕ → Bytes
  pub join_host_port : Bytes → Bytes → Bytes
  pub split_host_port : Bytes → Option (Bytes × Bytes)
  pub parse_ip : Bytes → Option (Option Bytes × Bytes)
  pub parse_port : Bytes → Option ℕ

-- A port in two bytes of the address.
unfoldable pub port_text : Texts → Bytes → ℕ → Go Bytes
port_text texts a i = or_panic (get_elem? a i) >>= λ hi.
    or_panic (get_elem? a (i + 1)) >>= λ lo. ret (texts.itoa (hi * 256 + lo))

unfoldable pub ip_text : Texts → Bytes → ℕ → Go Bytes
ip_text texts a n = cut a 1 (1 + n) >>= λ ip.
    port_text texts a (1 + n) >>= λ port. ret (texts.join_host_port (texts.ip_string ip) port)

unfoldable pub domain_text : Texts → Bytes → Go Bytes
domain_text texts a = or_panic (get_elem? a 1) >>= λ len. cut a 2 (2 + len) >>= λ host.
    port_text texts a (2 + len) >>= λ port. ret (texts.join_host_port host port)

-- `String`
unfoldable pub addr_text : Texts → Bytes → Go Bytes
addr_text texts a = or_panic (get_elem? a 0) >>= λ t.
    if t == domain_host
    then domain_text texts a
    else if t == ipv4_host
    then ip_text texts a 4
    else if t == ipv6_host
    then ip_text texts a 16
    else ret (texts.join_host_port [] [])

-- The type and the host in front of the port.
unfoldable pub parse_host : Bytes → Option (Option Bytes × Bytes) → Option Bytes
parse_host host (some (some ip4, ip16)) = some (ipv4_host ∷ ip4)
parse_host host (some (none, ip16)) = some (ipv6_host ∷ ip16)
parse_host host none =
    if ltb 255 (length host) then none else some (domain_host ∷ u8 (length host) ∷ host)

unfoldable pub with_port : Option Bytes → Option ℕ → Option Bytes
with_port none port = none
with_port (some a) none = none
with_port (some a) (some port) = some (a ++ (u8 (port / 256) ∷ u8 port ∷ []))

unfoldable pub parse_split : Texts → Option (Bytes × Bytes) → Option Bytes
parse_split texts none = none
parse_split texts (some (host, port)) =
    with_port (parse_host host (texts.parse_ip host)) (texts.parse_port port)

-- `ParseAddr`; `none` is nil.
unfoldable pub parse_addr : Texts → Bytes → Option Bytes
parse_addr texts s = parse_split texts (texts.split_host_port s)

-- What `Handshake` makes of a request: the address and the reply, for a connection or for a relay of
-- datagrams, which it returns as an error; or an error.
pub data Asked : Type 0 where
  to_connect : Bytes → Bytes → Asked
  to_associate : Bytes → Bytes → Asked
  not_supported : Asked
  not_answered : Asked

abbrev pub succeeded : Bytes
succeeded = 5 ∷ 0 ∷ 0 ∷ 1 ∷ 0 ∷ 0 ∷ 0 ∷ 0 ∷ 0 ∷ 0 ∷ []

unfoldable pub bytes_or_nil : Option Bytes → Bytes
bytes_or_nil none = []
bytes_or_nil (some b) = b

-- The `switch` on the command; `local` is the text of the server's own address.
unfoldable pub answer_command : Texts → Bool → Bytes → Bool → ℕ → Bytes → Asked
answer_command texts udp_enabled local written cmd addr =
    if cmd == 1
    then if written then to_connect addr succeeded else not_answered
    else if not (cmd == 3)
    then not_supported
    else if not udp_enabled
    then not_supported
    else if written
    then to_associate addr (5 ∷ 0 ∷ 0 ∷ bytes_or_nil (parse_addr texts local))
    else not_supported

-- `Handshake` up to its first answer.
unfoldable pub read_greeting : Bool → Bytes → Reading Bytes
read_greeting written bytes = then_read (read_full 2 bytes) (λ h rest.
    then_read (read_full (get_or h 1 0) rest) (λ methods rest2.
      if written then ret (done (5 ∷ 0 ∷ []), rest2) else ret (failed end_of_input, rest2)))

-- The rest of `Handshake`.
unfoldable pub read_request : Texts → Bool → Bytes → Bool → Bytes → Reading Asked
read_request texts udp_enabled local written bytes = then_read (read_full 3 bytes) (λ h rest.
    then_read (read_addr rest) (λ addr rest2.
      ret (done (answer_command texts udp_enabled local written (get_or h 1 0) addr), rest2)))

-- `Handshake`
unfoldable pub handshake : Texts → Bool → Bytes → Bool → Bool → Bytes → Reading (Bytes × Asked)
handshake texts udp_enabled local greeted written bytes =
    then_read (read_greeting greeted bytes) (λ said rest.
      then_read (read_request texts udp_enabled local written rest)
        (λ asked rest2. ret (done (said, asked), rest2)))
