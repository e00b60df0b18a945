-- ===== src/Socks.antt =====
-- gotun2socks/gosocks/basic.go: the messages of SOCKS 5. A reader is the bytes that it has left.
pub mod RoundTrip
pub mod Auth
pub mod Serve
use go_game_proxy.Prelude.{
  ℕ, ◌+◌, ◌*◌, ◌/◌, ◌-◌, Option, none, some, List, [], ◌∷◌, ◌++◌, Bytes, ltb, ◌==◌, if◌then◌else◌,
  u8, u16, length, take, drop, get_or,
}
use go_game_proxy.Packet.Wire.{Go, ret, panic, ◌>>=◌}

-- What the code takes from package net on addresses: `String` of 4 or 16 bytes, and `ParseIP` with
-- `To4` or `To16`, where `none` is a host that does not parse.
pub record Net : Type 0 where
  pub ip_string : Bytes → Bytes
  pub parse_to4 : Bytes → Option Bytes
  pub parse_to16 : Bytes → Option Bytes

pub data Failure : Type 0 where
  end_of_input : Failure
  unknown_address_type : ℕ → Failure
  unsupported_version : ℕ → Failure
  invalid_host : Failure
  too_short : Failure

pub data Result {ℓ} (A : Type ℓ) : Type ℓ where
  done : A → Result A
  failed : Failure → Result A

-- A call on a reader: its result and what the reader has left.
abbrev pub Reading {ℓ} : Type ℓ → Type ℓ
Reading A = Go (Result A × Bytes)

abbrev pub continue_reading {ℓ κ} :
    {A : Type ℓ} {B : Type κ} → Result A → Bytes → (A → Bytes → Reading B) → Reading B
continue_reading (done a) rest f = f a rest
continue_reading (failed e) rest f = ret (failed e, rest)

abbrev pub then_read {ℓ κ} :
    {A : Type ℓ} {B : Type κ} → Reading A → (A → Bytes → Reading B) → Reading B
then_read m f = m >>= λ (r, rest). continue_reading r rest f

abbrev pub socks_version : ℕ
socks_version = 5

abbrev pub ipv4_host : ℕ
ipv4_host = 1

abbrev pub domain_host : ℕ
domain_host = 3

abbrev pub ipv6_host : ℕ
ipv6_host = 4

abbrev pub small_buf_size : ℕ
small_buf_size = 512

-- `socksCommon`
pub record Common : Type 0 where
  pub flag : ℕ
  pub host_type : ℕ
  pub host : Bytes
  pub port : ℕ

pub record UdpRequest : Type 0 where
  pub frag : ℕ
  pub host_type : ℕ
  pub dst_host : Bytes
  pub dst_port : ℕ
  pub body : Bytes

-- `Ntohs`
abbrev pub ntohs : Bytes → ℕ
ntohs b = get_or b 0 0 * 256 + get_or b 1 0

-- `Htons`
abbrev pub htons : ℕ → Bytes
htons n = u8 (n / 256) ∷ u8 n ∷ []

-- `io.ReadFull` into `n` bytes.
unfoldable pub read_full : ℕ → Bytes → Reading Bytes
read_full n bytes =
    if ltb (length bytes) n
    then ret (failed end_of_input, [])
    else ret (done (take n bytes), drop n bytes)

-- `readSocksIPv4Host` and `readSocksIPv6Host`
unfoldable pub read_ip_host : Net → ℕ → Bytes → Reading Bytes
read_ip_host net n bytes =
    then_read (read_full n bytes) (λ b rest. ret (done (net.ip_string b), rest))

-- `readSocksDomainHost`. The upper bound `1 + length` of its slices is a byte, and 0 for a length
-- of 255, which is a panic.
unfoldable pub read_domain_host : Bytes → Reading Bytes
read_domain_host bytes =
    then_read (read_full 1 bytes) (λ b rest.
      let len = get_or b 0 0 in if ltb (u8 (1 + len)) 1 then panic else read_full len rest)

-- `readSocksHost`
unfoldable pub read_host : Net → ℕ → Bytes → Reading Bytes
read_host net host_type bytes =
    if host_type == ipv4_host
    then read_ip_host net 4 bytes
    else if host_type == ipv6_host
    then read_ip_host net 16 bytes
    else if host_type == domain_host
    then read_domain_host bytes
    else ret (failed (unknown_address_type host_type), bytes)

-- `readSocksPort`
unfoldable pub read_port : Bytes → Reading ℕ
read_port bytes = then_read (read_full 2 bytes) (λ b rest. ret (done (ntohs b), rest))

unfoldable pub or_invalid : Option Bytes → Result Bytes
or_invalid none = failed invalid_host
or_invalid (some b) = done b

-- `packSocksHost`
unfoldable pub pack_host : Net → ℕ → Bytes → Result Bytes
pack_host net host_type host =
    if host_type == ipv4_host
    then or_invalid (net.parse_to4 host)
    else if host_type == ipv6_host
    then or_invalid (net.parse_to16 host)
    else if host_type == domain_host
    then done (u8 (length host) ∷ host)
    else failed (unknown_address_type host_type)

-- The steps of `readSocksComm` on its buffer, and what the buffer has left.
unfoldable pub read_message : Net → Bytes → Reading Common
read_message net bytes = then_read (read_full 4 bytes) (λ h rest.
    if get_or h 0 0 == socks_version
    then then_read (read_host net (get_or h 3 0) rest) (λ host rest2.
      then_read (read_port rest2) (λ port rest3.
        let data_of : Common = record {
          flag = get_or h 1 0;
          host_type = get_or h 3 0;
          host = host;
          port = port;
        } in
        ret (done data_of, rest3)))
    else ret (failed (unsupported_version (get_or h 0 0)), rest))

-- `readSocksComm` on the bytes that arrive. It reads through a `bufio.Reader` of its own, which is
-- dropped with what it has read ahead: nothing is said of what its caller can still read.
unfoldable pub read_common : Net → Bytes → Go (Result Common)
unfolding read_message
read_common net bytes = read_message net bytes >>= λ (r, buffered). ret r

-- The end of `writeSocksComm`: the message in its buffer of 512 bytes.
unfoldable pub write_packed : Common → Result Bytes → Go (Result Bytes)
write_packed d (failed e) = ret (failed e)
write_packed d (done h) =
    if ltb small_buf_size (4 + length h + 2)
    then panic
    else ret (done (socks_version ∷ d.flag ∷ 0 ∷ d.host_type ∷ (h ++ htons d.port)))

-- `writeSocksComm`: the bytes that it writes.
unfoldable pub write_common : Net → Common → Go (Result Bytes)
write_common net d = write_packed d (pack_host net d.host_type d.host)

abbrev pub value_or {ℓ} : {A : Type ℓ} → A → Result A → A
value_or a (done b) = b
value_or a (failed e) = a

-- `ParseUDPRequest`. It tests `err` where the readers return `e`: a failure leaves the empty host
-- or port 0 and goes on.
unfoldable pub parse_udp_request : Net → Bytes → Go (Result UdpRequest)
parse_udp_request net bytes =
    if ltb 8 (length bytes)
    then (read_host net (get_or bytes 3 0) (drop 4 bytes) >>= λ (host, rest).
        read_port rest >>= λ (port, rest2).
        let req : UdpRequest = record {
          frag = get_or bytes 2 0;
          host_type = get_or bytes 3 0;
          dst_host = value_or [] host;
          dst_port = value_or 0 port;
          body = rest2;
        } in
        ret (done req))
    else ret (failed too_short)

-- `PackUDPRequest`; a host that does not pack is left out.
unfoldable pub pack_udp_request : Net → UdpRequest → Bytes
pack_udp_request net r =
    0
    ∷ 0
    ∷ r.frag
    ∷ r.host_type
    ∷ (value_or [] (pack_host net r.host_type r.dst_host) ++ (htons r.dst_port ++ r.body))
