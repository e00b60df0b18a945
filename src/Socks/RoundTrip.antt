-- ===== src/Socks/RoundTrip.antt =====
-- What the writers of SOCKS messages write, the readers read back.
use go_game_proxy.Prelude.{
  ℕ, ◌+◌, ◌≤◌, ◌<◌, ◌≡◌, refl, sym, some, [], ◌∷◌, ◌++◌, Bytes, ltb, false, true, lt→ltb, u8,
  length, length-append, take-append, drop-append, append_assoc, arith,
}
use go_game_proxy.Packet.Wire.{ret}
use go_game_proxy.Socks.{
  Net, done, Common, UdpRequest, ipv4_host, ipv6_host, domain_host, htons, read_full, read_ip_host,
  read_domain_host, read_host, read_port, or_invalid, pack_host, read_common, read_message,
  write_packed, write_common, parse_udp_request, pack_udp_request,
}

-- The documented round trip of package net: an address that is printed parses to its bytes.
pub record IsNet (net : Net) : Type 0 where
  pub round4 : (b : Bytes) → length b ≡ 4 → net.parse_to4 (net.ip_string b) ≡ some b
  pub round16 : (b : Bytes) → length b ≡ 16 → net.parse_to16 (net.ip_string b) ≡ some b

-- A host of its type: a printed address, or a name of less than 255 bytes.
pub data IsHost (net : Net) : ℕ → Bytes → Type 0 where
  is_ip4 : (b : Bytes) → length b ≡ 4 → IsHost net ipv4_host (net.ip_string b)
  is_ip6 : (b : Bytes) → length b ≡ 16 → IsHost net ipv6_host (net.ip_string b)
  is_domain : (name : Bytes) → length name < 255 → IsHost net domain_host name

pub read_full-append : (a rest : Bytes) → read_full (length a) (a ++ rest) ≡ ret (done a, rest)
unfolding read_full
read_full-append a rest =
    let c : ltb (length (a ++ rest)) (length a) ≡ false = ground (arith, length-append a rest) in
    rw (c, take-append a rest, drop-append a rest) refl

pub read_port-htons :
    (port : ℕ) (rest : Bytes)
    → port < 65536
    → read_port (htons port ++ rest) ≡ ret (done port, rest)
unfolding read_port
read_port-htons port rest h = rw (read_full-append (htons port) rest) (ground arith)

read_full-at :
    (n : ℕ) (a rest : Bytes) → length a ≡ n → read_full n (a ++ rest) ≡ ret (done a, rest)
read_full-at n a rest l = rw (sym l) (read_full-append a rest)

read_ip_host-at :
    (net : Net) (n : ℕ) (b rest : Bytes)
    → length b ≡ n
    → read_ip_host net n (b ++ rest) ≡ ret (done (net.ip_string b), rest)
unfolding read_ip_host
read_ip_host-at net n b rest l = rw (read_full-at n b rest l) refl

read_domain_host-at :
    (name rest : Bytes)
    → length name < 255
    → read_domain_host ((u8 (length name) ∷ name) ++ rest) ≡ ret (done name, rest)
unfolding read_domain_host
read_domain_host-at name rest l =
    let small : u8 (length name) ≡ length name = omega arith in
    let fits : ltb (u8 (1 + length name)) 1 ≡ false = ground (arith, l) in
    rw (small, read_full-at 1 (length name ∷ []) (name ++ rest) refl)
      (rw (fits, read_full-append name rest) refl)

-- A packed host is read back.
pub read_host-pack_host :
    (net : Net) (t : ℕ) (host rest : Bytes)
    → IsNet net
    → IsHost net t host
    → (h : Bytes) × (pack_host net t host ≡ done h)
      × (length h ≤ 255)
      × (read_host net t (h ++ rest) ≡ ret (done host, rest))
unfolding pack_host read_host read_ip_host read_domain_host or_invalid
read_host-pack_host net t host rest n (is_ip4 b l) =
    (b, rw (n.round4 b l) refl, omega (arith, l), read_ip_host-at net 4 b rest l)
read_host-pack_host net t host rest n (is_ip6 b l) =
    (b, rw (n.round16 b l) refl, omega (arith, l), read_ip_host-at net 16 b rest l)
read_host-pack_host net t host rest n (is_domain name l) =
    (u8 (length name) ∷ name, refl, omega (arith, l), read_domain_host-at name rest l)

-- A message whose port fits 16 bits and whose host is a printed address of its type, or a name of
-- less than 255 bytes, is written without an error and read back, whatever arrives behind it. The
-- package net is assumed to parse the addresses that it prints.
pub read_common-write_common :
    (net : Net) (d : Common) (rest : Bytes)
    → IsNet net
    → IsHost net d.host_type d.host
    → d.port < 65536
    → (message : Bytes) × (write_common net d ≡ ret (done message))
      × (read_common net (message ++ rest) ≡ ret (done d))
unfolding read_common read_message write_common write_packed
read_common-write_common net d rest n v p =
    let (h, packed, small, reads) =
      read_host-pack_host net d.host_type d.host (htons d.port ++ rest) n v in
    let fits : ltb 512 (4 + length h + 2) ≡ false = ground (arith, small) in
    (
      5 ∷ d.flag ∷ 0 ∷ d.host_type ∷ (h ++ htons d.port),
      rw (packed, fits) refl,
      rw (read_full-at 4 (5 ∷ d.flag ∷ 0 ∷ d.host_type ∷ []) ((h ++ htons d.port) ++ rest) refl) (
          rw (append_assoc h (htons d.port) rest)
            (rw reads (rw (read_port-htons d.port rest p) refl))),
    )

-- A UDP request with a valid host and port comes through packing and parsing, if it has more than
-- the eight bytes that the parser asks for.
pub parse_udp_request-pack_udp_request :
    (net : Net) (r : UdpRequest)
    → IsNet net
    → IsHost net r.host_type r.dst_host
    → r.dst_port < 65536
    → 8 < length (pack_udp_request net r)
    → parse_udp_request net (pack_udp_request net r) ≡ ret (done r)
unfolding parse_udp_request pack_udp_request
parse_udp_request-pack_udp_request net r n v p l =
    let (h, packed, small, reads) =
      read_host-pack_host net r.host_type r.dst_host (htons r.dst_port ++ r.body) n v in
    let long : ltb 8 (length (pack_udp_request net r)) ≡ true = lt→ltb 8 _ l in
    rw long (rw packed (rw reads (rw (read_port-htons r.dst_port r.body p) refl)))
