-- ===== src/Packet/Udp/RoundTrip.antt =====
-- The serializer and the parser of the UDP header.
use go_game_proxy.Prelude.{
  ℕ, ◌+◌, ◌/◌, ◌%◌, ◌<◌, ◌≡◌, refl, ◌∙◌, none, List, [], ◌∷◌, ◌++◌, Bytes, length, arith, u8, u16,
  for_length, ap,
}
use go_game_proxy.Packet.Checksum.{checksum}
use go_game_proxy.Packet.Wire.{ret}
use go_game_proxy.Packet.Udp.{Udp, new_udp, parse_udp, fill_udp, serialize_udp}

pub record IsPlain (udp : Udp) : Type 0 where
  pub src_port_fits : udp.src_port < 65536
  pub dst_port_fits : udp.dst_port < 65536

-- The header on the wire.
abbrev pub datagram_with : Udp → ℕ → ℕ → Bytes
datagram_with u len sum =
    (u.src_port / 256)
    ∷ (u.src_port % 256)
    ∷ (u.dst_port / 256)
    ∷ (u.dst_port % 256)
    ∷ (len / 256)
    ∷ (len % 256)
    ∷ (sum / 256)
    ∷ (sum % 256)
    ∷ []

abbrev raw_with : Udp → ℕ → ℕ → Bytes
raw_with u a b =
    u8 (u.src_port / 256)
    ∷ u8 u.src_port
    ∷ u8 (u.dst_port / 256)
    ∷ u8 u.dst_port
    ∷ u8 (u.udp_length / 256)
    ∷ u8 u.udp_length
    ∷ a
    ∷ b
    ∷ []

fill_udp-raw :
    (u : Udp) (ck : Bytes → List Bytes) (hdr : Bytes) (sum : ℕ)
    → length hdr ≡ 8
    → checksum (ck (raw_with u 0 0)) ≡ ret sum
    → fill_udp u ck hdr
      ≡ ret (raw_with u (u8 (sum / 256)) (u8 sum), record u { checksum_field = sum }, none)
unfolding fill_udp
fill_udp-raw u ck hdr sum l =
    for_length 8
      (λ h.
        checksum (ck (raw_with u 0 0)) ≡ ret sum
        → fill_udp u ck h
          ≡ ret (raw_with u (u8 (sum / 256)) (u8 sum), record u { checksum_field = sum }, none))
      (λ h0 h1 h2 h3 h4 h5 h6 h7 c. rw c refl) hdr l

raw_with-datagram_with :
    (u : Udp) (len sum : ℕ)
    → IsPlain u
    → len < 65536
    → sum < 65536
    → raw_with (record u { udp_length = len }) (u8 (sum / 256)) (u8 sum) ≡ datagram_with u len sum
raw_with-datagram_with u len sum p h k = ground (arith, p.src_port_fits, p.dst_port_fits)

-- The serializer fills any eight bytes, whatever they held, with the ports, the length of the
-- datagram and the checksum of the fields that it is given, and returns no error.
pub serialize_udp-datagram_with :
    (u : Udp) (hdr : Bytes) (ck : Bytes → List Bytes) (sum : ℕ)
    → IsPlain u
    → length hdr ≡ 8
    → length u.payload < 65528
    → sum < 65536
    → checksum (ck (datagram_with u (length u.payload + 8) 0)) ≡ ret sum
    → serialize_udp u hdr ck
      ≡ ret (
        datagram_with u (length u.payload + 8) sum,
        record u { udp_length = length u.payload + 8; checksum_field = sum },
        none,
      )
unfolding serialize_udp
serialize_udp-datagram_with u hdr ck sum p l b s c =
    let n : u16 (u16 (length u.payload) + 8) ≡ length u.payload + 8 = omega arith in
    let v = record u { udp_length = length u.payload + 8 } in
    let zero_sum =
      raw_with-datagram_with u (length u.payload + 8) 0 p (omega arith) (omega arith) in
    rw (l, n)
      (fill_udp-raw v ck hdr sum l (ap (λ h. checksum (ck h)) zero_sum ∙ c)
        ∙ ap (λ h. ret (h, record v { checksum_field = sum }, none))
            (raw_with-datagram_with u (length u.payload + 8) sum p (omega arith) s))

-- The parser reads the datagram back, its payload included, with no error.
pub parse_udp-datagram_with :
    (u : Udp) (len sum : ℕ) (body spare : Bytes)
    → IsPlain u
    → len < 65536
    → sum < 65536
    → parse_udp (record { elems = datagram_with u len sum ++ body; spare = spare }) new_udp
      ≡ ret (record u { udp_length = len; checksum_field = sum; payload = body }, none)
unfolding parse_udp
parse_udp-datagram_with u len sum [] spare p h k = ground (arith, p.src_port_fits, p.dst_port_fits)
parse_udp-datagram_with u len sum (b ∷ body) spare p h k =
    ground (arith, p.src_port_fits, p.dst_port_fits)
