-- ===== src/Packet/Ip4/RoundTrip.antt =====
-- The parser of the IPv4 header on what the serializer writes.
use go_game_proxy.Prelude.{
  ℕ, ◌≤◌, ◌<◌, ◌≡◌, refl, none, [], ◌∷◌, ◌++◌, Bytes, length, arith, for_length, length-append,
}
use go_game_proxy.Packet.Wire.{ret}
use go_game_proxy.Packet.Ip4.{Ip4, new_ip4, parse_fixed, parse_variable, parse_options, parse_ip4}
use go_game_proxy.Packet.Ip4.Written.{IsPlain, header_with}

abbrev pub received : Ip4 → ℕ → ℕ → Bytes → Bytes → Ip4
received ip total sum body spare = record ip {
  ihl = 5;
  total_length = total;
  checksum_field = sum;
  options = [];
  padding = [];
  payload = record { elems = body; spare = spare };
  header_len = 0;
}

abbrev before_payload : Ip4 → ℕ → ℕ → Ip4
before_payload ip total sum = record (received ip total sum [] []) { payload = new_ip4.payload }

parse_fixed-plain :
    (ip : Ip4) (total sum : ℕ) (src dst body spare : Bytes)
    → IsPlain ip
    → total < 65536
    → sum < 65536
    → length src ≡ 4
    → length dst ≡ 4
    → ip.src_ip ≡ src
    → ip.dst_ip ≡ dst
    → parse_fixed (record { elems = header_with ip total sum ++ body; spare = spare }) new_ip4
      ≡ ret (before_payload ip total sum)
unfolding parse_fixed
parse_fixed-plain ip total sum src dst body spare p ht hs ls ld =
    for_length 4 (λ a. ip.src_ip ≡ a → ip.dst_ip ≡ dst → Goal)
      (λ s0 s1 s2 s3.
        for_length 4 (λ b. ip.src_ip ≡ s0 ∷ s1 ∷ s2 ∷ s3 ∷ [] → ip.dst_ip ≡ b → Goal)
          (λ d0 d1 d2 d3 e f.
            rw (e, f)
              (ground (arith, p.version_fits, p.flags_fits, p.frag_offset_fits, p.id_fits, ht, hs)))
          dst ld)
      src ls
  where
    Goal : Type 0
    Goal =
        parse_fixed (record { elems = header_with ip total sum ++ body; spare = spare }) new_ip4
        ≡ ret (before_payload ip total sum)

parse_variable-plain :
    (ip : Ip4) (total sum : ℕ) (src dst body spare : Bytes)
    → length src ≡ 4
    → length dst ≡ 4
    → ip.src_ip ≡ src
    → ip.dst_ip ≡ dst
    → parse_variable
        (record { elems = header_with ip total sum ++ body; spare = spare })
        (before_payload ip total sum)
      ≡ ret (received ip total sum body spare, none)
unfolding parse_variable parse_options
parse_variable-plain ip total sum src dst body spare ls ld =
    for_length 4 (λ a. ip.src_ip ≡ a → ip.dst_ip ≡ dst → Goal)
      (λ s0 s1 s2 s3.
        for_length 4 (λ b. ip.src_ip ≡ s0 ∷ s1 ∷ s2 ∷ s3 ∷ [] → ip.dst_ip ≡ b → Goal)
          (λ d0 d1 d2 d3 e f. rw (e, f) refl) dst ld)
      src ls
  where
    Goal : Type 0
    Goal =
        parse_variable (record { elems = header_with ip total sum ++ body; spare = spare })
          (before_payload ip total sum)
        ≡ ret (received ip total sum body spare, none)

-- The parser reads back a plain header as it is written, checksum and total length included, and
-- takes all bytes behind it for the payload; it returns no error.
pub parse_ip4-header_with :
    (ip : Ip4) (total sum : ℕ) (body spare : Bytes)
    → IsPlain ip
    → 20 ≤ total
    → total < 65536
    → sum < 65536
    → parse_ip4 (record { elems = header_with ip total sum ++ body; spare = spare }) new_ip4
      ≡ ret (received ip total sum body spare, none)
unfolding parse_ip4
parse_ip4-header_with ip total sum body spare p h ht hs =
    rw
      (parse_fixed-plain ip total sum ip.src_ip ip.dst_ip body spare p ht hs p.src_ip_length
        p.dst_ip_length refl refl)
      (rw
        (parse_variable-plain ip total sum ip.src_ip ip.dst_ip body spare p.src_ip_length
          p.dst_ip_length refl refl)
        (ground
          (arith, length-append ip.src_ip ip.dst_ip, length-append (ip.src_ip ++ ip.dst_ip) body)))
