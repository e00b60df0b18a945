-- ===== src/Packet/Ip4/Written.antt =====
-- What the serializer of the IPv4 header writes.
use go_game_proxy.Prelude.{
  ℕ, ◌+◌, ◌-◌, ◌*◌, ◌/◌, ◌%◌, ◌<◌, ◌≡◌, refl, sym, ◌∙◌, ap, Option, none, [], ◌∷◌, ◌++◌, Bytes,
  length, arith, u16, u8, bit_or, for_length, length-append, All, All-append,
}
use go_game_proxy.Prelude.Bits.{bit_or_add}
use go_game_proxy.Packet.Checksum.Laws.{
  word_sum, ones_sum, checksum_one, IsByte, word_sum-le, complement-lt, complement_cancels,
}
use go_game_proxy.Packet.Wire.{Go, ret, panic, hang, ◌>>=◌, put, put_uint16, bind_assoc, Error}
use go_game_proxy.Packet.Checksum.{checksum}
use go_game_proxy.Packet.Ip4.{
  Ip4, write_fixed, flagsfrags, write_checksum, write_options, fill_ip4, serialize_ip4,
  header_length,
}

-- A header as the program builds it: from a zeroed one, with no options and two addresses.
pub record IsPlain (ip : Ip4) : Type 0 where
  pub no_options : ip.options ≡ []
  pub fresh : ip.header_len ≡ 0
  pub version_fits : ip.version < 16
  pub tos_fits : ip.tos < 256
  pub id_fits : ip.id < 65536
  pub flags_fits : ip.flags < 8
  pub frag_offset_fits : ip.frag_offset < 8192
  pub ttl_fits : ip.ttl < 256
  pub protocol_fits : ip.protocol < 256
  pub src_ip_length : length ip.src_ip ≡ 4
  pub dst_ip_length : length ip.dst_ip ≡ 4
  pub src_ip_bytes : All IsByte ip.src_ip
  pub dst_ip_bytes : All IsByte ip.dst_ip

-- The header on the wire, with `sum` for its checksum.
abbrev pub header_with : Ip4 → ℕ → ℕ → Bytes
header_with ip total sum =
    (ip.version * 16 + 5)
    ∷ ip.tos
    ∷ (total / 256)
    ∷ (total % 256)
    ∷ (ip.id / 256)
    ∷ (ip.id % 256)
    ∷ (ip.flags * 32 + ip.frag_offset / 256)
    ∷ (ip.frag_offset % 256)
    ∷ ip.ttl
    ∷ ip.protocol
    ∷ (sum / 256)
    ∷ (sum % 256)
    ∷ (ip.src_ip ++ ip.dst_ip)

flagsfrags-add :
    (ip : Ip4)
    → ip.flags < 8
    → ip.frag_offset < 8192
    → flagsfrags ip ≡ ip.flags * 8192 + ip.frag_offset
unfolding flagsfrags
flagsfrags-add ip h k =
    let e : u16 (ip.flags * 8192) ≡ ip.flags * 8192 = omega arith in
    rw e (bit_or_add 13 ip.flags ip.frag_offset k)

-- The fixed fields as `Serialize` writes them, the checksum field 0.
abbrev fixed_bytes : Ip4 → Bytes
fixed_bytes ip =
    bit_or (u8 (ip.version * 16)) ip.ihl
    ∷ ip.tos
    ∷ u8 (ip.total_length / 256)
    ∷ u8 ip.total_length
    ∷ u8 (ip.id / 256)
    ∷ u8 ip.id
    ∷ u8 (flagsfrags ip / 256)
    ∷ u8 (flagsfrags ip)
    ∷ ip.ttl
    ∷ u8 ip.protocol
    ∷ 0
    ∷ 0
    ∷ (ip.src_ip ++ ip.dst_ip)

abbrev cleared : Go Bytes → Go Bytes
cleared m = m >>= λ h. put h 10 0 >>= λ h1. put h1 11 0

-- With the addresses and the old bytes spelt out, the writes compute.
write_fixed_at :
    (ip : Ip4) (hdr src dst : Bytes)
    → length hdr ≡ 20
    → length src ≡ 4
    → length dst ≡ 4
    → ip.src_ip ≡ src
    → ip.dst_ip ≡ dst
    → cleared (write_fixed ip hdr) ≡ ret (fixed_bytes ip)
unfolding write_fixed
write_fixed_at ip hdr src dst lh ls ld =
    for_length 20
      (λ h.
        (ip.src_ip ≡ src) → (ip.dst_ip ≡ dst) → cleared (write_fixed ip h) ≡ ret (fixed_bytes ip))
      (λ h0 h1 h2 h3 h4 h5 h6 h7 h8 h9 h10 h11 h12 h13 h14 h15 h16 h17 h18 h19.
        let old =
          h0 ∷ h1 ∷ h2 ∷ h3 ∷ h4 ∷ h5 ∷ h6 ∷ h7 ∷ h8 ∷ h9 ∷ h10 ∷ h11 ∷ h12 ∷ h13 ∷ h14 ∷ h15 ∷ h16
          ∷ h17 ∷ h18 ∷ h19 ∷ [] in
        for_length 4
          (λ a.
            ip.src_ip ≡ a → ip.dst_ip ≡ dst → cleared (write_fixed ip old) ≡ ret (fixed_bytes ip))
          (λ s0 s1 s2 s3.
            for_length 4
              (λ b.
                ip.src_ip ≡ s0 ∷ s1 ∷ s2 ∷ s3 ∷ []
                → ip.dst_ip ≡ b
                → cleared (write_fixed ip old) ≡ ret (fixed_bytes ip))
              (λ d0 d1 d2 d3 e f. rw (e, f) refl) dst ld)
          src ls)
      hdr lh

-- The header after `HeaderLength` and the length of the packet have been filled in.
abbrev pub sized : Ip4 → ℕ → Ip4
sized ip data_len = record ip { ihl = 5; header_len = 20; total_length = u16 (20 + data_len) }

fixed_bytes-header_with :
    (ip : Ip4) (n : ℕ) → IsPlain ip → fixed_bytes (sized ip n) ≡ header_with ip (u16 (20 + n)) 0
fixed_bytes-header_with ip n p = ground (
  arith,
  bit_or_add 4 (ip.version % 16) 5 (omega arith),
  flagsfrags-add (sized ip n) p.flags_fits p.frag_offset_fits,
)

abbrev pub header_sum : Ip4 → ℕ → ℕ
header_sum ip total = 65535 - ones_sum (word_sum (header_with ip total 0))

header_with_pair : (ip : Ip4) → IsPlain ip → length (ip.src_ip ++ ip.dst_ip) ≡ 8
header_with_pair ip p =
    omega (arith, length-append ip.src_ip ip.dst_ip, p.src_ip_length, p.dst_ip_length)

checksum_tail : Ip4 → Bytes → Go (Bytes × Ip4 × Option Error)
checksum_tail ip h2 = do
  sum ← checksum (h2 ∷ [])
  h3 ← put_uint16 h2 10 sum
  ret (h3, record ip { checksum_field = sum }, none)

write_checksum-cleared :
    (ip : Ip4) (m : Go Bytes) → (m >>= λ h. write_checksum ip h) ≡ (cleared m >>= checksum_tail ip)
unfolding write_checksum checksum_tail
write_checksum-cleared ip (ret h) =
    sym (bind_assoc (put h 10 0) (λ h1. put h1 11 0) (checksum_tail ip))
write_checksum-cleared ip panic = refl
write_checksum-cleared ip hang = refl

checksum_tail-header_with :
    (ip : Ip4) (n : ℕ)
    → word_sum (header_with ip (u16 (20 + n)) 0) < 4294967296
    → checksum_tail (sized ip n) (header_with ip (u16 (20 + n)) 0)
      ≡ ret (
        header_with ip (u16 (20 + n)) (header_sum ip (u16 (20 + n))),
        record (sized ip n) { checksum_field = header_sum ip (u16 (20 + n)) },
        none,
      )
unfolding checksum_tail
checksum_tail-header_with ip n b =
    let small : header_sum ip (u16 (20 + n)) < 65536 = complement-lt _ in
    rw (checksum_one (header_with ip (u16 (20 + n)) 0) b) (
      let e : u8 (header_sum ip (u16 (20 + n)) / 256) ≡ header_sum ip (u16 (20 + n)) / 256 =
        omega arith in
      rw e refl)

pub header_with-IsByte :
    (ip : Ip4) (total sum : ℕ)
    → IsPlain ip
    → total < 65536
    → sum < 65536
    → All IsByte (header_with ip total sum)
header_with-IsByte ip total sum p h k =
    let tail = All-append IsByte ip.src_ip ip.dst_ip p.src_ip_bytes p.dst_ip_bytes in
    let back : All IsByte
        (ip.ttl ∷ ip.protocol ∷ (sum / 256) ∷ (sum % 256) ∷ (ip.src_ip ++ ip.dst_ip)) =
      (p.ttl_fits, (p.protocol_fits, (omega arith, (omega arith, tail)))) in
    (
      omega arith,
      (
        omega arith,
        (
          omega arith,
          (omega arith, (omega arith, (omega arith, (omega arith, (omega arith, back))))),
        ),
      ),
    )

pub header_with-small :
    (ip : Ip4) (total sum : ℕ)
    → IsPlain ip
    → total < 65536
    → sum < 65536
    → word_sum (header_with ip total sum) < 4294967296
header_with-small ip total sum p h k = omega (
  arith,
  word_sum-le (header_with ip total sum) (header_with-IsByte ip total sum p h k),
  length-append ip.src_ip ip.dst_ip,
)

pub header_length-plain :
    (ip : Ip4) → IsPlain ip → header_length ip ≡ (record ip { ihl = 5; header_len = 20 }, 20)
unfolding header_length
header_length-plain ip p = ground (arith, p.fresh, p.no_options)

fill_ip4-no_options :
    (ip : Ip4) (hdr : Bytes)
    → ip.options ≡ []
    → fill_ip4 ip hdr ≡ (write_fixed ip hdr >>= λ h. write_checksum ip h)
unfolding fill_ip4 write_options
fill_ip4-no_options ip hdr e = simp e refl

-- The header once its length is cached.
abbrev pub measured : Ip4 → Ip4
measured ip = record ip { ihl = 5; header_len = 20 }

serialize_ip4-measured :
    (ip ip' : Ip4) (hdr : Bytes) (data_len : ℕ)
    → header_length ip' ≡ (measured ip, 20)
    → IsPlain ip
    → length hdr ≡ 20
    → let total = u16 (20 + data_len) in
      serialize_ip4 ip' hdr data_len
      ≡ ret (
        header_with ip total (header_sum ip total),
        record (sized ip data_len) { checksum_field = header_sum ip total },
        none,
      )
unfolding serialize_ip4
serialize_ip4-measured ip ip' hdr n m p l = rw m (
    rw l (
      fill_ip4-no_options (sized ip n) hdr p.no_options
      ∙ write_checksum-cleared (sized ip n) (write_fixed (sized ip n) hdr)
      ∙ ap (λ m. m >>= checksum_tail (sized ip n)) written
      ∙ checksum_tail-header_with ip n
          (header_with-small ip (u16 (20 + n)) 0 p (omega arith) (omega arith))))
  where
    written : cleared (write_fixed (sized ip n) hdr) ≡ ret (header_with ip (u16 (20 + n)) 0)
    written =
        write_fixed_at (sized ip n) hdr ip.src_ip ip.dst_ip l p.src_ip_length p.dst_ip_length refl
          refl
        ∙ ap ret (fixed_bytes-header_with ip n p)

-- A plain header is written to any twenty bytes, whatever they held, with the length of the
-- packet filled in and the checksum of the header; the serializer returns no error.
pub serialize_ip4-header_with :
    (ip : Ip4) (hdr : Bytes) (data_len : ℕ)
    → IsPlain ip
    → length hdr ≡ 20
    → let total = u16 (20 + data_len) in
      serialize_ip4 ip hdr data_len
      ≡ ret (
        header_with ip total (header_sum ip total),
        record (sized ip data_len) { checksum_field = header_sum ip total },
        none,
      )
serialize_ip4-header_with ip hdr n p =
    serialize_ip4-measured ip ip hdr n (header_length-plain ip p) p

-- The same once the length of the header is cached.
pub serialize_ip4-sized :
    (ip : Ip4) (hdr : Bytes) (data_len : ℕ)
    → IsPlain ip
    → length hdr ≡ 20
    → let total = u16 (20 + data_len) in
      serialize_ip4 (measured ip) hdr data_len
      ≡ ret (
        header_with ip total (header_sum ip total),
        record (sized ip data_len) { checksum_field = header_sum ip total },
        none,
      )
unfolding header_length
serialize_ip4-sized ip hdr n p = serialize_ip4-measured ip (measured ip) hdr n refl p

-- The header sums to zero with its checksum, which is what a receiver tests.
pub header_with-checksum :
    (ip : Ip4) (total : ℕ)
    → IsPlain ip
    → total < 65536
    → checksum (header_with ip total (header_sum ip total) ∷ []) ≡ ret 0
header_with-checksum ip total p h =
    let small : header_sum ip total < 65536 = complement-lt _ in
    checksum_one (header_with ip total (header_sum ip total))
      (header_with-small ip total _ p h small)
    ∙ ap ret (
        ap (λ s. 65535 - ones_sum s) (omega arith)
        ∙ complement_cancels (word_sum (header_with ip total 0)))
