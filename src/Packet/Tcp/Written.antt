-- ===== src/Packet/Tcp/Written.antt =====
-- What the serializer of the TCP header writes.
use go_game_proxy.Prelude.{
  ℕ, ◌+◌, ◌*◌, ◌/◌, ◌%◌, ◌<◌, ◌≡◌, refl, ◌∙◌, ap, Option, none, List, [], ◌∷◌, Bytes, length, arith,
  u8, for_length, All,
}
use go_game_proxy.Packet.Checksum.{checksum}
use go_game_proxy.Packet.Checksum.Laws.{IsByte}
use go_game_proxy.Packet.Wire.{Go, ret, ◌>>=◌, put, put_uint16, Error}
use go_game_proxy.Packet.Tcp.{
  Tcp, write_fixed, write_checksum, write_options, fill_tcp, serialize_tcp, header_length,
  flags_and_offset,
}
use go_game_proxy.Packet.Tcp.Flags.{
  value, low_flags, flags_and_offset-bytes, low_flags-lt, value_ns-le,
}

-- A header as the program builds it for most segments: from a zeroed one, with no options.
pub record IsPlain (tcp : Tcp) : Type 0 where
  pub no_options : tcp.options ≡ []
  pub fresh : tcp.header_len ≡ 0
  pub src_port_fits : tcp.src_port < 65536
  pub dst_port_fits : tcp.dst_port < 65536
  pub seq_fits : tcp.seq < 4294967296
  pub ack_fits : tcp.ack < 4294967296
  pub window_fits : tcp.window < 65536
  pub urgent_fits : tcp.urgent < 65536

abbrev pub word16 : ℕ → Bytes → Bytes
word16 n rest = (n / 256) ∷ (n % 256) ∷ rest

abbrev pub word32 : ℕ → Bytes → Bytes
word32 n rest = (n / 16777216) ∷ (n / 65536 % 256) ∷ (n / 256 % 256) ∷ (n % 256) ∷ rest

-- The header on the wire, with `sum` for its checksum.
abbrev pub segment_with : Tcp → ℕ → Bytes
segment_with t sum = word16 t.src_port (
    word16 t.dst_port (
      word32 t.seq (
        word32 t.ack (
          (5 * 16 + value t.ns)
          ∷ low_flags t
          ∷ word16 t.window (word16 sum (word16 t.urgent []))))))

-- The header after `HeaderLength`.
abbrev pub sized : Tcp → Tcp
sized t = record t { padding = []; header_len = 20; data_offset = 5 }

-- The fixed fields as they are written, the checksum field 0.
abbrev fixed_bytes : Tcp → Bytes
fixed_bytes t =
    u8 (t.src_port / 256)
    ∷ u8 t.src_port
    ∷ u8 (t.dst_port / 256)
    ∷ u8 t.dst_port
    ∷ u8 (t.seq / 16777216)
    ∷ u8 (t.seq / 65536)
    ∷ u8 (t.seq / 256)
    ∷ u8 t.seq
    ∷ u8 (t.ack / 16777216)
    ∷ u8 (t.ack / 65536)
    ∷ u8 (t.ack / 256)
    ∷ u8 t.ack
    ∷ u8 (flags_and_offset t / 256)
    ∷ u8 (flags_and_offset t)
    ∷ u8 (t.window / 256)
    ∷ u8 t.window
    ∷ 0
    ∷ 0
    ∷ u8 (t.urgent / 256)
    ∷ u8 t.urgent
    ∷ []

abbrev cleared : Go Bytes → Go Bytes
cleared m = m >>= λ h. put h 16 0 >>= λ h1. put h1 17 0

write_fixed-length :
    (t : Tcp) (hdr : Bytes) → length hdr ≡ 20 → cleared (write_fixed t hdr) ≡ ret (fixed_bytes t)
unfolding write_fixed
write_fixed-length t =
    for_length 20 (λ h. cleared (write_fixed t h) ≡ ret (fixed_bytes t))
      (λ h0 h1 h2 h3 h4 h5 h6 h7 h8 h9 h10 h11 h12 h13 h14 h15 h16 h17 h18 h19. refl)

fixed_bytes-segment_with : (t : Tcp) → IsPlain t → fixed_bytes (sized t) ≡ segment_with t 0
fixed_bytes-segment_with t p =
    let (e, f) = flags_and_offset-bytes (sized t) (omega arith) in
    rw (e, f)
      (ground (
        arith, p.src_port_fits, p.dst_port_fits, p.seq_fits, p.ack_fits, p.window_fits,
        p.urgent_fits,
      ))

checksum_tail : Tcp → (Bytes → List Bytes) → Bytes → Go (Bytes × Tcp × Option Error)
checksum_tail t ck h = do
  sum ← checksum (ck h)
  h1 ← put_uint16 h 16 sum
  ret (h1, record t { checksum_field = sum }, none)

fill_tcp-no_options :
    (t : Tcp) (ck : Bytes → List Bytes) (hdr : Bytes)
    → length hdr ≡ 20
    → t.options ≡ []
    → fill_tcp (sized t) ck hdr ≡ checksum_tail (sized t) ck (fixed_bytes (sized t))
unfolding fill_tcp write_fixed write_options write_checksum checksum_tail
fill_tcp-no_options t ck =
    for_length 20
      (λ h.
        t.options ≡ []
        → fill_tcp (sized t) ck h ≡ checksum_tail (sized t) ck (fixed_bytes (sized t)))
      (λ h0 h1 h2 h3 h4 h5 h6 h7 h8 h9 h10 h11 h12 h13 h14 h15 h16 h17 h18 h19 e. simp e refl)

pub header_length-plain : (t : Tcp) → IsPlain t → header_length t ≡ (sized t, 20)
unfolding header_length
header_length-plain t p = ground (arith, p.fresh, p.no_options)

serialize_tcp-measured :
    (t t' : Tcp) (hdr : Bytes) (ck : Bytes → List Bytes) (sum : ℕ)
    → header_length t' ≡ (sized t, 20)
    → IsPlain t
    → length hdr ≡ 20
    → checksum (ck (segment_with t 0)) ≡ ret sum
    → sum < 65536
    → serialize_tcp t' hdr ck
      ≡ ret (segment_with t sum, record (sized t) { checksum_field = sum }, none)
unfolding serialize_tcp checksum_tail
serialize_tcp-measured t t' hdr ck sum m p l c s = rw m (
    rw l (
      fill_tcp-no_options t ck hdr l p.no_options
      ∙ ap (checksum_tail (sized t) ck) (fixed_bytes-segment_with t p)
      ∙ rw c (let e : u8 (sum / 256) ≡ sum / 256 = omega arith in rw e refl)))

-- A plain header is written to any twenty bytes, whatever they held: the serializer returns the
-- header with the checksum of the fields that it is given, and no error.
pub serialize_tcp-segment_with :
    (t : Tcp) (hdr : Bytes) (ck : Bytes → List Bytes) (sum : ℕ)
    → IsPlain t
    → length hdr ≡ 20
    → checksum (ck (segment_with t 0)) ≡ ret sum
    → sum < 65536
    → serialize_tcp t hdr ck
      ≡ ret (segment_with t sum, record (sized t) { checksum_field = sum }, none)
serialize_tcp-segment_with t hdr ck sum p =
    serialize_tcp-measured t t hdr ck sum (header_length-plain t p) p

-- The same once the length of the header is cached.
pub serialize_tcp-sized :
    (t : Tcp) (hdr : Bytes) (ck : Bytes → List Bytes) (sum : ℕ)
    → IsPlain t
    → length hdr ≡ 20
    → checksum (ck (segment_with t 0)) ≡ ret sum
    → sum < 65536
    → serialize_tcp (sized t) hdr ck
      ≡ ret (segment_with t sum, record (sized t) { checksum_field = sum }, none)
unfolding header_length
serialize_tcp-sized t hdr ck sum p = serialize_tcp-measured t (sized t) hdr ck sum refl p

pub segment_with-IsByte :
    (t : Tcp) (sum : ℕ) → IsPlain t → sum < 65536 → All IsByte (segment_with t sum)
segment_with-IsByte t sum p s = omega (arith, low_flags-lt t, value_ns-le t)
