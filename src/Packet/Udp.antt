-- ===== src/Packet/Udp.antt =====
-- gotun2socks/packet/udp.go: the UDP header, its parser and its serializer.
pub mod RoundTrip
use go_game_proxy.Prelude.{
  ℕ, ◌+◌, not, Option, none, some, List, [], ◌∷◌, Bytes, ltb, ◌==◌, if◌then◌else◌, u16, length,
  Bool,
}
use go_game_proxy.Packet.Checksum.{checksum}
use go_game_proxy.Packet.Wire.{
  Go, ret, ◌>>=◌, Error, buffer_size, udp_too_short, Slice, slice_from, uint16_at, put, put_uint16,
}

pub record Udp : Type 0 where
  pub src_port : ℕ
  pub dst_port : ℕ
  pub udp_length : ℕ
  pub checksum_field : ℕ
  pub payload : Bytes

-- `NewUDP`
abbrev pub new_udp : Udp
new_udp = record { src_port = 0; dst_port = 0; udp_length = 0; checksum_field = 0; payload = [] }

-- `ReleaseUDP`
abbrev pub release_udp : Udp → Udp
release_udp udp = record udp { payload = [] }

unfoldable pub parse_udp : Slice → Udp → Go (Udp × Option Error)
parse_udp pkt udp =
    if ltb (length pkt.elems) 8
    then ret (udp, some udp_too_short)
    else (uint16_at pkt 0 >>= λ src. uint16_at pkt 2 >>= λ dst. uint16_at pkt 4 >>= λ len.
        uint16_at pkt 6 >>= λ sum.
        let filled = record udp {
          src_port = src;
          dst_port = dst;
          udp_length = len;
          checksum_field = sum;
        } in
        if ltb 8 (length pkt.elems)
        then (slice_from pkt 8 >>= λ body. ret (record filled { payload = body.elems }, none))
        else ret (record filled { payload = [] }, none))

-- The writes of `Serialize`; the summed fields are a function of the bytes of the header, whose
-- memory they may share.
unfoldable pub fill_udp : Udp → (Bytes → List Bytes) → Bytes → Go (Bytes × Udp × Option Error)
fill_udp udp ck_fields hdr = do
  h1 ← put_uint16 hdr 0 udp.src_port
  h2 ← put_uint16 h1 2 udp.dst_port
  h3 ← put_uint16 h2 4 udp.udp_length
  h4 ← put h3 6 0
  h5 ← put h4 7 0
  sum ← checksum (ck_fields h5)
  h6 ← put_uint16 h5 6 sum
  ret (h6, record udp { checksum_field = sum }, none)

unfoldable pub serialize_udp : Udp → Bytes → (Bytes → List Bytes) → Go (Bytes × Udp × Option Error)
serialize_udp udp hdr ck_fields =
    if not (length hdr == 8)
    then ret (hdr, udp, some buffer_size)
    else fill_udp (record udp { udp_length = u16 (u16 (length udp.payload) + 8) }) ck_fields hdr
