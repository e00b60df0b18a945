-- ===== src/Packet/Ip4.antt =====
-- gotun2socks/packet/ip4.go: the IPv4 header, its parser and its serializer. A parser is given
-- the header that it fills in, since the tunnel's reader fills in the same one for every packet.
pub mod RoundTrip
pub mod Ends
pub mod Written
use go_game_proxy.Prelude.{
  ℕ, zero, suc, ◌+◌, ◌-◌, ◌*◌, ◌/◌, ◌%◌, Bool, true, false, not, Option, none, some, List, [], ◌∷◌,
  ◌++◌, Bytes, ltb, leb, ◌==◌, if◌then◌else◌, u8, u16, u32, length, bit_or,
}
use go_game_proxy.Packet.Checksum.{checksum}
use go_game_proxy.Packet.Wire.{
  Go, ret, panic, hang, ◌>>=◌, Error, ip_length_too_small, ip_header_too_small,
  ip_header_exceeds_length, ip_header_missing, ip_option_exceeds, buffer_size, option_data_exceeds,
  Slice, index, slice, slice_from, uint16_at, put, put_uint16, copy_at,
}

pub record Ip4Option : Type 0 where
  pub option_type : ℕ
  pub option_length : ℕ
  pub option_data : Bytes

pub record Ip4 : Type 0 where
  pub version : ℕ
  pub ihl : ℕ
  pub tos : ℕ
  pub total_length : ℕ
  pub id : ℕ
  pub flags : ℕ
  pub frag_offset : ℕ
  pub ttl : ℕ
  pub protocol : ℕ
  pub checksum_field : ℕ
  pub src_ip : Bytes
  pub dst_ip : Bytes
  pub options : List Ip4Option
  pub padding : Bytes
  pub payload : Slice
  pub header_len : ℕ

abbrev pub no_slice : Slice
no_slice = record { elems = []; spare = [] }

-- `NewIPv4`, which zeroes the header that the pool hands out.
abbrev pub new_ip4 : Ip4
new_ip4 = record {
  version = 0;
  ihl = 0;
  tos = 0;
  total_length = 0;
  id = 0;
  flags = 0;
  frag_offset = 0;
  ttl = 0;
  protocol = 0;
  checksum_field = 0;
  src_ip = [];
  dst_ip = [];
  options = [];
  padding = [];
  payload = no_slice;
  header_len = 0;
}

-- `ReleaseIPv4`
abbrev pub release_ip4 : Ip4 → Ip4
release_ip4 ip = record ip {
  src_ip = [];
  dst_ip = [];
  options = [];
  padding = [];
  payload = no_slice;
}

abbrev pub protocol_tcp : ℕ
protocol_tcp = 6

abbrev pub protocol_udp : ℕ
protocol_udp = 17

abbrev pub pseudo_length : ℕ
pseudo_length = 12

-- `IPID`: the counter of packets after the call, and the identification that the call returns.
unfoldable pub ipid : ℕ → ℕ × ℕ
ipid global_ip_id = let next = u32 (global_ip_id + 1) in (next, next % 65536)

abbrev pub append_option : Ip4 → Ip4Option → Ip4
append_option ip opt = record ip { options = ip.options ++ (opt ∷ []) }

abbrev pub end_option : Ip4Option
end_option = record { option_type = 0; option_length = 1; option_data = [] }

abbrev pub padding_option : Ip4Option
padding_option = record { option_type = 1; option_length = 1; option_data = [] }

-- The `switch` of the option loop: the option at the front of `rest`, and the header after the
-- case of its type. Type 0 has already been appended once when the `break` leaves the switch.
unfoldable pub parse_option : Slice → Ip4 → Go (Ip4Option × Ip4)
parse_option rest ip = index rest 0 >>= λ t.
    if t == 0
    then (slice_from rest 1 >>= λ pad.
        ret (end_option, record (append_option ip end_option) { padding = pad.elems }))
    else if t == 1
    then ret (padding_option, ip)
    else (index rest 1 >>= λ l. slice rest 2 l >>= λ body.
        ret (record { option_type = t; option_length = l; option_data = body.elems }, ip))

-- `for len(rest) > 0`
unfoldable pub parse_options : ℕ → Slice → Ip4 → Go (Ip4 × Option Error)
unfolding parse_option
parse_options zero rest ip = hang
parse_options (suc fuel) rest ip =
    if length rest.elems == 0
    then ret (ip, none)
    else (parse_option rest ip >>= λ (opt, ip').
        if leb opt.option_length (length rest.elems)
        then (slice_from rest opt.option_length >>= λ rest'.
            parse_options fuel rest' (append_option ip' opt))
        else ret (ip', some ip_option_exceeds))

-- The fields at fixed places, which are read before any check.
unfoldable pub parse_fixed : Slice → Ip4 → Go Ip4
parse_fixed pkt ip = do
  flagsfrags ← uint16_at pkt 6
  first ← index pkt 0
  tos ← index pkt 1
  total ← uint16_at pkt 2
  id ← uint16_at pkt 4
  ttl ← index pkt 8
  proto ← index pkt 9
  sum ← uint16_at pkt 10
  src ← slice pkt 12 16
  dst ← slice pkt 16 20
  ret (record ip {
    version = first / 16;
    ihl = first % 16;
    tos = tos;
    total_length = total;
    id = id;
    flags = u8 (flagsfrags / 8192);
    frag_offset = flagsfrags % 8192;
    ttl = ttl;
    protocol = proto;
    checksum_field = sum;
    src_ip = src.elems;
    dst_ip = dst.elems;
  })

-- What follows the four checks.
unfoldable pub parse_variable : Slice → Ip4 → Go (Ip4 × Option Error)
unfolding parse_options
parse_variable pkt ip = do
  payload ← slice_from pkt (u8 (ip.ihl * 4))
  rest ← slice pkt 20 (u8 (ip.ihl * 4))
  parse_options (suc (length rest.elems)) rest (record ip { payload = payload })

unfoldable pub parse_ip4 : Slice → Ip4 → Go (Ip4 × Option Error)
parse_ip4 pkt ip0 = parse_fixed pkt ip0 >>= λ ip.
    if ltb ip.total_length 20
    then ret (ip, some ip_length_too_small)
    else if ltb ip.ihl 5
    then ret (ip, some ip_header_too_small)
    else if ltb ip.total_length (u8 (ip.ihl * 4))
    then ret (ip, some ip_header_exceeds_length)
    else if ltb (length pkt.elems) (ip.ihl * 4)
    then ret (ip, some ip_header_missing)
    else parse_variable pkt ip

-- `PseudoHeader`, on the twelve bytes that it is to fill in.
unfoldable pub pseudo_header : Ip4 → Bytes → ℕ → ℕ → Go (Bytes × Option Error)
pseudo_header ip buf proto data_len =
    if not (length buf == pseudo_length)
    then ret (buf, some buffer_size)
    else (copy_at buf 0 4 ip.src_ip >>= λ b1. copy_at b1 4 8 ip.dst_ip >>= λ b2.
        put b2 8 0 >>= λ b3.
        put b3 9 (u8 proto) >>= λ b4. put_uint16 b4 10 (u16 data_len) >>= λ b5. ret (b5, none))

-- The bytes that the options take, as a `uint8`.
unfoldable pub options_length : ℕ → List Ip4Option → ℕ
options_length n [] = n
options_length n (opt ∷ opts) =
    options_length
      (if opt.option_type == 0
        then u8 (n + 1)
        else if opt.option_type == 1
        then u8 (n + 1)
        else u8 (n + opt.option_length))
      opts

abbrev pub aligned : ℕ → ℕ
aligned n = if n % 4 == 0 then n else u8 (n + (4 - n % 4))

-- `HeaderLength`: the header with the length cached, and the length.
unfoldable pub header_length : Ip4 → Ip4 × ℕ
unfolding options_length
header_length ip =
    let n = aligned (options_length 0 ip.options) in
    if ip.header_len == 0
    then (record ip { ihl = u8 (5 + n / 4); header_len = n + 20 }, n + 20)
    else (ip, ip.header_len)

-- `flagsfrags`
unfoldable pub flagsfrags : Ip4 → ℕ
flagsfrags ip = bit_or (u16 (ip.flags * 8192)) ip.frag_offset

-- The loop of `Serialize` over the options.
unfoldable pub write_options : Bytes → ℕ → List Ip4Option → Go (Bytes × Option Error)
write_options hdr cur [] = ret (hdr, none)
write_options hdr cur (opt ∷ opts) =
    if opt.option_type == 0
    then (put hdr cur 0 >>= λ h. write_options h (cur + 1) opts)
    else if opt.option_type == 1
    then (put hdr cur 1 >>= λ h. write_options h (cur + 1) opts)
    else (put hdr cur opt.option_type >>= λ h1. put h1 (cur + 1) opt.option_length >>= λ h2.
        if ltb (u8 (opt.option_length + 254)) (length opt.option_data)
        then ret (h2, some option_data_exceeds)
        else (copy_at h2 (cur + 2) (cur + opt.option_length) opt.option_data >>= λ h3.
            write_options h3 (cur + opt.option_length) opts))

-- The writes of `Serialize` before the options.
unfoldable pub write_fixed : Ip4 → Bytes → Go Bytes
unfolding flagsfrags
write_fixed ip hdr = do
  h0 ← put hdr 0 (bit_or (u8 (ip.version * 16)) ip.ihl)
  h1 ← put h0 1 ip.tos
  h2 ← put_uint16 h1 2 ip.total_length
  h3 ← put_uint16 h2 4 ip.id
  h4 ← put_uint16 h3 6 (flagsfrags ip)
  h5 ← put h4 8 ip.ttl
  h6 ← put h5 9 (u8 ip.protocol)
  h7 ← copy_at h6 12 16 ip.src_ip
  copy_at h7 16 20 ip.dst_ip

-- The checksum over the header itself, with its own field 0.
unfoldable pub write_checksum : Ip4 → Bytes → Go (Bytes × Ip4 × Option Error)
write_checksum ip hdr = do
  h1 ← put hdr 10 0
  h2 ← put h1 11 0
  sum ← checksum (h2 ∷ [])
  h3 ← put_uint16 h2 10 sum
  ret (h3, record ip { checksum_field = sum }, none)

-- `Serialize` behind its check: the fields, the options, and the checksum if no option failed.
unfoldable pub fill_ip4 : Ip4 → Bytes → Go (Bytes × Ip4 × Option Error)
fill_ip4 ip hdr = write_fixed ip hdr >>= λ h. write_options h 20 ip.options >>= λ (h', e). elim e [
  | some err ↦ ret (h', ip, some err)
  | none ↦ write_checksum ip h'
]

-- `Serialize`: the bytes of `hdr` after it, the header and the error.
unfoldable pub serialize_ip4 : Ip4 → Bytes → ℕ → Go (Bytes × Ip4 × Option Error)
serialize_ip4 ip0 hdr data_len =
    let (ip1, n) = header_length ip0 in
    if not (length hdr == n)
    then ret (hdr, ip1, some buffer_size)
    else fill_ip4 (record ip1 { total_length = u16 (ip1.header_len + data_len) }) hdr
