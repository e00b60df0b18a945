-- ===== src/Packet/Tcp.antt =====
-- gotun2socks/packet/tcp.go: the TCP header, its parser and its serializer. `GetHostnameTls` (a
-- copy of another project) and `strings.TrimSpace` are the fields of `Names`.
pub mod Flags
pub mod Written
pub mod RoundTrip
pub mod Ends
use go_game_proxy.Prelude.{
  ℕ, zero, suc, ◌+◌, ◌-◌, ◌*◌, ◌/◌, ◌%◌, ◌^◌, Bool, true, false, not, ◌||◌, Option, none, some,
  List, [], ◌∷◌, ◌++◌, Bytes, ltb, leb, ◌==◌, if◌then◌else◌, u8, u16, u32, length, replicate,
}
use go_game_proxy.Packet.Checksum.{checksum}
use go_game_proxy.Packet.Http.{get_hostname_plain}
use go_game_proxy.Packet.Wire.{
  Go, ret, panic, hang, ◌>>=◌, Error, buffer_size, tcp_too_short, tcp_offset_too_small,
  tcp_offset_exceeds, tcp_option_too_short, tcp_option_exceeds, Slice, index, slice, slice_from,
  uint16_at, uint32_at, put, put_uint16, put_uint32, copy_at,
}

-- The code that finds host names: `none` is an error that it returns.
pub record Names : Type 0 where
  pub tls_hostname : Bytes → Go (Option Bytes)
  pub trim_space : Bytes → Bytes

pub record TcpOption : Type 0 where
  pub option_type : ℕ
  pub option_length : ℕ
  pub option_data : Bytes

pub record Tcp : Type 0 where
  pub src_port : ℕ
  pub dst_port : ℕ
  pub seq : ℕ
  pub ack : ℕ
  pub data_offset : ℕ
  pub fin : Bool
  pub syn : Bool
  pub rst : Bool
  pub psh : Bool
  pub ack_flag : Bool
  pub urg : Bool
  pub ece : Bool
  pub cwr : Bool
  pub ns : Bool
  pub window : ℕ
  pub checksum_field : ℕ
  pub urgent : ℕ
  pub options : List TcpOption
  pub padding : Bytes
  pub payload : Bytes
  pub hostname : Bytes
  pub header_len : ℕ

-- `NewTCP`, which zeroes the header that the pool hands out.
abbrev pub new_tcp : Tcp
new_tcp = record {
  src_port = 0;
  dst_port = 0;
  seq = 0;
  ack = 0;
  data_offset = 0;
  fin = false;
  syn = false;
  rst = false;
  psh = false;
  ack_flag = false;
  urg = false;
  ece = false;
  cwr = false;
  ns = false;
  window = 0;
  checksum_field = 0;
  urgent = 0;
  options = [];
  padding = [];
  payload = [];
  hostname = [];
  header_len = 0;
}

-- `ReleaseTCP`
abbrev pub release_tcp : Tcp → Tcp
release_tcp tcp = record tcp { options = []; padding = []; payload = [] }

-- `b & (1 << k) != 0`
abbrev pub test_bit : ℕ → ℕ → Bool
test_bit b k = b / 2 ^ k % 2 == 1

-- The fields at fixed places.
unfoldable pub parse_fixed : Slice → Tcp → Go Tcp
parse_fixed pkt tcp = do
  src ← uint16_at pkt 0
  dst ← uint16_at pkt 2
  seq ← uint32_at pkt 4
  ack ← uint32_at pkt 8
  b12 ← index pkt 12
  b13 ← index pkt 13
  window ← uint16_at pkt 14
  sum ← uint16_at pkt 16
  urgent ← uint16_at pkt 18
  ret (record tcp {
    src_port = src;
    dst_port = dst;
    seq = seq;
    ack = ack;
    data_offset = b12 / 16;
    fin = test_bit b13 0;
    syn = test_bit b13 1;
    rst = test_bit b13 2;
    psh = test_bit b13 3;
    ack_flag = test_bit b13 4;
    urg = test_bit b13 5;
    ece = test_bit b13 6;
    cwr = test_bit b13 7;
    ns = test_bit b12 0;
    window = window;
    checksum_field = sum;
    urgent = urgent;
    options = [];
  })

abbrev keep_hostname : Tcp → Option Bytes → Tcp
keep_hostname tcp none = tcp
keep_hostname tcp (some h) = record tcp { hostname = h }

-- The host name of a payload for port 443 or 80; a failed search leaves the old name.
unfoldable pub find_hostname : Names → Tcp → Go Tcp
find_hostname names tcp =
    if tcp.dst_port == 443
    then (names.tls_hostname tcp.payload >>= λ h. ret (keep_hostname tcp h))
    else if tcp.dst_port == 80
    then (get_hostname_plain names.trim_space tcp.payload >>= λ h. ret (keep_hostname tcp h))
    else ret tcp

abbrev pub append_option : Tcp → TcpOption → Tcp
append_option tcp opt = record tcp { options = tcp.options ++ (opt ∷ []) }

abbrev short_option : ℕ → TcpOption
short_option t = record { option_type = t; option_length = 1; option_data = [] }

-- The `switch` of the option loop: the length of the option and the header, or an error.
unfoldable pub parse_option : Slice → Tcp → Go (ℕ × Tcp × Option Error)
parse_option rest tcp = index rest 0 >>= λ t.
    if t == 0
    then (slice_from rest 1 >>= λ pad.
        ret (1, record (append_option tcp (short_option t)) { padding = pad.elems }, none))
    else if t == 1
    then ret (1, append_option tcp (short_option t), none)
    else (index rest 1 >>= λ l.
        if ltb l 2
        then ret (
          l,
          append_option tcp (record { option_type = t; option_length = l; option_data = [] }),
          some tcp_option_too_short,
        )
        else if ltb (length rest.elems) l
        then ret (
          l,
          append_option tcp (record { option_type = t; option_length = l; option_data = [] }),
          some tcp_option_exceeds,
        )
        else (slice rest 2 l >>= λ body. ret (
          l,
          append_option tcp
              (record { option_type = t; option_length = l; option_data = body.elems }),
          none,
        )))

-- `for len(rest) > 0`
unfoldable pub parse_options : ℕ → Slice → Tcp → Go (Tcp × Option Error)
parse_options zero rest tcp = hang
parse_options (suc fuel) rest tcp =
    if length rest.elems == 0
    then ret (record tcp { header_len = u8 (tcp.data_offset * 4) }, none)
    else (parse_option rest tcp >>= λ (l, tcp', e). elim e [
      | some err ↦ ret (tcp', some err)
      | none ↦ slice_from rest l >>= λ rest'. parse_options fuel rest' tcp'
    ])

-- What follows the checks of the data offset.
unfoldable pub parse_variable : Names → Slice → Tcp → Go (Tcp × Option Error)
parse_variable names pkt tcp = do
  payload ← slice_from pkt (tcp.data_offset * 4)
  named ← find_hostname names (record tcp { payload = payload.elems })
  rest ← slice pkt 20 (tcp.data_offset * 4)
  parse_options (suc (length rest.elems)) rest named

unfoldable pub parse_tcp : Names → Slice → Tcp → Go (Tcp × Option Error)
parse_tcp names pkt tcp0 =
    if ltb (length pkt.elems) 20
    then ret (tcp0, some tcp_too_short)
    else (parse_fixed pkt tcp0 >>= λ tcp.
        if ltb tcp.data_offset 5
        then ret (tcp, some tcp_offset_too_small)
        else if ltb (tcp.data_offset * 4) 20
        then ret (tcp, some tcp_offset_too_small)
        else if ltb (length pkt.elems) (tcp.data_offset * 4)
        then ret (tcp, some tcp_offset_exceeds)
        else parse_variable names pkt tcp)

abbrev is_short : TcpOption → Bool
is_short o = o.option_type == 0 || o.option_type == 1

unfoldable pub options_length : List TcpOption → ℕ
options_length [] = 0
options_length (o ∷ os) = (if is_short o then 1 else 2 + length o.option_data) + options_length os

-- `HeaderLength`: the header with its padding and length cached, and the length. The padding is
-- a slice of 1024 zeros.
unfoldable pub header_length : Tcp → Tcp × ℕ
unfolding options_length
header_length tcp =
    let n = options_length tcp.options in
    let total = n % 4 + n + 20 in
    if tcp.header_len == 0
    then (
      record tcp {
        padding = replicate (n % 4) 0;
        header_len = total;
        data_offset = u8 (total / 4);
      },
      total,
    )
    else (tcp, tcp.header_len)

abbrev pub bit : Bool → ℕ → ℕ
bit true k = k
bit false k = 0

-- The nine flags; the bits are disjoint, so `|` is a sum.
unfoldable pub flag_bits : Tcp → ℕ
flag_bits t =
    bit t.fin 0x0001
    + bit t.syn 0x0002
    + bit t.rst 0x0004
    + bit t.psh 0x0008
    + bit t.ack_flag 0x0010
    + bit t.urg 0x0020
    + bit t.ece 0x0040
    + bit t.cwr 0x0080
    + bit t.ns 0x0100

-- `flagsAndOffset`, whose shifted offset has its low twelve bits clear.
unfoldable pub flags_and_offset : Tcp → ℕ
unfolding flag_bits
flags_and_offset tcp = u16 (tcp.data_offset * 4096) + flag_bits tcp

-- The loop of `Serialize` over the options: the bytes, and where the padding goes.
unfoldable pub write_options : Bytes → ℕ → List TcpOption → Go (Bytes × ℕ)
write_options hdr start [] = ret (hdr, start)
write_options hdr start (o ∷ os) = put hdr start o.option_type >>= λ h.
    if is_short o
    then write_options h (start + 1) os
    else let len = u8 (length o.option_data + 2) in
      put h (start + 1) len >>= λ h1.
      copy_at h1 (start + 2) (start + length o.option_data + 2) o.option_data >>= λ h2.
      write_options h2 (start + len) os

unfoldable pub write_fixed : Tcp → Bytes → Go Bytes
write_fixed tcp hdr = do
  h1 ← put_uint16 hdr 0 tcp.src_port
  h2 ← put_uint16 h1 2 tcp.dst_port
  h3 ← put_uint32 h2 4 tcp.seq
  h4 ← put_uint32 h3 8 tcp.ack
  h5 ← put_uint16 h4 12 (flags_and_offset tcp)
  h6 ← put_uint16 h5 14 tcp.window
  put_uint16 h6 18 tcp.urgent

-- The checksum, with its own field 0. The summed fields may share the memory of the header, so
-- they are a function of its bytes.
unfoldable pub write_checksum : Tcp → (Bytes → List Bytes) → Bytes → Go (Bytes × Tcp × Option Error)
write_checksum tcp ck_fields hdr = do
  h1 ← put hdr 16 0
  h2 ← put h1 17 0
  sum ← checksum (ck_fields h2)
  h3 ← put_uint16 h2 16 sum
  ret (h3, record tcp { checksum_field = sum }, none)

unfoldable pub fill_tcp : Tcp → (Bytes → List Bytes) → Bytes → Go (Bytes × Tcp × Option Error)
fill_tcp tcp ck_fields hdr = write_fixed tcp hdr >>= λ h.
    write_options h 20 tcp.options >>= λ (h1, start).
    copy_at h1 start (length h1) tcp.padding >>= λ h2. write_checksum tcp ck_fields h2

-- `Serialize`
unfoldable pub serialize_tcp : Tcp → Bytes → (Bytes → List Bytes) → Go (Bytes × Tcp × Option Error)
serialize_tcp tcp0 hdr ck_fields =
    let (tcp, n) = header_length tcp0 in
    if not (n == length hdr) then ret (hdr, tcp, some buffer_size) else fill_tcp tcp ck_fields hdr
