-- ===== src/Packet/Tcp/Flags.antt =====
-- The flags of the TCP header, packed into two bytes and unpacked.
use go_game_proxy.Prelude.{
  ℕ, ◌+◌, ◌*◌, ◌/◌, ◌%◌, ◌<◌, ◌≤◌, ◌≡◌, refl, Bool, true, false, arith, u8, ◌==◌,
}
use go_game_proxy.Packet.Tcp.{Tcp, bit, flag_bits, flags_and_offset, test_bit}

abbrev pub value : Bool → ℕ
value b = bit b 1

value-le : (b : Bool) → value b ≤ 1
value-le true = omega arith
value-le false = omega arith

value_test : (b : Bool) → (value b == 1) ≡ b
value_test true = refl
value_test false = refl

bit-value : (b : Bool) (k : ℕ) → bit b k ≡ value b * k
bit-value true k = omega arith
bit-value false k = omega arith

-- Byte 13 without the flags of byte 12.
abbrev pub low_flags : Tcp → ℕ
low_flags t =
    value t.fin
    + value t.syn * 2
    + value t.rst * 4
    + value t.psh * 8
    + value t.ack_flag * 16
    + value t.urg * 32
    + value t.ece * 64
    + value t.cwr * 128

flag_bits-value : (t : Tcp) → flag_bits t ≡ low_flags t + value t.ns * 256
unfolding flag_bits
flag_bits-value t = omega (
  arith,
  bit-value t.fin 1,
  bit-value t.syn 2,
  bit-value t.rst 4,
  bit-value t.psh 8,
  bit-value t.ack_flag 16,
  bit-value t.urg 32,
  bit-value t.ece 64,
  bit-value t.cwr 128,
  bit-value t.ns 256,
)

pub low_flags-lt : (t : Tcp) → low_flags t < 256
low_flags-lt t = omega (
  arith,
  value-le t.fin,
  value-le t.syn,
  value-le t.rst,
  value-le t.psh,
  value-le t.ack_flag,
  value-le t.urg,
  value-le t.ece,
  value-le t.cwr,
)

pub value_ns-le : (t : Tcp) → value t.ns ≤ 1
value_ns-le t = value-le t.ns

pub flags_and_offset-bytes :
    (t : Tcp)
    → t.data_offset < 16
    → (u8 (flags_and_offset t / 256) ≡ t.data_offset * 16 + value t.ns)
      × (u8 (flags_and_offset t) ≡ low_flags t)
unfolding flags_and_offset
flags_and_offset-bytes t h = (
  omega (arith, flag_bits-value t, low_flags-lt t, value-le t.ns),
  omega (arith, flag_bits-value t, low_flags-lt t, value-le t.ns),
)

-- Nine numbers below 2 come back from the digits of their sum.
module _ (t : Tcp) where
  digit_at :
      (low_flags t / 1 % 2 ≡ value t.fin)
      × (low_flags t / 2 % 2 ≡ value t.syn)
      × (low_flags t / 4 % 2 ≡ value t.rst)
      × (low_flags t / 8 % 2 ≡ value t.psh)
      × (low_flags t / 16 % 2 ≡ value t.ack_flag)
      × (low_flags t / 32 % 2 ≡ value t.urg)
      × (low_flags t / 64 % 2 ≡ value t.ece)
      × (low_flags t / 128 % 2 ≡ value t.cwr)
  digit_at =
      let a = value-le t.fin in
      let b = value-le t.syn in
      let c = value-le t.rst in
      let d = value-le t.psh in
      let e = value-le t.ack_flag in
      let f = value-le t.urg in
      let g = value-le t.ece in
      let h = value-le t.cwr in
      (
        omega arith,
        omega arith,
        omega arith,
        omega arith,
        omega arith,
        omega arith,
        omega arith,
        omega arith,
      )

  -- Each flag is read back from its bit of byte 13.
  pub low_flags_test :
      (test_bit (low_flags t) 0 ≡ t.fin)
      × (test_bit (low_flags t) 1 ≡ t.syn)
      × (test_bit (low_flags t) 2 ≡ t.rst)
      × (test_bit (low_flags t) 3 ≡ t.psh)
      × (test_bit (low_flags t) 4 ≡ t.ack_flag)
      × (test_bit (low_flags t) 5 ≡ t.urg)
      × (test_bit (low_flags t) 6 ≡ t.ece)
      × (test_bit (low_flags t) 7 ≡ t.cwr)
  low_flags_test =
      let (d0, d1, d2, d3, d4, d5, d6, d7) = digit_at in
      (
        rw d0 (value_test t.fin),
        rw d1 (value_test t.syn),
        rw d2 (value_test t.rst),
        rw d3 (value_test t.psh),
        rw d4 (value_test t.ack_flag),
        rw d5 (value_test t.urg),
        rw d6 (value_test t.ece),
        rw d7 (value_test t.cwr),
      )

  -- And the ninth from byte 12, which it shares with the data offset.
  pub ns_test : (off : ℕ) → test_bit (off * 16 + value t.ns) 0 ≡ t.ns
  ns_test off =
      let e : (off * 16 + value t.ns) / 1 % 2 ≡ value t.ns = omega (arith, value-le t.ns) in
      rw e (value_test t.ns)
