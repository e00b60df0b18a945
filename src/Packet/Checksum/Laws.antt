-- ===== src/Packet/Checksum/Laws.antt =====
-- The checksum against ones-complement arithmetic.
use go_game_proxy.Prelude.{
  ℕ, suc, ◌+◌, ◌-◌, ◌*◌, ◌/◌, ◌%◌, ◌≤◌, ◌<◌, ◌≡◌, List, [], ◌∷◌, ◌++◌, Bytes, if◌then◌else◌, u32,
  arith, All, length, ◌==◌, append-nil,
}
use go_game_proxy.Prelude.Bytes.{joined}
use go_game_proxy.Packet.Wire.{ret}
use go_game_proxy.Packet.Checksum.{sum_field, sum_fields, fold_carry, fold_fuel, checksum}

-- The sum of the 16-bit words of a message, an odd last byte padded by a zero.
abbrev pub word_sum : Bytes → ℕ
word_sum [] = 0
word_sum (a ∷ []) = a * 256
word_sum (a ∷ b ∷ rest) = a * 256 + b + word_sum rest

-- The value of a ones-complement sum: 0 only if every word is 0.
abbrev pub ones_sum : ℕ → ℕ
ones_sum s = if s == 0 then 0 else (s - 1) % 65535 + 1

pub sum_field-word_sum :
    (f : Bytes) (c : ℕ) → c + word_sum f < 4294967296 → sum_field c f ≡ c + word_sum f
unfolding sum_field
sum_field-word_sum [] c h = omega arith
sum_field-word_sum (a ∷ []) c h = omega arith
sum_field-word_sum (a ∷ b ∷ rest) c h =
    let step : u32 (u32 (c + a * 256) + b) ≡ c + a * 256 + b = omega arith in
    rw step (omega (arith, sum_field-word_sum rest (c + a * 256 + b) (omega arith)))

fold_stop : (fuel s : ℕ) → s ≤ 65535 → fold_carry (suc fuel) s ≡ ret s
unfolding fold_carry
fold_stop fuel s h = ground arith

fold_step :
    (fuel s : ℕ)
    → 65535 < s
    → s < 4294967296
    → fold_carry (suc fuel) s ≡ fold_carry fuel (s / 65536 + s % 65536)
unfolding fold_carry
fold_step fuel s h k = ground arith

-- The folding loop ends within its fuel, at the ones-complement value of the sum.
pub fold_carry-ones_sum : (s : ℕ) → s < 4294967296 → fold_carry fold_fuel s ≡ ret (ones_sum s)
unfolding fold_carry
fold_carry-ones_sum s h = ground arith

-- Every field has an even number of bytes, but for the last.
abbrev pub IsEvenButLast : List Bytes → Type 0
IsEvenButLast [] = Unit
IsEvenButLast (f ∷ []) = Unit
IsEvenButLast (f ∷ g ∷ fs) = (length f % 2 ≡ 0) × IsEvenButLast (g ∷ fs)

pub word_sum-append : (f g : Bytes) → length f % 2 ≡ 0 → word_sum (f ++ g) ≡ word_sum f + word_sum g
word_sum-append [] g h = omega arith
word_sum-append (a ∷ []) g h = absurd (omega arith)
word_sum-append (a ∷ b ∷ f) g h = omega (arith, word_sum-append f g (omega arith))

sum_fields-word_sum :
    (fs : List Bytes) (c : ℕ)
    → IsEvenButLast fs
    → c + word_sum (joined fs) < 4294967296
    → sum_fields c fs ≡ c + word_sum (joined fs)
unfolding sum_fields
sum_fields-word_sum [] c e h = omega arith
sum_fields-word_sum (f ∷ []) c e h = rw append-nil (sum_field-word_sum f c (rw append-nil at h))
sum_fields-word_sum (f ∷ g ∷ fs) c e h =
    let s = word_sum-append f (joined (g ∷ fs)) e.0 in
    rw (sum_field-word_sum f c (omega arith))
      (omega (arith, sum_fields-word_sum (g ∷ fs) (c + word_sum f) e.1 (omega arith)))

-- The checksum is the complement of the ones-complement sum of the words of all fields.
pub checksum-ones_sum :
    (fs : List Bytes)
    → IsEvenButLast fs
    → word_sum (joined fs) < 4294967296
    → checksum fs ≡ ret (65535 - ones_sum (word_sum (joined fs)))
unfolding checksum
checksum-ones_sum fs e h =
    rw (sum_fields-word_sum fs 0 e (omega arith))
      (rw (fold_carry-ones_sum (0 + word_sum (joined fs)) (omega arith)) (ground arith))

-- A message whose checksum field, 0 before, holds the complement of its sum, sums to zero.
pub complement_cancels : (s : ℕ) → 65535 - ones_sum (s + (65535 - ones_sum s)) ≡ 0
complement_cancels s = ground arith

pub complement-lt : (s : ℕ) → 65535 - ones_sum s < 65536
complement-lt s = ground arith

pub checksum_one :
    (f : Bytes) → word_sum f < 4294967296 → checksum (f ∷ []) ≡ ret (65535 - ones_sum (word_sum f))
checksum_one f h = rw append-nil at (checksum-ones_sum (f ∷ []) tt (rw append-nil h))

abbrev pub IsByte : ℕ → Type 0
IsByte b = b < 256

pub word_sum-le : (f : Bytes) → All IsByte f → word_sum f ≤ 65535 * length f
word_sum-le [] h = omega arith
word_sum-le (a ∷ []) h = omega arith
word_sum-le (a ∷ b ∷ f) h = omega (arith, word_sum-le f h.1.1)
