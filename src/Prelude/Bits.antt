-- ===== src/Prelude/Bits.antt =====
-- `|` of two fields that share no bit is their sum, at every width.
use Prim.Native.Nat.{ℕ, zero, suc, ◌+◌, ◌*◌, ◌/◌, ◌%◌, ◌^◌, ◌≤◌, ◌<◌, max, bit_or}
use Prim.Native.Nat.{digits, bit_or-bitwise}
use mathlib.Core.Path.{◌≡◌, refl, ◌∙◌, ap}
use native.Mathlib.Decide.{dec_le}
use native.Mathlib.Nat.{pow-suc}
use native.Mathlib.Omega.{arith}

-- `bit_or` runs over the binary digits of its first argument, with fuel.
abbrev or_fuel : ℕ → ℕ → ℕ → ℕ
or_fuel = digits (λ y. y) max

one_more : (n a b : ℕ) → a ≤ n → or_fuel (suc n) a b ≡ or_fuel n a b
one_more zero zero b h = refl
one_more zero (suc a) b h = absurd (omega arith)
one_more (suc n) zero b h = refl
one_more (suc n) (suc a) b h = rw (one_more n (suc a / 2) (b / 2) (omega arith))

enough_fuel : (n a b : ℕ) → a ≤ n → or_fuel n a b ≡ bit_or a b
enough_fuel zero zero b h = simp bit_or-bitwise
enough_fuel zero (suc a) b h = absurd (omega arith)
enough_fuel (suc n) a b h = elim (dec_le a n) [
  | yes p ↦ one_more n a b p ∙ enough_fuel n a b p
  | no p ↦ let e : a ≡ suc n = omega arith in rw e (simp bit_or-bitwise)
]

-- The lowest digit, and the digits above it.
bit_or-digit : (a b : ℕ) → bit_or a b ≡ bit_or (a / 2) (b / 2) * 2 + max (a % 2) (b % 2)
bit_or-digit zero b = simp bit_or-bitwise (omega arith)
bit_or-digit (suc a) b = omega (
  arith,
  enough_fuel (suc a) (suc a) b (omega arith),
  enough_fuel a (suc a / 2) (b / 2) (omega arith),
)

bit_or-zero_fuel : (n a : ℕ) → a ≤ n → bit_or a 0 ≡ a
bit_or-zero_fuel n zero h = simp bit_or-bitwise
bit_or-zero_fuel zero (suc a) h = absurd (omega arith)
bit_or-zero_fuel (suc n) (suc a) h =
    omega (arith, bit_or-digit (suc a) 0, bit_or-zero_fuel n (suc a / 2) (omega arith))

double : (q k : ℕ) → q * 2 ^ suc k ≡ 2 * (q * 2 ^ k)
double q k = omega (arith, ap (λ (t : ℕ). q * t) (pow-suc 2 k))

-- `(q << k) | r` where `r` fits `k` bits.
pub bit_or_add : (k q r : ℕ) → r < 2 ^ k → bit_or (q * 2 ^ k) r ≡ q * 2 ^ k + r
bit_or_add zero q r h = ground (arith, bit_or-zero_fuel q q (omega arith))
bit_or_add (suc k) q r h =
    let rest = bit_or_add k q (r / 2) (omega (arith, pow-suc 2 k)) in
    ground (arith, bit_or-digit (q * 2 ^ suc k) r, double q k, rest)
