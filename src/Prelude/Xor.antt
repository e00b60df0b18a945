-- ===== src/Prelude/Xor.antt =====
-- `^` takes back what it has done, at every width.
use Prim.Native.Nat.{ℕ, zero, suc, ◌+◌, ◌*◌, ◌/◌, ◌%◌, ◌≤◌, ◌<◌, bit_xor}
use Prim.Native.Nat.{digits, differ, bit_xor-bitwise}
use mathlib.Core.Path.{◌≡◌, refl, sym, ◌∙◌, ap}
use native.Mathlib.Decide.{dec_le}
use native.Mathlib.Omega.{arith}

-- `bit_xor` runs over the binary digits of its first argument, with fuel.
abbrev xor_fuel : ℕ → ℕ → ℕ → ℕ
xor_fuel = digits (λ y. y) differ

one_more : (n a b : ℕ) → a ≤ n → xor_fuel (suc n) a b ≡ xor_fuel n a b
one_more zero zero b h = refl
one_more zero (suc a) b h = absurd (omega arith)
one_more (suc n) zero b h = refl
one_more (suc n) (suc a) b h = rw (one_more n (suc a / 2) (b / 2) (omega arith))

enough_fuel : (n a b : ℕ) → a ≤ n → xor_fuel n a b ≡ bit_xor a b
enough_fuel zero zero b h = simp bit_xor-bitwise
enough_fuel zero (suc a) b h = absurd (omega arith)
enough_fuel (suc n) a b h = elim (dec_le a n) [
  | yes p ↦ one_more n a b p ∙ enough_fuel n a b p
  | no p ↦ let e : a ≡ suc n = omega arith in rw e (simp bit_xor-bitwise)
]

differ-sum : (a b : ℕ) → a < 2 → b < 2 → differ a b ≡ (a + b) % 2
differ-sum zero b h k = omega arith
differ-sum (suc zero) zero h k = omega arith
differ-sum (suc zero) (suc zero) h k = omega arith
differ-sum (suc zero) (suc (suc b)) h k = absurd (omega arith)
differ-sum (suc (suc a)) b h k = absurd (omega arith)

-- The lowest digit, and the digits above it.
bit_xor-digit : (a b : ℕ) → bit_xor a b ≡ bit_xor (a / 2) (b / 2) * 2 + (a + b) % 2
bit_xor-digit zero b = simp bit_xor-bitwise (omega arith)
bit_xor-digit (suc a) b = omega (
  arith,
  enough_fuel (suc a) (suc a) b (omega arith),
  enough_fuel a (suc a / 2) (b / 2) (omega arith),
  differ-sum (suc a % 2) (b % 2) (omega arith) (omega arith),
)

twice_fuel : (n b x r : ℕ) → b + x + r ≤ n → bit_xor (bit_xor (bit_xor (bit_xor b x) r) x) r ≡ b
twice_fuel zero zero zero zero h = simp bit_xor-bitwise
twice_fuel zero (suc b) x r h = absurd (omega arith)
twice_fuel zero zero (suc x) r h = absurd (omega arith)
twice_fuel zero zero zero (suc r) h = absurd (omega arith)
twice_fuel (suc n) b x r h =
    let one = bit_xor b x in
    let two = bit_xor one r in
    let three = bit_xor two x in
    let half : one / 2 ≡ bit_xor (b / 2) (x / 2) = omega (arith, bit_xor-digit b x) in
    let half2 : two / 2 ≡ bit_xor (bit_xor (b / 2) (x / 2)) (r / 2) =
      rw (sym half) (omega (arith, bit_xor-digit one r)) in
    let half3 : three / 2 ≡ bit_xor (bit_xor (bit_xor (b / 2) (x / 2)) (r / 2)) (x / 2) =
      rw (sym half2) (omega (arith, bit_xor-digit two x)) in
    let whole : bit_xor (three / 2) (r / 2) ≡ b / 2 =
      rw half3 (twice_fuel n (b / 2) (x / 2) (r / 2) (omega arith)) in
    omega (
      arith,
      whole,
      bit_xor-digit three r,
      bit_xor-digit two x,
      bit_xor-digit one r,
      bit_xor-digit b x,
    )

-- Two keys are taken off by the same two keys.
pub bit_xor-twice : (b x r : ℕ) → bit_xor (bit_xor (bit_xor (bit_xor b x) r) x) r ≡ b
bit_xor-twice b x r = twice_fuel (b + x + r) b x r (omega arith)

zero_fuel : (n a : ℕ) → a ≤ n → bit_xor a 0 ≡ a
zero_fuel n zero h = simp bit_xor-bitwise
zero_fuel zero (suc a) h = absurd (omega arith)
zero_fuel (suc n) (suc a) h =
    omega (arith, bit_xor-digit (suc a) 0, zero_fuel n (suc a / 2) (omega arith))

pub bit_xor_zero : (a : ℕ) → bit_xor a 0 ≡ a
bit_xor_zero a = zero_fuel a a (omega arith)

-- A key is taken off by the same key.
pub bit_xor_undo : (b x : ℕ) → bit_xor (bit_xor b x) x ≡ b
bit_xor_undo b x =
    let one = bit_xor b x in
    sym (bit_xor_zero (bit_xor one x))
    ∙ ap (λ k. bit_xor (bit_xor k x) 0) (sym (bit_xor_zero one))
    ∙ bit_xor-twice b x 0
