-- ===== src/Packet/Http/Search.antt =====
-- What findStringInData finds.
use go_game_proxy.Prelude.{
  ℕ, zero, suc, ◌+◌, ◌-◌, ◌≤◌, ◌<◌, ◌≡◌, refl, ap₂, sym, subst, leb, leb→le, leb_false→lt, true,
  false, Bool-cases, inl, inr, Option, none, some, [], ◌∷◌, ◌++◌, Bytes, length, drop, arith, ◌==◌,
}
use go_game_proxy.Packet.Http.{starts_with, find_rounds, find_string}

-- `s` stands in `bytes` at the index `k`.
abbrev pub Stands : Bytes → Bytes → ℕ → Type 0
Stands bytes s k = (rest : Bytes) × (drop k bytes ≡ s ++ rest)

-- What a search from `start` below `stop` is to return: the first index at which `s` stands, or
-- nothing where there is none.
abbrev pub IsFirst : Bytes → Bytes → ℕ → ℕ → Option ℕ → Type 0
IsFirst bytes s start stop none = (j : ℕ) → start ≤ j → j < stop → ¬ Stands bytes s j
IsFirst bytes s start stop (some k) =
    (start ≤ k) × (k < stop) × Stands bytes s k × ((j : ℕ) → start ≤ j → j < k → ¬ Stands bytes s j)

starts_with-prefix : (s bs : Bytes) → starts_with s bs ≡ true → (rest : Bytes) × (bs ≡ s ++ rest)
unfolding starts_with
starts_with-prefix [] bs h = (bs, refl)
starts_with-prefix (c ∷ s) [] h = cc
starts_with-prefix (c ∷ s) (b ∷ bs) h =
    let (rest, e) = starts_with-prefix s bs (ground (arith, h)) in
    (rest, ap₂ (λ x xs. x ∷ xs) (ground (arith, h)) e)

starts_with-append : (s rest : Bytes) → starts_with s (s ++ rest) ≡ true
unfolding starts_with
starts_with-append [] rest = refl
starts_with-append (c ∷ s) rest = ground (arith, starts_with-append s rest)

misses : (bytes s : Bytes) (i : ℕ) → starts_with s (drop i bytes) ≡ false → ¬ Stands bytes s i
misses bytes s i f (rest, e) =
    let t : starts_with s (drop i bytes) ≡ true = rw e (starts_with-append s rest) in cc

find_rounds-IsFirst :
    (rounds i : ℕ) (bytes s : Bytes) → IsFirst bytes s i (i + rounds) (find_rounds rounds i bytes s)
unfolding find_rounds
find_rounds-IsFirst zero i bytes s = λ j a b st. absurd (omega (arith, a, b))
find_rounds-IsFirst (suc rounds) i bytes s = elim (Bool-cases (starts_with s (drop i bytes))) [
  | inl e ↦ rw e (
    omega arith,
    omega arith,
    starts_with-prefix s (drop i bytes) e,
    λ j a b st. absurd (omega (arith, a, b)),
  )
  | inr e ↦ rw e (
      later rounds i bytes s (misses bytes s i e) (find_rounds rounds (i + 1) bytes s)
        (find_rounds-IsFirst rounds (i + 1) bytes s))
]
  where
    from_next :
        (i : ℕ) (bytes s : Bytes)
        → ¬ Stands bytes s i
        → (j : ℕ) → i ≤ j
        → (i + 1 ≤ j → ¬ Stands bytes s j)
        → ¬ Stands bytes s j
    from_next i bytes s n j a f = elim (Bool-cases (j == i)) [
      | inl q ↦ subst (λ k. ¬ Stands bytes s k) (ground (arith, q)) n
      | inr q ↦ f (ground (arith, q, a))
    ]

    later :
        (rounds i : ℕ) (bytes s : Bytes)
        → ¬ Stands bytes s i
        → (o : Option ℕ) → IsFirst bytes s (i + 1) (i + 1 + rounds) o
        → IsFirst bytes s i (i + suc rounds) o
    later rounds i bytes s n none h =
        λ j a b. from_next i bytes s n j a (λ a'. h j a' (omega (arith, b)))
    later rounds i bytes s n (some k) h = (
      omega (arith, h.0),
      omega (arith, h.1),
      h.2,
      λ j a b. from_next i bytes s n j a (λ a'. h.3 j a' b),
    )

-- The search returns the first index from its start on, below the length of the data less that of
-- the string, at which the string stands; it returns nothing only if the string stands at none of
-- these indices. The last index at which the string could stand is not looked at.
pub find_string-IsFirst :
    (bytes s : Bytes) (start : ℕ)
    → IsFirst bytes s start (length bytes - length s) (find_string bytes s start)
unfolding find_string
find_string-IsFirst bytes s start = elim (Bool-cases (leb start (length bytes - length s))) [
  | inl b ↦
      let e : start + (length bytes - length s - start) ≡ length bytes - length s =
        omega (arith, leb→le start (length bytes - length s) b) in
      subst (λ stop. IsFirst bytes s start stop (find_string bytes s start)) e
        (find_rounds-IsFirst (length bytes - length s - start) start bytes s)
  | inr b ↦
      let far = leb_false→lt start (length bytes - length s) b in
      let e : length bytes - length s - start ≡ 0 = omega (arith, far) in
      subst
        (λ rounds.
          IsFirst bytes s start (length bytes - length s) (find_rounds rounds start bytes s))
        (sym e) (λ j a c st. absurd (omega (arith, far, a, c)))
]
