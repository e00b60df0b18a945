-- ===== src/Packet/Wire/Ends.antt =====
-- Calls that end: they return or panic.
use go_game_proxy.Prelude.{
  ℕ, zero, suc, ◌+◌, ◌-◌, ◌≡◌, ◌≢◌, refl, Option, none, some, Bool, true, false, [], ◌∷◌, Bytes,
  length, arith, if◌then◌else◌, leb, ◌++◌,
}
use go_game_proxy.Packet.Wire.{
  Go, ret, panic, hang, ◌>>=◌, Slice, split_at, or_panic, cut_at, cut, index, slice, slice_from,
  uint16_at, uint32_at,
}

abbrev pub Ends {ℓ} : {A : Type ℓ} → Go A → Type ℓ
Ends m = m ≢ hang

pub Ends-ret {ℓ} : {A : Type ℓ} (a : A) → Ends (ret a)
Ends-ret a h = cc

pub Ends-panic {ℓ} : {A : Type ℓ} → Ends {A = A} panic
Ends-panic h = cc

pub Ends-or_panic {ℓ} : {A : Type ℓ} (o : Option A) → Ends (or_panic o)
Ends-or_panic none h = cc
Ends-or_panic (some a) h = cc

pub Ends-bind {ℓ κ} :
    {A : Type ℓ} {B : Type κ} (m : Go A) (f : A → Go B)
    → Ends m
    → ((a : A) → m ≡ ret a → Ends (f a))
    → Ends (m >>= f)
Ends-bind (ret a) f e h = h a refl
Ends-bind panic f e h = λ p. cc
Ends-bind hang f e h = absurd (e refl)

pub Ends-if {ℓ} :
    {A : Type ℓ} (b : Bool) (x y : Go A)
    → (b ≡ true → Ends x)
    → (b ≡ false → Ends y)
    → Ends (if b then x else y)
Ends-if true x y h k = h refl
Ends-if false x y h k = k refl

pub Ends-cut_at : (i j : ℕ) (bs : Bytes) → Ends (cut_at i j bs)
Ends-cut_at i j bs = Ends-bind (or_panic (split_at i bs)) _ (Ends-or_panic _) λ front _.
    Ends-bind (or_panic (split_at (j - i) front.1)) _ (Ends-or_panic _) λ back _. Ends-ret _

pub Ends-slice : (s : Slice) (i j : ℕ) → Ends (slice s i j)
Ends-slice s i j =
    Ends-bind (if leb i j then cut_at i j (s.elems ++ s.spare) else panic) _
      (Ends-if (leb i j) _ _ (λ _. Ends-cut_at i j _) (λ _. Ends-panic)) λ cut _. Ends-ret _

pub Ends-cut_bytes : (bs : Bytes) (i j : ℕ) → Ends (cut bs i j)
Ends-cut_bytes bs i j =
    Ends-bind (if leb i j then cut_at i j bs else panic) _
      (Ends-if (leb i j) _ _ (λ _. Ends-cut_at i j bs) (λ _. Ends-panic)) λ _ _. Ends-ret _

pub Ends-slice_from : (s : Slice) (i : ℕ) → Ends (slice_from s i)
Ends-slice_from s i =
    Ends-bind (or_panic (split_at i s.elems)) _ (Ends-or_panic _) λ cut _. Ends-ret _

pub Ends-uint16_at : (s : Slice) (i : ℕ) → Ends (uint16_at s i)
Ends-uint16_at s i = Ends-bind (slice s i (i + 2)) _ (Ends-slice s i (i + 2)) λ w _.
    Ends-bind (index w 0) _ (Ends-or_panic _)
      λ hi _. Ends-bind (index w 1) _ (Ends-or_panic _) λ lo _. Ends-ret _

split_at-suc :
    (o : Option (Bytes × Bytes)) (b : ℕ) (cut : Bytes × Bytes)
    → elim o [ none ↦ none | some (pre, post) ↦ some (b ∷ pre, post) ] ≡ some cut
    → (c : Bytes × Bytes) × (o ≡ some c) × (cut.1 ≡ c.1)
split_at-suc none b cut h = cc
split_at-suc (some c) b cut h = (c, refl, ground arith)

pub split_at-length :
    (n : ℕ) (bs : Bytes) {cut : Bytes × Bytes}
    → split_at n bs ≡ some cut
    → length cut.1 + n ≡ length bs
split_at-length zero bs h = ground arith
split_at-length (suc n) [] h = cc
split_at-length (suc n) (b ∷ bs) {cut} h =
    let (c, e, f) = split_at-suc (split_at n bs) b cut h in
    rw f (omega (arith, split_at-length n bs e))

or_panic-eq-ret {ℓ} : {A : Type ℓ} (o : Option A) {a : A} → or_panic o ≡ ret a → o ≡ some a
or_panic-eq-ret none h = cc
or_panic-eq-ret (some a) h = ground arith

pub bind-eq-ret {ℓ κ} :
    {A : Type ℓ} {B : Type κ} (m : Go A) (f : A → Go B) {b : B}
    → m >>= f ≡ ret b
    → (a : A) × (m ≡ ret a) × (f a ≡ ret b)
bind-eq-ret (ret a) f h = (a, refl, h)
bind-eq-ret panic f h = cc
bind-eq-ret hang f h = cc

pub slice_from-length :
    (s : Slice) (i : ℕ) {t : Slice} → slice_from s i ≡ ret t → length t.elems + i ≡ length s.elems
slice_from-length s i h =
    let (cut, e, f) = bind-eq-ret (or_panic (split_at i s.elems)) _ h in
    ground (arith, split_at-length i s.elems (or_panic-eq-ret _ e))

pub Ends-elim {ℓ κ} :
    {A : Type ℓ} {B : Type κ} (o : Option A) (n : Go B) (f : A → Go B)
    → (o ≡ none → Ends n)
    → ((a : A) → o ≡ some a → Ends (f a))
    → Ends (elim o [ none ↦ n | some a ↦ f a ])
Ends-elim none n f h k = h refl
Ends-elim (some a) n f h k = k a refl

pub Ends-uint32_at : (s : Slice) (i : ℕ) → Ends (uint32_at s i)
Ends-uint32_at s i = Ends-bind (slice s i (i + 4)) _ (Ends-slice s i (i + 4)) λ w _.
    Ends-bind (index w 0) _ (Ends-or_panic _) λ _ _.
      Ends-bind (index w 1) _ (Ends-or_panic _) λ _ _.
        Ends-bind (index w 2) _ (Ends-or_panic _)
          λ _ _. Ends-bind (index w 3) _ (Ends-or_panic _) λ _ _. Ends-ret _
