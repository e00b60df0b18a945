-- ===== src/Tun/Pack/Window.antt =====
-- A write through a slice of a buffer: bytes `[i, j)` are replaced, the others stay.
use go_game_proxy.Prelude.{
  ℕ, ◌+◌, ◌-◌, ◌≡◌, refl, some, true, [], ◌∷◌, ◌++◌, Bytes, length, leb, le→leb, if◌then◌else◌,
  arith,
}
use go_game_proxy.Packet.Wire.{Go, ret, panic, ◌>>=◌, cut_at, split_at}

abbrev pub window {ℓ} :
    {A : Type ℓ} → Bytes → ℕ → ℕ → (Bytes → Bytes → Bytes → Go (Bytes × A)) → Go (Bytes × A)
window buf i j f = (if leb i j then cut_at i j buf else panic) >>= λ c.
    f c.0 c.1 c.2 >>= λ r. ret (c.0 ++ (r.0 ++ c.2), r.1)

pub split_at-append : (a b : Bytes) → split_at (length a) (a ++ b) ≡ some (a, b)
split_at-append [] b = refl
split_at-append (x ∷ a) b = rw (split_at-append a b)

pub cut_at-append :
    (i j : ℕ) (a b c : Bytes)
    → length a ≡ i
    → i + length b ≡ j
    → (if leb i j then cut_at i j (a ++ (b ++ c)) else panic) ≡ ret (a, b, c)
cut_at-append i j a b c e f =
    let l : leb i j ≡ true = le→leb i j (omega arith) in
    let d : j - i ≡ length b = omega arith in
    rw (l, d, ← e, split_at-append a (b ++ c), split_at-append b c)

pub window-append {ℓ} :
    {A : Type ℓ} (i j : ℕ) (a b c b' : Bytes) (f : Bytes → Bytes → Bytes → Go (Bytes × A)) (r : A)
    → length a ≡ i
    → i + length b ≡ j
    → f a b c ≡ ret (b', r)
    → window (a ++ (b ++ c)) i j f ≡ ret (a ++ (b' ++ c), r)
window-append i j a b c b' f r e g h = rw (cut_at-append i j a b c e g) (rw h)
