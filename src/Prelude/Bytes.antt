-- ===== src/Prelude/Bytes.antt =====
-- Equality of byte strings, for the keys of maps.
use go_game_proxy.Prelude.{
  List, ◌++◌, append-nil, append_assoc, ap, sym, ◌∙◌, ◌==◌, Bool, true, false, ◌&&◌, [], ◌∷◌, Bytes,
  ◌≡◌, refl, ap₂, arith,
}

unfoldable pub same_bytes : Bytes → Bytes → Bool
same_bytes [] [] = true
same_bytes [] (b ∷ bs) = false
same_bytes (a ∷ rest) [] = false
same_bytes (a ∷ rest) (b ∷ bs) = (a == b) && same_bytes rest bs

pub same_bytes→≡ : (a b : Bytes) → same_bytes a b ≡ true → a ≡ b
unfolding same_bytes
same_bytes→≡ [] [] h = refl
same_bytes→≡ [] (y ∷ b) h = ground arith
same_bytes→≡ (x ∷ a) [] h = ground arith
same_bytes→≡ (x ∷ a) (y ∷ b) h =
    let p : x ≡ y = ground (arith, h) in
    let q : same_bytes a b ≡ true = ground (arith, h) in ap₂ (λ z zs. z ∷ zs) p (same_bytes→≡ a b q)

pub same_bytes_refl : (a : Bytes) → same_bytes a a ≡ true
unfolding same_bytes
same_bytes_refl [] = refl
same_bytes_refl (x ∷ a) = ground (arith, same_bytes_refl a)

-- The pieces of a stream, one behind the other.
abbrev pub joined : List Bytes → Bytes
joined [] = []
joined (b ∷ bs) = b ++ joined bs

pub joined-append_one : (bs : List Bytes) (b : Bytes) → joined (bs ++ (b ∷ [])) ≡ joined bs ++ b
joined-append_one [] b = append-nil b
joined-append_one (x ∷ bs) b =
    ap (◌++◌ x) (joined-append_one bs b) ∙ sym (append_assoc x (joined bs) b)
