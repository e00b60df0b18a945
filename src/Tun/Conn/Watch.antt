-- ===== src/Tun/Conn/Watch.antt =====
-- Monitors of what a connection does: a state that each effect advances or refuses.
use go_game_proxy.Prelude.{
  Option, none, some, List, [], ◌∷◌, ◌++◌, ◌≡◌, sym, ap, subst, ◌∙◌, arith, Option-cases, inl, inr,
}
use go_game_proxy.Packet.Wire.{ret}
use go_game_proxy.Packet.Wire.Ends.{bind-eq-ret}
use go_game_proxy.Tun.Conn.{Effect}
use go_game_proxy.Tun.Conn.Handlers.{Proxies}
use go_game_proxy.Tun.Conn.Run.{Loop, Turn, Move, move, runs}

-- The monitor behind the effects, or `none` where it refuses one.
unfoldable pub watch {ℓ} : {S : Type ℓ} → (S → Effect → Option S) → S → List Effect → Option S
watch next s [] = some s
watch next s (e ∷ es) = elim (next s e) [ none ↦ none | some s1 ↦ watch next s1 es ]

pub watch-append {ℓ} :
    {S : Type ℓ} (next : S → Effect → Option S) (s : S) (a b : List Effect) {s1 : S}
    → watch next s a ≡ some s1
    → watch next s (a ++ b) ≡ watch next s1 b
unfolding watch
watch-append next s [] b h = cc
watch-append next s (e ∷ a) b h = elim (Option-cases (next s e)) [
  | inl p ↦ absurd (ground (arith, p, h))
  | inr (s2, p) ↦ rw p (
      watch-append next s2 a b
        (ap (λ o. elim o [ none ↦ none | some s3 ↦ watch next s3 a ]) (sym p) ∙ h))
]

-- The monitor accepts, and stands as `R` says to the loop that goes on.
abbrev pub Follows {ℓ} : {S : Type ℓ} → (Loop → S → Type 0) → Option S → Option Loop → Type 0
Follows R none l = ⊥
Follows R (some s) none = Unit
Follows R (some s) (some l) = R l s

module _ {ℓ} {S : Type ℓ} (next : S → Effect → Option S) (R : Loop → S → Type 0)
    (k : (t2s : Proxies) (m : Move) (l : Loop) (s : S) (t : Turn)
      → R l s
      → move t2s m l ≡ ret t
      → Follows R (watch next s t.effects) t.next) where
  -- What each move keeps, the runs keep.
  pub runs-Follows :
      (t2s : Proxies) (ms : List Move) (l : Option Loop) (s : S) {u : Turn}
      → Follows R (some s) l
      → runs t2s ms l ≡ ret u
      → Follows R (watch next s u.effects) u.next
  unfolding runs watch
  runs-Follows t2s [] l s {u} r h =
      subst (λ v. Follows R (watch next s v.effects) v.next)
        (let p : record { effects = []; next = l } ≡ u = cc in p) r
  runs-Follows t2s (m ∷ ms) none s {u} r h =
      subst (λ v. Follows R (watch next s v.effects) v.next)
        (let p : record { effects = []; next = none } ≡ u = cc in p) tt
  runs-Follows t2s (m ∷ ms) (some l) s {u} r h =
      let (t, e, f) = bind-eq-ret (move t2s m l) _ h in
      let (v, e2, f2) = bind-eq-ret (runs t2s ms t.next) _ f in
      let p : record { effects = t.effects ++ v.effects; next = v.next } ≡ u = cc in
      elim (Option-cases (watch next s t.effects)) [
        | inl q ↦ absurd (subst (λ o. Follows R o t.next) q (k t2s m l s t r e))
        | inr (s1, q) ↦
            subst (λ w. Follows R (watch next s w.effects) w.next) p
              (rw (watch-append next s t.effects v.effects q) (
                runs-Follows t2s ms t.next s1
                  (subst (λ o. Follows R o t.next) q (k t2s m l s t r e)) e2))
      ]
