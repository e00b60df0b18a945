-- ===== src/Tun/Conn/Track/Keys.antt =====
-- The keys of the maps of connections: `same_id` compares all four parts.
use go_game_proxy.Prelude.{◌≡◌, ◌==◌, ==_iff, Bool, true, false, ◌&&◌, Bool-cases, inl, inr, arith}
use go_game_proxy.Prelude.Bytes.{same_bytes, same_bytes→≡, same_bytes_refl}
use go_game_proxy.Tun.Conn.Track.{ConnId, same_id}

pub same_id_refl : (id : ConnId) → same_id id id ≡ true
unfolding same_id
same_id_refl id = ground (arith, same_bytes_refl id.src_ip, same_bytes_refl id.dst_ip)

both : (a b : Bool) → (a && b) ≡ true → (a ≡ true) × (b ≡ true)
both a b h = ground arith

pub same_id→≡ : (a b : ConnId) → same_id a b ≡ true → a ≡ b
unfolding same_id
same_id→≡ a b h =
    let (p, h1) = both (same_bytes a.src_ip b.src_ip) _ h in
    let (q, h2) = both (a.src_port == b.src_port) _ h1 in
    let (r, t) = both (same_bytes a.dst_ip b.dst_ip) _ h2 in
    let e1 = same_bytes→≡ a.src_ip b.src_ip p in
    let e2 = (==_iff a.src_port b.src_port).0 q in
    let e3 = same_bytes→≡ a.dst_ip b.dst_ip r in
    let e4 = (==_iff a.dst_port b.dst_port).0 t in
    λ i. record { src_ip = e1 i; src_port = e2 i; dst_ip = e3 i; dst_port = e4 i }

pub same_id-of_ne : (a b : ConnId) → ¬ (a ≡ b) → same_id a b ≡ false
same_id-of_ne a b n = elim (Bool-cases (same_id a b)) [
  | inl e ↦ absurd (n (same_id→≡ a b e))
  | inr e ↦ e
]
