-- ===== src/Shadow/Laws.antt =====
-- Reading an address and splitting it off agree.
use go_game_proxy.Prelude.{
  ℕ, suc, get_or, ◌+◌, ◌≤◌, ◌≡◌, refl, true, false, Bool-cases, inl, inr, Option, none, some, [],
  ◌∷◌, Bytes, ltb, ◌==◌, length, take, drop, arith, length-take,
}
use go_game_proxy.Packet.Wire.{ret}
use go_game_proxy.Socks.{
  end_of_input, unknown_address_type, then_read, Failure, done, failed, Reading, read_full,
  domain_host, ipv4_host, ipv6_host,
}
use go_game_proxy.Shadow.{read_part, read_addr, split_at_length, split_domain, split_addr}

-- What a reader of `bytes` returns where splitting gives this result: the same address with the
-- bytes behind it left, or a failure.
unfoldable pub Agrees : Option Bytes → Reading Bytes → Bytes → Type 0
Agrees none m bytes = (e : Failure) × (rest : Bytes) × (m ≡ ret (failed e, rest))
Agrees (some a) m bytes = m ≡ ret (done a, drop (length a) bytes)

drop-length-take : (n : ℕ) (b : Bytes) → n ≤ length b → drop (length (take n b)) b ≡ drop n b
drop-length-take n b h =
    let e : length (take n b) ≡ n = omega (arith, length-take n b, h) in rw e refl

behind_type :
    (n t : ℕ) (b : Bytes)
    → Agrees (split_at_length (suc n) (t ∷ b)) (read_part (t ∷ []) n b) (t ∷ b)
unfolding Agrees split_at_length read_part read_full
behind_type n t b = elim (Bool-cases (ltb (length b) n)) [
  | inl e ↦
      let e2 : ltb (suc (length b)) (suc n) ≡ true = ground (arith, e) in
      rw (e2, e) (end_of_input, [], refl)
  | inr e ↦
      let e2 : ltb (suc (length b)) (suc n) ≡ false = ground (arith, e) in
      rw (e2, e) (rw (drop-length-take n b (ground (arith, e))) refl)
]

behind_length :
    (n t len : ℕ) (b : Bytes)
    → Agrees
        (split_at_length (suc (suc n)) (t ∷ len ∷ b))
        (read_part (t ∷ len ∷ []) n b)
        (t ∷ len ∷ b)
unfolding Agrees split_at_length read_part read_full
behind_length n t len b = elim (Bool-cases (ltb (length b) n)) [
  | inl e ↦
      let e2 : ltb (suc (suc (length b))) (suc (suc n)) ≡ true = ground (arith, e) in
      rw (e2, e) (end_of_input, [], refl)
  | inr e ↦
      let e2 : ltb (suc (suc (length b))) (suc (suc n)) ≡ false = ground (arith, e) in
      rw (e2, e) (rw (drop-length-take n b (ground (arith, e))) refl)
]

read_one : (t : ℕ) (b : Bytes) → read_full 1 (t ∷ b) ≡ ret (done (t ∷ []), b)
unfolding read_full
read_one t b = let e : ltb (suc (length b)) 1 ≡ false = ground arith in rw e refl

-- The domain case, from its type on.
domain-Agrees :
    (t : ℕ) (b : Bytes)
    → Agrees
        (split_domain (t ∷ b))
        (then_read
          (read_full 1 b)
          (λ l rest2. read_part (t ∷ get_or l 0 0 ∷ []) (get_or l 0 0 + 2) rest2))
        (t ∷ b)
unfolding split_domain Agrees read_full
domain-Agrees t [] = (end_of_input, [], refl)
domain-Agrees t (len ∷ b) =
    let e : 1 + 1 + len + 2 ≡ suc (suc (len + 2)) = omega arith in
    rw (read_one len b, e) (behind_length (len + 2) t len b)

empty-Agrees : Agrees none (read_addr []) []
unfolding Agrees read_addr read_full
empty-Agrees = (end_of_input, [], refl)

unknown-Agrees :
    (t : ℕ) (b : Bytes) → Agrees none (ret (failed (unknown_address_type t), b)) (t ∷ b)
unfolding Agrees
unknown-Agrees t b = (unknown_address_type t, b, refl)

-- On every input, reading an address from a stream and splitting it off a packet agree: both fail,
-- or both give the same address, and the stream has left what stands behind it.
pub read_addr-split_addr : (bytes : Bytes) → Agrees (split_addr bytes) (read_addr bytes) bytes
unfolding read_addr split_addr
read_addr-split_addr [] = empty-Agrees
read_addr-split_addr (t ∷ b) = elim (Bool-cases (t == domain_host)) [
  | inl e ↦ rw (read_one t b, e) (domain-Agrees t b)
  | inr e ↦ elim (Bool-cases (t == ipv4_host)) [
    | inl f ↦ rw (read_one t b, e, f) (behind_type 6 t b)
    | inr f ↦ elim (Bool-cases (t == ipv6_host)) [
      | inl g ↦ rw (read_one t b, e, f, g) (behind_type 18 t b)
      | inr g ↦ rw (read_one t b, e, f, g) (unknown-Agrees t b)
    ]
  ]
]
