-- ===== src/Salt.antt =====
-- Client.go, saltByte, and atest/Server.go, deSaltByte: the bytes between the two programs are
-- hidden by `^ 2`, in buffers of a pool that hold what their last user left.
use go_game_proxy.Prelude.{
  ℕ, ◌≤◌, ◌≡◌, refl, sym, ◌∙◌, ap, [], ◌∷◌, ◌++◌, Bytes, ◌==◌, if◌then◌else◌, length, drop, bit_xor,
  Bool-cases, inl, inr, ==_iff, arith,
}
use go_game_proxy.Prelude.Xor.{bit_xor_undo}
use go_game_proxy.Packet.Wire.{Go, ret, panic, ◌>>=◌}

-- `saltByte` into the pooled buffer `old`, all of which it returns.
unfoldable pub salt_byte : Bytes → Bytes → Go Bytes
salt_byte old [] = ret old
salt_byte [] (v ∷ b) = panic
salt_byte (o ∷ old) (v ∷ b) = salt_byte old b >>= λ rest. ret (bit_xor v 2 ∷ rest)

-- `deSaltByte` into the pooled buffer `old`: a zero is passed over, and what the buffer held there
-- stays.
unfoldable pub de_salt_byte : Bytes → Bytes → Go Bytes
de_salt_byte old [] = ret old
de_salt_byte [] (v ∷ b) = if v == 0 then de_salt_byte [] b else panic
de_salt_byte (o ∷ old) (v ∷ b) =
    de_salt_byte old b >>= λ rest. ret ((if v == 0 then o else bit_xor v 2) ∷ rest)

abbrev salted : Bytes → Bytes
salted [] = []
salted (v ∷ b) = bit_xor v 2 ∷ salted b

-- What comes back of a message: its bytes, but for the twos, in whose place the buffer shows.
abbrev pub restored : Bytes → Bytes → Bytes
restored old [] = []
restored [] (v ∷ b) = v ∷ restored [] b
restored (o ∷ old) (v ∷ b) = (if v == 2 then o else v) ∷ restored old b

salt_byte-salted :
    (old b : Bytes)
    → length b ≤ length old
    → salt_byte old b ≡ ret (salted b ++ drop (length b) old)
unfolding salt_byte
salt_byte-salted old [] h = refl
salt_byte-salted [] (v ∷ b) h = absurd (omega arith)
salt_byte-salted (o ∷ old) (v ∷ b) h = rw (salt_byte-salted old b (omega arith)) refl

-- Only a two is hidden as a zero.
one_back :
    (o v : ℕ)
    → (if bit_xor v 2 == 0 then o else bit_xor (bit_xor v 2) 2) ≡ (if v == 2 then o else v)
one_back o v = elim (Bool-cases (v == 2)) [
  | inl e ↦ let is_two : v ≡ 2 = (==_iff v 2).0 e in rw is_two refl
  | inr e ↦ elim (Bool-cases (bit_xor v 2 == 0)) [
    | inl z ↦
        let zero_key : bit_xor v 2 ≡ 0 = (==_iff (bit_xor v 2) 0).0 z in
        let two : v ≡ 2 = sym (bit_xor_undo v 2) ∙ ap (λ k. bit_xor k 2) zero_key in
        absurd (ground (arith, two, e))
    | inr z ↦ rw (z, e) (bit_xor_undo v 2)
  ]
]

de_salt_byte-restored :
    (old b : Bytes)
    → length b ≤ length old
    → de_salt_byte old (salted b) ≡ ret (restored old b ++ drop (length b) old)
unfolding de_salt_byte
de_salt_byte-restored old [] h = refl
de_salt_byte-restored [] (v ∷ b) h = absurd (omega arith)
de_salt_byte-restored (o ∷ old) (v ∷ b) h =
    rw (de_salt_byte-restored old b (omega arith)) (rw (one_back o v) refl)

-- A message that fits the buffers comes back as it was, but that every byte 2 is lost: what the
-- second buffer held at its place is read instead.
pub de_salt_byte-salt_byte :
    (old old2 b : Bytes)
    → length b ≤ length old
    → length b ≤ length old2
    → (hidden : Bytes) × (salt_byte old b ≡ ret (hidden ++ drop (length b) old))
      × (de_salt_byte old2 hidden ≡ ret (restored old2 b ++ drop (length b) old2))
de_salt_byte-salt_byte old old2 b h k =
    (salted b, salt_byte-salted old b h, de_salt_byte-restored old2 b k)
