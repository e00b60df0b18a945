-- ===== src/Kcp/Oor.antt =====
-- kcp/cipher/oor.go: bytes are hidden by `^` with their index and with a key that is as long as the
-- longest packet so far. `hex.EncodeToString` is a parameter.
use go_game_proxy.Prelude.{
  ℕ, zero, suc, ◌+◌, ◌-◌, ◌%◌, ◌≤◌, ◌<◌, ◌≡◌, refl, sym, subst, ◌∙◌, ap, ap₂, Option, none, some,
  [], ◌∷◌, ◌++◌, Bytes, ltb, if◌then◌else◌, length, get_elem?, get_or, length-append, bit_xor,
  arith, Bool-cases, inl, inr, true, false, ltb→lt, ltb_false→le,
}
use go_game_proxy.Prelude.Xor.{bit_xor-twice}
use go_game_proxy.Packet.Wire.{Go, ret, ◌>>=◌, or_panic}

-- `XORCipher`
pub record XorCipher : Type 0 where
  pub password : Bytes
  pub pwd_max_index : ℕ
  pub remainder : Bytes
  pub max_len : ℕ

-- The bytes that the loop of `updateMaxLen` appends from index `i` on.
unfoldable pub cycle : Bytes → ℕ → ℕ → ℕ → Bytes
cycle password period i zero = []
cycle password period i (suc left) =
    get_or password (i % period) 0 ∷ cycle password period (suc i) left

-- `updateMaxLen`: what it appends starts at the start of the password again.
unfoldable pub update_max_len : XorCipher → ℕ → XorCipher
update_max_len c max = record c {
  max_len = max;
  remainder = c.remainder ++ cycle c.password c.pwd_max_index 0 max;
}

-- `NewXORCipher`
unfoldable pub new_xor_cipher : (Bytes → Bytes) → Bytes → Option XorCipher
new_xor_cipher hex key =
    let password = hex key in
    let blank : XorCipher = record {
      password = password;
      pwd_max_index = length password - 1;
      remainder = [];
      max_len = 0;
    } in
    if ltb (length key) 4 then none else some (update_max_len blank 8192)

-- `trySelfUpdate`
unfoldable pub try_self_update : XorCipher → ℕ → XorCipher
try_self_update c len =
    if ltb len 8192 then c else if ltb c.max_len len then update_max_len c len else c

-- The loop of `Encrypt` and `Decrypt` from index `i` on.
unfoldable pub mask : Bytes → ℕ → Bytes → Go Bytes
mask key i [] = ret []
mask key i (b ∷ src) = or_panic (get_elem? key i) >>= λ k.
    mask key (suc i) src >>= λ rest. ret (bit_xor (bit_xor b (i % 255)) k ∷ rest)

-- `Encrypt`
unfoldable pub encrypt : XorCipher → Bytes → Go (XorCipher × Bytes)
encrypt c src =
    let c' = try_self_update c (length src) in mask c'.remainder 0 src >>= λ out. ret (c', out)

-- `Decrypt`
unfoldable pub decrypt : XorCipher → Bytes → Go (XorCipher × Bytes)
decrypt c src =
    let c' = try_self_update c (length src) in mask c'.remainder 0 src >>= λ out. ret (c', out)

-- The key is as long as it claims, and never shorter than at the start.
pub record IsKeyed (c : XorCipher) : Type 0 where
  pub long : c.max_len ≤ length c.remainder
  pub least : 8192 ≤ c.max_len

length-cycle : (password : Bytes) (period i n : ℕ) → length (cycle password period i n) ≡ n
unfolding cycle
length-cycle password period i zero = refl
length-cycle password period i (suc n) = ap suc (length-cycle password period (suc i) n)

pub update_max_len-IsKeyed : (c : XorCipher) (max : ℕ) → 8192 ≤ max → IsKeyed (update_max_len c max)
unfolding update_max_len
update_max_len-IsKeyed c max h =
    let grown = cycle c.password c.pwd_max_index 0 max in
    record {
      long =
          omega
            (arith, length-append c.remainder grown, length-cycle c.password c.pwd_max_index 0 max);
      least = h;
    }

get_elem?-within : (xs : Bytes) (i : ℕ) → i < length xs → get_elem? xs i ≡ some (get_or xs i 0)
get_elem?-within [] i h = absurd (omega arith)
get_elem?-within (x ∷ xs) zero h = refl
get_elem?-within (x ∷ xs) (suc i) h = get_elem?-within xs i (omega arith)

abbrev masked : Bytes → ℕ → Bytes → Bytes
masked key i [] = []
masked key i (b ∷ src) = bit_xor (bit_xor b (i % 255)) (get_or key i 0) ∷ masked key (suc i) src

mask-masked :
    (key : Bytes) (i : ℕ) (src : Bytes)
    → i + length src ≤ length key
    → mask key i src ≡ ret (masked key i src)
unfolding mask
mask-masked key i [] h = refl
mask-masked key i (b ∷ src) h =
    rw (get_elem?-within key i (omega arith)) (rw (mask-masked key (suc i) src (omega arith)) refl)

masked-twice : (key : Bytes) (i : ℕ) (src : Bytes) → masked key i (masked key i src) ≡ src
masked-twice key i [] = refl
masked-twice key i (b ∷ src) =
    ap₂ (λ x xs. x ∷ xs) (bit_xor-twice b (i % 255) (get_or key i 0)) (masked-twice key (suc i) src)

length-masked : (key : Bytes) (i : ℕ) (src : Bytes) → length (masked key i src) ≡ length src
length-masked key i [] = refl
length-masked key i (b ∷ src) = ap suc (length-masked key (suc i) src)

-- Long enough for a packet of this length, and not to be changed by another one.
record IsReady (n : ℕ) (c : XorCipher) : Type 0 where
  keyed : IsKeyed c
  enough : n ≤ length c.remainder
  stays : try_self_update c n ≡ c

grown : (c : XorCipher) (n : ℕ) → (update_max_len c n).max_len ≡ n
unfolding update_max_len
grown c n = refl

unchanged_when_long : (c : XorCipher) (n : ℕ) → ltb c.max_len n ≡ false → try_self_update c n ≡ c
unfolding try_self_update
unchanged_when_long c n e = elim (Bool-cases (ltb n 8192)) [
  | inl s ↦ rw s refl
  | inr s ↦ rw s (rw e refl)
]

unchanged_when_short : (c : XorCipher) (n : ℕ) → ltb n 8192 ≡ true → try_self_update c n ≡ c
unfolding try_self_update
unchanged_when_short c n e = rw e refl

grown_when_needed :
    (c : XorCipher) (n : ℕ)
    → ltb n 8192 ≡ false
    → ltb c.max_len n ≡ true
    → try_self_update c n ≡ update_max_len c n
unfolding try_self_update
grown_when_needed c n s e = rw s (rw e refl)

try_self_update-IsReady : (c : XorCipher) (n : ℕ) → IsKeyed c → IsReady n (try_self_update c n)
try_self_update-IsReady c n k = elim (Bool-cases (ltb c.max_len n)) [
  | inr e ↦
      let same = unchanged_when_long c n e in
      let fits : n ≤ length c.remainder = omega (arith, k.long, ltb_false→le c.max_len n e) in
      subst (IsReady n) (sym same) (record { keyed = k; enough = fits; stays = same })
  | inl e ↦ elim (Bool-cases (ltb n 8192)) [
    | inl s ↦
        let same = unchanged_when_short c n s in
        let fits : n ≤ length c.remainder = omega (arith, k.long, k.least, ltb→lt n 8192 s) in
        subst (IsReady n) (sym same) (record { keyed = k; enough = fits; stays = same })
    | inr s ↦
        let d = update_max_len c n in
        let keyed = update_max_len-IsKeyed c n (ltb_false→le n 8192 s) in
        let fits : n ≤ length d.remainder = omega (arith, keyed.long, grown c n) in
        let at_rest : ltb d.max_len n ≡ false = rw (grown c n) (ground arith) in
        subst (IsReady n) (sym (grown_when_needed c n s e))
          (record { keyed = keyed; enough = fits; stays = unchanged_when_long d n at_rest })
  ]
]

module _ (c c' : XorCipher) (src out : Bytes) (e : try_self_update c (length src) ≡ c')
    (m : mask c'.remainder 0 src ≡ ret out) where
  encrypts : encrypt c src ≡ ret (c', out)
  unfolding encrypt
  encrypts = rw e (rw m refl)

  decrypts : decrypt c src ≡ ret (c', out)
  unfolding decrypt
  decrypts = rw e (rw m refl)

-- A packet of any length is hidden without an index out of range, and the same state of the cipher
-- brings it back: the key grows as needed, and its length stays what it claims.
pub decrypt-encrypt_keyed :
    (c : XorCipher) (src : Bytes)
    → IsKeyed c
    → (c' : XorCipher) × (out : Bytes) × (encrypt c src ≡ ret (c', out))
      × (decrypt c out ≡ ret (c', src))
      × (decrypt c' out ≡ ret (c', src))
      × IsKeyed c'
decrypt-encrypt_keyed c src k =
    let c' = try_self_update c (length src) in
    let ready = try_self_update-IsReady c (length src) k in
    let out = masked c'.remainder 0 src in
    let l : length out ≡ length src = length-masked c'.remainder 0 src in
    let to = mask-masked c'.remainder 0 src (omega (arith, ready.enough)) in
    let back =
      mask-masked c'.remainder 0 out (omega (arith, l, ready.enough))
      ∙ ap ret (masked-twice c'.remainder 0 src) in
    (
      c',
      out,
      encrypts c c' src out refl to,
      decrypts c c' out src (ap (try_self_update c) l) back,
      decrypts c' c' out src (ap (try_self_update c') l ∙ ready.stays) back,
      ready.keyed,
    )
