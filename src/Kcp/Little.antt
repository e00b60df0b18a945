-- ===== src/Kcp/Little.antt =====
-- kcp/cipher/little: every byte is replaced by way of a table of 256 bytes.
use go_game_proxy.Prelude.{
  ℕ, zero, suc, ◌+◌, ◌≤◌, ◌<◌, ◌≡◌, ◌≢◌, refl, sym, subst, ◌∙◌, ap, ap₂, Option, none, some, [],
  ◌∷◌, Bytes, ◌==◌, not, if◌then◌else◌, u8, length, get_or, set, map, replicate, length-replicate,
  All, arith,
}

abbrev pub password_length : ℕ
password_length = 256

pub record Cipher : Type 0 where
  pub encode_password : Bytes
  pub decode_password : Bytes

-- A byte as an index of a table, which has all of them.
abbrev pub substitute : Bytes → Bytes → Bytes
substitute table bs = map (λ v. get_or table v 0) bs

-- `Encrypt`
unfoldable pub encrypt : Cipher → Bytes → Bytes
encrypt cipher bs = substitute cipher.encode_password bs

-- `Decrypt`
unfoldable pub decrypt : Cipher → Bytes → Bytes
decrypt cipher bs = substitute cipher.decode_password bs

-- The loop of `NewCipher` over the rest of the password, from index `i` on.
unfoldable pub invert : ℕ → Bytes → Bytes → Bytes
invert i [] table = table
invert i (v ∷ vs) table = invert (suc i) vs (set table v (u8 i))

-- `NewCipher`
abbrev pub new_cipher : Bytes → Cipher
new_cipher password = record {
  encode_password = password;
  decode_password = invert 0 password (replicate password_length 0);
}

-- `ParsePassword`, with `TrimSpace` and the decoder of base64 as one parameter.
unfoldable pub parse_password : (Bytes → Option Bytes) → Bytes → Option Bytes
parse_password decode text = elim (decode text) [
  | none ↦ none
  | some bs ↦ if not (length bs == password_length) then none else some bs
]

-- No byte of the password occurs in it twice.
abbrev pub IsDistinct : Bytes → Type 0
IsDistinct [] = Unit
IsDistinct (v ∷ vs) = All (λ w. v ≢ w) vs × IsDistinct vs

get_or-set_same : (xs : Bytes) (v a : ℕ) → v < length xs → get_or (set xs v a) v 0 ≡ a
get_or-set_same [] v a h = absurd (omega arith)
get_or-set_same (x ∷ xs) zero a h = refl
get_or-set_same (x ∷ xs) (suc v) a h = get_or-set_same xs v a (omega arith)

get_or-set_other : (xs : Bytes) (v w a : ℕ) → w ≢ v → get_or (set xs w a) v 0 ≡ get_or xs v 0
get_or-set_other [] v w a h = refl
get_or-set_other (x ∷ xs) zero zero a h = absurd (h refl)
get_or-set_other (x ∷ xs) zero (suc w) a h = refl
get_or-set_other (x ∷ xs) (suc v) zero a h = refl
get_or-set_other (x ∷ xs) (suc v) (suc w) a h = get_or-set_other xs v w a (λ e. h (ap suc e))

length-set : (xs : Bytes) (v a : ℕ) → length (set xs v a) ≡ length xs
length-set [] v a = refl
length-set (x ∷ xs) zero a = refl
length-set (x ∷ xs) (suc v) a = ap suc (length-set xs v a)

-- What stands at the place of a byte that does not come any more stays.
invert-keeps :
    (i v : ℕ) (vs table : Bytes)
    → All (λ w. v ≢ w) vs
    → get_or (invert i vs table) v 0 ≡ get_or table v 0
unfolding invert
invert-keeps i v [] table h = refl
invert-keeps i v (w ∷ vs) table h =
    invert-keeps (suc i) v vs (set table w (u8 i)) h.1
    ∙ get_or-set_other table v w (u8 i) (λ e. h.0 (sym e))

invert-inverts :
    (i k : ℕ) (vs table : Bytes)
    → IsDistinct vs
    → All (λ v. v < length table) vs
    → k < length vs
    → i + length vs ≤ 256
    → get_or (invert i vs table) (get_or vs k 0) 0 ≡ i + k
unfolding invert
invert-inverts i k [] table d b h l = absurd (omega arith)
invert-inverts i zero (v ∷ vs) table d b h l =
    invert-keeps (suc i) v vs (set table v (u8 i)) d.0
    ∙ get_or-set_same table v (u8 i) b.0
    ∙ omega (arith, l)
invert-inverts i (suc k) (v ∷ vs) table d b h l =
    invert-inverts (suc i) k vs (set table v (u8 i)) d.1
      (subst (λ n. All (λ w. w < n) vs) (sym (length-set table v (u8 i))) b.1) (omega arith)
      (omega arith)
    ∙ omega arith

-- A password that a cipher can be made of: all bytes, each once.
pub record IsPassword (password : Bytes) : Type 0 where
  pub whole : length password ≡ 256
  pub bytes : All (λ v. v < 256) password
  pub distinct : IsDistinct password

-- Whoever has the password reads what was written with it.
pub decrypt-encrypt :
    (password bs : Bytes)
    → IsPassword password
    → All (λ v. v < 256) bs
    → decrypt (new_cipher password) (encrypt (new_cipher password) bs) ≡ bs
unfolding decrypt encrypt
decrypt-encrypt password [] p h = refl
decrypt-encrypt password (v ∷ bs) p h =
    ap₂ (λ w ws. w ∷ ws)
      (invert-inverts 0 v password (replicate 256 0) p.distinct
          (subst (λ n. All (λ w. w < n) password) (sym (length-replicate {A = ℕ} 256 0)) p.bytes)
          (omega (arith, h.0, p.whole)) (omega (arith, p.whole))
        ∙ (let q : 0 + v ≡ v = omega arith in q))
      (decrypt-encrypt password bs p h.1)
