-- ===== src/Packet/Wire.antt =====
-- What the packet code takes from Go: a call that returns, panics or never ends, slices with
-- their spare capacity, and the big-endian accesses of encoding/binary.
pub mod Ends
use go_game_proxy.Prelude.{
  ℕ, zero, suc, ◌+◌, ◌-◌, ◌*◌, ◌/◌, Bool, true, false, Option, none, some, List, [], ◌∷◌, ◌++◌,
  Bytes, leb, if◌then◌else◌, u8, u16, get_elem?, set, take, length, drop, ltb, ◌≡◌, refl,
}

-- `hang` is a loop that has used up its fuel.
pub data Go {ℓ} (A : Type ℓ) : Type ℓ where
  ret : A → Go A
  panic hang : Go A

infixl 5 ◌>>=◌
abbrev pub ◌>>=◌ {ℓ κ} : {A : Type ℓ} {B : Type κ} → Go A → (A → Go B) → Go B
ret a >>= f = f a
panic >>= f = panic
hang >>= f = hang

-- What holds of the result of a call that returns.
abbrev pub OnReturn {ℓ κ} : {A : Type ℓ} → (A → Type κ) → Go A → Type κ
OnReturn P (ret a) = P a
OnReturn P panic = Unit
OnReturn P hang = Unit

pub OnReturn-bind {ℓ κ ℓ' κ'} :
    {A : Type ℓ} {B : Type ℓ'} (P : A → Type κ) (Q : B → Type κ') (g : Go A) (f : A → Go B)
    → OnReturn P g
    → ((a : A) → P a → OnReturn Q (f a))
    → OnReturn Q (g >>= f)
OnReturn-bind P Q (ret a) f h next = next a h
OnReturn-bind P Q panic f h next = tt
OnReturn-bind P Q hang f h next = tt

-- Where the next call needs nothing of the result.
pub OnReturn-then {ℓ ℓ' κ'} :
    {A : Type ℓ} {B : Type ℓ'} (Q : B → Type κ') (g : Go A) (f : A → Go B)
    → ((a : A) → OnReturn Q (f a))
    → OnReturn Q (g >>= f)
OnReturn-then Q (ret a) f next = next a
OnReturn-then Q panic f next = tt
OnReturn-then Q hang f next = tt

-- `close` of a channel that is closed already panics.
unfoldable pub close_chan : Bool → Go Bool
close_chan true = panic
close_chan false = ret true

-- The errors that the parsers and serializers return.
pub data Error : Type 0 where
  ip_length_too_small ip_header_too_small ip_header_exceeds_length ip_header_missing : Error
  ip_option_exceeds buffer_size option_data_exceeds : Error
  tcp_too_short tcp_offset_too_small tcp_offset_exceeds tcp_option_too_short : Error
  tcp_option_exceeds udp_too_short : Error

-- The bytes of a slice, and those between its length and its capacity.
pub record Slice : Type 0 where
  pub elems : Bytes
  pub spare : Bytes

abbrev pub or_panic {ℓ} : {A : Type ℓ} → Option A → Go A
or_panic none = panic
or_panic (some a) = ret a

abbrev pub split_at : ℕ → Bytes → Option (Bytes × Bytes)
split_at zero bs = some ([], bs)
split_at (suc n) [] = none
split_at (suc n) (b ∷ bs) = elim (split_at n bs) [
  | none ↦ none
  | some (pre, post) ↦ some (b ∷ pre, post)
]

-- `s[i]`
abbrev pub index : Slice → ℕ → Go ℕ
index s i = or_panic (get_elem? s.elems i)

-- What stands before `i`, from `i` to `j`, and behind `j`.
abbrev pub cut_at : ℕ → ℕ → Bytes → Go (Bytes × Bytes × Bytes)
cut_at i j bs = do
  front ← or_panic (split_at i bs)
  back ← or_panic (split_at (j - i) front.1)
  ret (front.0, back.0, back.1)

-- `s[i:j]`, which may reach up to the capacity.
abbrev pub slice : Slice → ℕ → ℕ → Go Slice
slice s i j = (if leb i j then cut_at i j (s.elems ++ s.spare) else panic) >>= λ cut.
    ret (record { elems = cut.1; spare = cut.2 })

-- `b[i:j]` on bytes with no spare capacity.
abbrev pub cut : Bytes → ℕ → ℕ → Go Bytes
cut bs i j = (if leb i j then cut_at i j bs else panic) >>= λ c. ret c.1

-- `s[i:]`
abbrev pub slice_from : Slice → ℕ → Go Slice
slice_from s i =
    or_panic (split_at i s.elems) >>= λ cut. ret (record { elems = cut.1; spare = s.spare })

-- `binary.BigEndian.Uint16(s[i:i+2])`
abbrev pub uint16_at : Slice → ℕ → Go ℕ
uint16_at s i = do w ← slice s i (i + 2); hi ← index w 0; lo ← index w 1; ret (hi * 256 + lo)

-- `binary.BigEndian.Uint32(s[i:i+4])`
abbrev pub uint32_at : Slice → ℕ → Go ℕ
uint32_at s i = do
  w ← slice s i (i + 4)
  b3 ← index w 0
  b2 ← index w 1
  b1 ← index w 2
  b0 ← index w 3
  ret (b3 * 16777216 + b2 * 65536 + b1 * 256 + b0)

-- `buf[i] = v`
abbrev pub put : Bytes → ℕ → ℕ → Go Bytes
put buf i v = elim (get_elem? buf i) [ none ↦ panic | some _ ↦ ret (set buf i v) ]

-- `binary.BigEndian.PutUint16(buf[i:], v)`
abbrev pub put_uint16 : Bytes → ℕ → ℕ → Go Bytes
put_uint16 buf i v = put buf i (u8 (v / 256)) >>= λ b. put b (suc i) (u8 v)

-- `binary.BigEndian.PutUint32(buf[i:], v)`
abbrev pub put_uint32 : Bytes → ℕ → ℕ → Go Bytes
put_uint32 buf i v = do
  a ← put buf i (u8 (v / 16777216))
  b ← put a (suc i) (u8 (v / 65536))
  c ← put b (suc (suc i)) (u8 (v / 256))
  put c (suc (suc (suc i))) (u8 v)

-- `copy(buf, src)`, which stops at the shorter end.
abbrev pub copy : Bytes → Bytes → Bytes
copy [] src = []
copy (b ∷ buf) [] = b ∷ buf
copy (b ∷ buf) (s ∷ src) = s ∷ copy buf src

-- `copy(buf[i:j], src)`
abbrev pub copy_at : Bytes → ℕ → ℕ → Bytes → Go Bytes
copy_at buf i j src =
    (if leb i j then cut_at i j buf else panic) >>= λ cut. ret (cut.0 ++ (copy cut.1 src ++ cut.2))

pub bind_assoc {ℓ κ μ} :
    {A : Type ℓ} {B : Type κ} {C : Type μ} (m : Go A) (f : A → Go B) (g : B → Go C)
    → (m >>= f) >>= g ≡ m >>= λ a. f a >>= g
bind_assoc (ret a) f g = refl
bind_assoc panic f g = refl
bind_assoc hang f g = refl
