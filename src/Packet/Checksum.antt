-- ===== src/Packet/Checksum.antt =====
-- gotun2socks/packet/common.go: the checksum of the Internet protocols over several fields.
pub mod Laws
use go_game_proxy.Prelude.{
  ℕ, zero, suc, ◌+◌, ◌-◌, ◌*◌, ◌/◌, ◌%◌, Bool, true, false, List, [], ◌∷◌, Bytes, ltb, leb,
  if◌then◌else◌, u16, u32,
}
use go_game_proxy.Packet.Wire.{Go, ret, hang}

-- The inner loop over one field, two bytes a round, and the odd byte behind it.
unfoldable pub sum_field : ℕ → Bytes → ℕ
sum_field csum [] = csum
sum_field csum (a ∷ []) = u32 (csum + a * 256)
sum_field csum (a ∷ b ∷ rest) = sum_field (u32 (u32 (csum + a * 256) + b)) rest

unfoldable pub sum_fields : ℕ → List Bytes → ℕ
unfolding sum_field
sum_fields csum [] = csum
sum_fields csum (field ∷ fields) = sum_fields (sum_field csum field) fields

-- `for csum > 0xffff`
unfoldable pub fold_carry : ℕ → ℕ → Go ℕ
fold_carry zero csum = hang
fold_carry (suc fuel) csum =
    let rest = fold_carry fuel (u32 (csum / 65536 + csum % 65536)) in
    if ltb 65535 csum then rest else ret csum

-- Three rounds bring every 32-bit sum below 2 ^ 16; the fourth sees it.
abbrev pub fold_fuel : ℕ
fold_fuel = 4

-- `^uint16(csum + (csum >> 16))`
abbrev pub complement : ℕ → ℕ
complement csum = 65535 - u16 (u32 (csum + csum / 65536))

abbrev finish : Go ℕ → Go ℕ
finish (ret csum) = ret (complement csum)
finish Go.panic = Go.panic
finish hang = hang

unfoldable pub checksum : List Bytes → Go ℕ
unfolding sum_fields fold_carry
checksum fields = finish (fold_carry fold_fuel (sum_fields 0 fields))
