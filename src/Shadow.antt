-- ===== src/Shadow.antt =====
-- shadowsocks/socks.go: the SOCKS address at the front of a stream or of a packet.
pub mod Laws
pub mod Handshake
use go_game_proxy.Prelude.{
  ℕ, ◌+◌, Option, none, some, List, [], ◌∷◌, ◌++◌, Bytes, ltb, ◌==◌, if◌then◌else◌, length, take,
  get_or,
}
use go_game_proxy.Packet.Wire.{Go, ret}
use go_game_proxy.Socks.{
  Failure, unknown_address_type, done, failed, Reading, then_read, read_full, ipv4_host, ipv6_host,
  domain_host,
}

-- A part of the address behind what has been read of it.
unfoldable pub read_part : Bytes → ℕ → Bytes → Reading Bytes
read_part before n bytes =
    then_read (read_full n bytes) (λ part rest. ret (done (before ++ part), rest))

-- `readAddr` into the buffer of 259 bytes that `ReadAddr` makes, which every address fits.
unfoldable pub read_addr : Bytes → Reading Bytes
read_addr bytes = then_read (read_full 1 bytes) (λ b rest.
    let t = get_or b 0 0 in
    if t == domain_host
    then then_read (read_full 1 rest)
        (λ l rest2. let len = get_or l 0 0 in read_part (t ∷ len ∷ []) (len + 2) rest2)
    else if t == ipv4_host
    then read_part (t ∷ []) 6 rest
    else if t == ipv6_host
    then read_part (t ∷ []) 18 rest
    else ret (failed (unknown_address_type t), rest))

-- The end of `SplitAddr`.
unfoldable pub split_at_length : ℕ → Bytes → Option Bytes
split_at_length addr_len b = if ltb (length b) addr_len then none else some (take addr_len b)

-- The case of a domain name.
unfoldable pub split_domain : Bytes → Option Bytes
split_domain [] = none
split_domain (t ∷ []) = none
split_domain (t ∷ len ∷ b) = split_at_length (1 + 1 + len + 2) (t ∷ len ∷ b)

-- `SplitAddr`; `none` is nil.
unfoldable pub split_addr : Bytes → Option Bytes
split_addr [] = none
split_addr (t ∷ b) =
    if t == domain_host
    then split_domain (t ∷ b)
    else if t == ipv4_host
    then split_at_length 7 (t ∷ b)
    else if t == ipv6_host
    then split_at_length 19 (t ∷ b)
    else none
