-- ===== src/Tun/Fragments.antt =====
-- gotun2socks/tun2socks/ip.go: fragments of IP packets that come in, and those that go out.

pub mod Written
use go_game_proxy.Prelude.{
  ℕ, zero, suc, ◌+◌, ◌-◌, Bool, true, false, not, Option, none, some, List, [], ◌∷◌, ◌++◌, Bytes,
  ltb, leb, ◌==◌, if◌then◌else◌, u16, length, take, drop, bit_and,
}
use go_game_proxy.Packet.Ip4.{Ip4, new_ip4, release_ip4, header_length, parse_ip4, no_slice}
use go_game_proxy.Packet.Wire.{Go, ret, panic, hang, ◌>>=◌, Slice, copy_at}
use go_game_proxy.Tun.Pack.{mtu, pack_ip}

-- `ipPacket`; the buffer behind `wire` belongs to the pool.
pub record IpPacket : Type 0 where
  pub ip : Ip4
  pub wire : Bytes

-- `releaseIPPacket`
abbrev pub release_ip_packet : IpPacket → IpPacket
release_ip_packet pkt = record { ip = release_ip4 pkt.ip; wire = [] }

-- The map `frags`, from identifications to the packets collected so far. No entry is ever deleted.
abbrev pub Collected : Type 0
Collected = List (ℕ × IpPacket)

unfoldable pub find_fragment : ℕ → Collected → Option IpPacket
find_fragment id [] = none
find_fragment id ((key, pkt) ∷ rest) =
    let others = find_fragment id rest in if id == key then some pkt else others

-- A write to the map, which takes the place of the entry of that identification.
unfoldable pub store_fragment : ℕ → IpPacket → Collected → Collected
store_fragment id pkt [] = (id, pkt) ∷ []
store_fragment id pkt ((key, old) ∷ rest) =
    let others = (key, old) ∷ store_fragment id pkt rest in
    if id == key then (id, pkt) ∷ rest else others

-- `ip.Flags&0x1 == 0`
abbrev pub is_last : Ip4 → Bool
is_last ip = bit_and ip.flags 1 == 0

-- What `procFragment` returns: whether the packet is complete, and what is collected of it.
pub record Progress : Type 0 where
  pub last : Bool
  pub packet : Option IpPacket

-- The first fragment of an identification, which is dropped if none is to follow.
unfoldable pub first_fragment : Collected → Ip4 → Bytes → Go (Collected × Progress)
first_fragment frags ip raw =
    if is_last ip
    then ret (frags, record { last = false; packet = none })
    else (parse_ip4 (record { elems = raw; spare = [] }) new_ip4 >>= λ (clone, e).
        let pkt : IpPacket = record { ip = clone; wire = raw } in
        ret (store_fragment ip.id pkt frags, record { last = false; packet = some pkt }))

-- A further one: its payload is appended, wherever its offset says. `spare` is the capacity that
-- `append` leaves behind the bytes.
unfoldable pub next_fragment : Collected → IpPacket → Ip4 → Bytes → Go (Collected × Progress)
next_fragment frags exist ip spare =
    let wire = exist.wire ++ ip.payload.elems in
    parse_ip4 (record { elems = wire; spare = spare }) exist.ip >>= λ (header, e).
    let pkt : IpPacket = record { ip = header; wire = wire } in
    ret (store_fragment ip.id pkt frags, record { last = is_last ip; packet = some pkt })

-- `procFragment`
unfoldable pub proc_fragment : Collected → Ip4 → Bytes → Bytes → Go (Collected × Progress)
proc_fragment frags ip raw spare = elim (find_fragment ip.id frags) [
  | none ↦ first_fragment frags ip raw
  | some exist ↦ next_fragment frags exist ip spare
]

-- `MTU-20`
abbrev pub fragment_size : ℕ
fragment_size = 14980

-- The header of the next fragment in `genFragments`.
abbrev pub fragment_header : Ip4 → ℕ → Bytes → Ip4
fragment_header first offset body = record new_ip4 {
  version = 4;
  id = first.id;
  src_ip = first.src_ip;
  dst_ip = first.dst_ip;
  ttl = first.ttl;
  protocol = first.protocol;
  frag_offset = offset;
  flags = if leb (length body) fragment_size then 0 else 1;
  payload = record { elems = take fragment_size body; spare = drop fragment_size body };
}

-- A fragment in the buffer `old`, from its end. Where an offset would be negative the slices panic.
unfoldable pub pack_fragment : Ip4 → Bytes → Go IpPacket
pack_fragment ip0 old =
    let len = length ip0.payload.elems in
    let (ip1, ip_hl) = header_length ip0 in
    if ltb mtu (len + ip_hl)
    then panic
    else (copy_at old (mtu - len) mtu ip0.payload.elems >>= λ b1.
        pack_ip ip1 (mtu - len - ip_hl) (mtu - len) len b1 >>= λ (b2, ip2).
        ret (record { ip = ip2; wire = drop (mtu - len - ip_hl) b2 }))

-- `genFragments`, on the buffers that the pool hands out. The offset grows by `(MTU-20)/8`.
unfoldable pub gen_fragments : ℕ → Ip4 → (ℕ → Bytes) → ℕ → Bytes → Go (List IpPacket)
gen_fragments zero first pool offset body = hang
gen_fragments (suc fuel) first pool offset body =
    let header = fragment_header first offset body in
    let rest = gen_fragments fuel first pool (u16 (offset + 1872)) (drop fragment_size body) in
    pack_fragment header (pool fuel) >>= λ pkt.
    if header.flags == 0 then ret (pkt ∷ []) else (rest >>= λ pkts. ret (pkt ∷ pkts))
