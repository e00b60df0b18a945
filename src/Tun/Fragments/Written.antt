-- ===== src/Tun/Fragments/Written.antt =====
-- What genFragments puts on the wire: the whole of the bytes, cut into packets that fit.
use go_game_proxy.Prelude.{
  leb→le, leb_false→lt, append-nil, subst, ℕ, zero, suc, ◌+◌, ◌-◌, ◌*◌, ◌/◌, ◌%◌, ◌≤◌, ◌<◌, ◌≡◌,
  refl, sym, ◌∙◌, ap, Bool-cases, inl, inr, List, [], ◌∷◌, ◌++◌, Bytes, length, take, drop, ltb,
  leb, false, true, u16, length-append, length-take, length-drop, take-append-drop, take_all,
  drop-append, append_assoc, All, arith,
}
use go_game_proxy.Packet.Checksum.{checksum}
use go_game_proxy.Packet.Checksum.Laws.{IsByte}
use go_game_proxy.Packet.Ip4.{Ip4}
use go_game_proxy.Packet.Ip4.Written.{
  IsPlain, header_with, header_sum, measured, sized, serialize_ip4-sized, header_length-plain,
  header_with-checksum,
}
use go_game_proxy.Packet.Wire.{ret, copy_at}
use go_game_proxy.Tun.Pack.{mtu, pack_ip}
use go_game_proxy.Tun.Pack.Laws.{copy_at-end}
use go_game_proxy.Tun.Pack.Window.{window-append}
use go_game_proxy.Tun.Fragments.{IpPacket, fragment_header, pack_fragment, gen_fragments}

-- The packet that `pack_fragment` makes of a header.
abbrev pub packed : Ip4 → IpPacket
packed ip =
    let len = length ip.payload.elems in
    let sum = header_sum ip (20 + len) in
    record {
      ip = record (sized ip len) { checksum_field = sum };
      wire = header_with ip (20 + len) sum ++ ip.payload.elems;
    }

module _ (ip : Ip4) (p : IsPlain ip) (fits : 20 + length ip.payload.elems ≤ mtu) where
  abbrev n : ℕ
  n = length ip.payload.elems

  module _ (a x w : Bytes) (la : length a ≡ mtu - n - 20) (lx : length x ≡ 20)
      (lw : length w ≡ n) where
    copy_step :
        copy_at (a ++ (x ++ w)) (mtu - n) mtu ip.payload.elems ≡ ret (a ++ (x ++ ip.payload.elems))
    copy_step =
        ap (λ b. copy_at b (mtu - n) mtu ip.payload.elems) (simp append_assoc)
        ∙ copy_at-end (mtu - n) mtu (a ++ x) w ip.payload.elems
            (omega (arith, length-append a x, la, lx, fits)) lw (omega (arith, lw, fits))
        ∙ ap ret (simp append_assoc)

    ip_step :
        pack_ip (measured ip) (mtu - n - 20) (mtu - n) n (a ++ (x ++ ip.payload.elems))
        ≡ ret (a ++ (packed ip).wire, (packed ip).ip)
    unfolding pack_ip
    ip_step =
        let total : u16 (20 + n) ≡ 20 + n = omega (arith, fits) in
        let written = serialize_ip4-sized ip x n p lx in
        window-append (mtu - n - 20) (mtu - n) a x ip.payload.elems
          (header_with ip (20 + n) (header_sum ip (20 + n))) _ (packed ip).ip la
          (omega (arith, lx, fits)) (rw written (rw total refl))

    packed_at : pack_fragment ip (a ++ (x ++ w)) ≡ ret (packed ip)
    unfolding pack_fragment
    packed_at =
        let c : ltb mtu (n + 20) ≡ false = ground (arith, fits) in
        let d : drop (mtu - n - 20) (a ++ (packed ip).wire) ≡ (packed ip).wire =
          rw (sym la) (drop-append a (packed ip).wire) in
        rw (header_length-plain ip p) (rw c (rw copy_step (rw ip_step (rw d refl))))

  -- A fragment goes out as its header and its payload, whatever the buffer held.
  pub pack_fragment-packed :
      (old : Bytes) → length old ≡ mtu → pack_fragment ip old ≡ ret (packed ip)
  pack_fragment-packed old l =
      let k = mtu - n - 20 in
      let r = drop k old in
      let whole : take k old ++ (take 20 r ++ drop 20 r) ≡ old =
        rw (take-append-drop 20 r, take-append-drop k old) in
      ap (pack_fragment ip) (sym whole)
      ∙ packed_at (take k old) (take 20 r) (drop 20 r) (omega (arith, length-take k old, fits))
          (omega (arith, length-take 20 r, length-drop k old, fits))
          (omega (arith, length-drop 20 r, length-drop k old, fits))

-- The header of a fragment on the wire, for `total` bytes with its payload.
abbrev pub fragment_head : Ip4 → ℕ → ℕ → ℕ → ℕ → Bytes
fragment_head first offset more total sum =
    69
    ∷ 0
    ∷ (total / 256)
    ∷ (total % 256)
    ∷ (first.id / 256)
    ∷ (first.id % 256)
    ∷ (more * 32 + offset / 256)
    ∷ (offset % 256)
    ∷ first.ttl
    ∷ first.protocol
    ∷ (sum / 256)
    ∷ (sum % 256)
    ∷ (first.src_ip ++ first.dst_ip)

-- A packet on the wire: the header of a fragment with this offset and flag, with a checksum by which
-- it sums to zero, and the payload.
pub record IsSent (first : Ip4) (offset more : ℕ) (pkt : IpPacket) : Type 0 where
  pub same_id : pkt.ip.id ≡ first.id
  pub same_source : pkt.ip.src_ip ≡ first.src_ip
  pub same_destination : pkt.ip.dst_ip ≡ first.dst_ip
  pub at_offset : pkt.ip.frag_offset ≡ offset
  pub more_flag : pkt.ip.flags ≡ more
  pub on_wire :
      (sum : ℕ) × (pkt.wire
        ≡ fragment_head first offset more (20 + length pkt.ip.payload.elems) sum
          ++ pkt.ip.payload.elems)
      × (checksum (fragment_head first offset more (20 + length pkt.ip.payload.elems) sum ∷ [])
          ≡ ret 0)
  pub fits : length pkt.wire ≤ mtu

-- Packets of one identification: all but the last say that more follow, and each offset is 1872
-- above the one before.
abbrev pub AreFragments : Ip4 → ℕ → List IpPacket → Type 0
AreFragments first offset [] = ⊥
AreFragments first offset (p ∷ []) = IsSent first offset 0 p
AreFragments first offset (p ∷ q ∷ ps) =
    IsSent first offset 1 p × AreFragments first (offset + 1872) (q ∷ ps)

abbrev pub payloads : List IpPacket → Bytes
payloads [] = []
payloads (p ∷ ps) = p.ip.payload.elems ++ payloads ps

-- What the fragments take from the first header fits its fields.
pub record IsSource (first : Ip4) : Type 0 where
  pub id_fits : first.id < 65536
  pub ttl_fits : first.ttl < 256
  pub protocol_fits : first.protocol < 256
  pub src_ip_length : length first.src_ip ≡ 4
  pub dst_ip_length : length first.dst_ip ≡ 4
  pub src_ip_bytes : All IsByte first.src_ip
  pub dst_ip_bytes : All IsByte first.dst_ip

module _ (first : Ip4) (s : IsSource first) where
  fragment_header-IsPlain :
      (offset : ℕ) (body : Bytes) → offset < 8192 → IsPlain (fragment_header first offset body)
  fragment_header-IsPlain offset body h = ground (
    arith, h, s.id_fits, s.ttl_fits, s.protocol_fits, s.src_ip_length, s.dst_ip_length,
    s.src_ip_bytes, s.dst_ip_bytes,
  )

  packed-IsSent :
      (offset : ℕ) (body : Bytes)
      → offset < 8192
      → IsSent first offset
          (fragment_header first offset body).flags
          (packed (fragment_header first offset body))
  packed-IsSent offset body h =
      let header = fragment_header first offset body in
      let len = length header.payload.elems in
      let short : len ≤ 14980 = omega (arith, length-take 14980 body) in
      let head = header_with header (20 + len) (header_sum header (20 + len)) in
      let l : length head ≡ 20 =
        omega (arith, length-append first.src_ip first.dst_ip, s.src_ip_length, s.dst_ip_length) in
      record {
        same_id = refl;
        same_source = refl;
        same_destination = refl;
        at_offset = refl;
        more_flag = refl;
        on_wire = (
          header_sum header (20 + len),
          refl,
          header_with-checksum header (20 + len) (fragment_header-IsPlain offset body h)
              (omega (arith, short)),
        );
        fits = omega (arith, length-append head header.payload.elems, l, short);
      }

  AreFragments-cons :
      (offset : ℕ) (p : IpPacket) (ps : List IpPacket)
      → IsSent first offset 1 p
      → AreFragments first (offset + 1872) ps
      → AreFragments first offset (p ∷ ps)
  AreFragments-cons offset p [] a h = absurd h
  AreFragments-cons offset p (q ∷ ps) a h = (a, h)

  -- The fragments of a body: what `gen_fragments` is to return.
  abbrev Delivers : ℕ → (ℕ → Bytes) → ℕ → Bytes → Type 0
  Delivers fuel pool offset body =
      (pkts : List IpPacket) × (gen_fragments fuel first pool offset body ≡ ret pkts)
      × (payloads pkts ≡ body)
      × AreFragments first offset pkts

  module _ (fuel : ℕ) (pool : ℕ → Bytes) (offset : ℕ) (body : Bytes) (low : offset < 8192)
      (full : length (pool fuel) ≡ mtu) where
    abbrev cut : Ip4
    cut = fragment_header first offset body

    cut_written : pack_fragment cut (pool fuel) ≡ ret (packed cut)
    cut_written =
        pack_fragment-packed cut (fragment_header-IsPlain offset body low)
          (omega (arith, length-take 14980 body)) (pool fuel) full

    last_cut : leb (length body) 14980 ≡ true → Delivers (suc fuel) pool offset body
    unfolding gen_fragments
    last_cut e =
        let whole = take_all 14980 body (leb→le (length body) 14980 e) in
        let is_sent : IsSent first offset 0 (packed cut) =
          subst (λ f. IsSent first offset f (packed cut)) (rw e refl)
            (packed-IsSent offset body low) in
        (packed cut ∷ [], rw cut_written (rw e refl), rw (append-nil, whole) refl, is_sent)

    further_cut :
        leb (length body) 14980 ≡ false
        → u16 (offset + 1872) ≡ offset + 1872
        → (pkts : List IpPacket)
        → gen_fragments fuel first pool (offset + 1872) (drop 14980 body) ≡ ret pkts
        → payloads pkts ≡ drop 14980 body
        → AreFragments first (offset + 1872) pkts
        → Delivers (suc fuel) pool offset body
    unfolding gen_fragments
    further_cut e small pkts gen joined are =
        let is_sent : IsSent first offset 1 (packed cut) =
          subst (λ f. IsSent first offset f (packed cut)) (rw e refl)
            (packed-IsSent offset body low) in
        (
          packed cut ∷ pkts,
          rw cut_written (rw (e, small) (rw gen refl)),
          rw (joined, take-append-drop 14980 body) refl,
          AreFragments-cons offset (packed cut) pkts is_sent are,
        )

  module _ (pool : ℕ → Bytes) (full : (i : ℕ) → length (pool i) ≡ mtu) where
    -- Bytes of which the offsets fit 13 bits, with fuel for each of them and one more, are cut into
    -- packets of at most the MTU whose payloads are those bytes in order. On the wire each packet is
    -- the header of a fragment of the first packet, with its identification, addresses, protocol and
    -- time to live, a length and a checksum that are right, and an offset 1872 above the one before,
    -- and its payload; all but the last say that more follow.
    pub gen_fragments-delivers :
        (fuel offset : ℕ) (body : Bytes)
        → length body < fuel
        → offset + 1872 * (length body / 14980) < 8192
        → (pkts : List IpPacket) × (gen_fragments fuel first pool offset body ≡ ret pkts)
          × (payloads pkts ≡ body)
          × AreFragments first offset pkts
    gen_fragments-delivers zero offset body h k = absurd (omega arith)
    gen_fragments-delivers (suc fuel) offset body h k =
        elim (Bool-cases (leb (length body) 14980)) [
          | inl e ↦ last_cut fuel pool offset body (omega (arith, k)) (full fuel) e
          | inr e ↦
              let more : 14980 < length body = leb_false→lt (length body) 14980 e in
              let (pkts, gen, joined, are) =
                gen_fragments-delivers fuel (offset + 1872) (drop 14980 body)
                  (omega (arith, h, more, length-drop 14980 body))
                  (omega (arith, k, more, length-drop 14980 body)) in
              further_cut fuel pool offset body (omega (arith, k)) (full fuel) e (omega (arith, k))
                pkts gen joined are
        ]
