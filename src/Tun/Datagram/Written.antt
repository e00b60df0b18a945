-- ===== src/Tun/Datagram/Written.antt =====
-- The one packet of an answer on the wire, whatever the pooled buffer held.
use go_game_proxy.Prelude.{
  ℕ, ◌+◌, ◌-◌, ◌/◌, ◌%◌, ◌≤◌, ◌<◌, ◌≡◌, refl, sym, ◌∙◌, ap, none, [], ◌∷◌, ◌++◌, Bytes, length,
  take, drop, ltb, false, u16, length-append, length-take, length-drop, take-append-drop,
  drop-append, append-nil, append_assoc, All, All-append, arith,
}
use go_game_proxy.Packet.Checksum.{checksum}
use go_game_proxy.Packet.Checksum.Laws.{
  word_sum, ones_sum, word_sum-le, IsByte, checksum-ones_sum, complement-lt,
}
use go_game_proxy.Packet.Ip4.{Ip4, pseudo_header, protocol_udp}
use go_game_proxy.Packet.Ip4.Written.{
  IsPlain as IsPlainIp, header_with, header_sum, measured, sized, serialize_ip4-sized,
  header_length-plain,
}
use go_game_proxy.Packet.Udp.{Udp}
use go_game_proxy.Packet.Udp.RoundTrip.{IsPlain, datagram_with, serialize_udp-datagram_with}
use go_game_proxy.Packet.Wire.{ret, copy, copy_at}
use go_game_proxy.Tun.Datagram.{UdpPacket, payload_start, write_pseudo, write_udp, pack_udp}
use go_game_proxy.Tun.Pack.{mtu, pack_ip}
use go_game_proxy.Tun.Pack.Laws.{pseudo_bytes, pseudo_header-bytes}
use go_game_proxy.Tun.Pack.Window.{cut_at-append, window-append}

copy-part : (b s : Bytes) → length b ≤ length s → copy b s ≡ take (length b) s
copy-part [] s h = refl
copy-part (y ∷ b) [] h = absurd (omega arith)
copy-part (y ∷ b) (x ∷ s) h = ap (◌∷◌ x) (copy-part b s (omega arith))

copy_at-part :
    (i j : ℕ) (a w s : Bytes)
    → length a ≡ i
    → length w ≤ length s
    → i + length w ≡ j
    → copy_at (a ++ w) i j s ≡ ret (a ++ take (length w) s)
copy_at-part i j a w s e l f =
    ap (λ b. copy_at (a ++ b) i j s) (sym (append-nil w))
    ∙ rw (cut_at-append i j a w [] e f, copy-part w s l, append-nil (take (length w) s)) refl

-- The checksum of a datagram with its pseudo header.
abbrev pub datagram_sum : Ip4 → Udp → ℕ
datagram_sum ip u =
    let n = length u.payload in
    65535
    - ones_sum (
        word_sum (
          (pseudo_bytes ip protocol_udp (8 + n) ++ datagram_with u (n + 8) 0) ++ (u.payload ++ [])))

-- The packet that carries the first `part` bytes of the payload.
abbrev pub first_packet : Ip4 → Udp → ℕ → UdpPacket
first_packet ip u part =
    let n = length u.payload in
    let sum = header_sum ip (28 + part) in
    record {
      ip = record (sized ip (8 + part)) { checksum_field = sum };
      udp = record u { udp_length = n + 8; checksum_field = datagram_sum ip u };
      wire =
          header_with ip (28 + part) sum
          ++ (datagram_with u (n + 8) (datagram_sum ip u) ++ take part u.payload);
    }

pub record IsSendable (ip : Ip4) (u : Udp) : Type 0 where
  pub ip_plain : IsPlainIp ip
  pub udp_plain : IsPlain u
  pub payload_bytes : All IsByte u.payload
  pub fits : length u.payload ≤ 65507

module _ (ip : Ip4) (u : Udp) (h : IsSendable ip u) where
  abbrev n : ℕ
  n = length u.payload

  abbrev pseudo : Bytes
  pseudo = pseudo_bytes ip protocol_udp (8 + n)

  pseudo-length : length pseudo ≡ 12
  pseudo-length = omega (
    arith,
    length-append ip.src_ip (ip.dst_ip ++ (0 ∷ protocol_udp ∷ (8 + n) / 256 ∷ (8 + n) % 256 ∷ [])),
    length-append ip.dst_ip (0 ∷ protocol_udp ∷ (8 + n) / 256 ∷ (8 + n) % 256 ∷ []),
    h.ip_plain.src_ip_length,
    h.ip_plain.dst_ip_length,
  )

  pseudo-IsByte : All IsByte pseudo
  pseudo-IsByte =
      All-append IsByte ip.src_ip _ h.ip_plain.src_ip_bytes
        (All-append IsByte ip.dst_ip _ h.ip_plain.dst_ip_bytes (omega (arith, h.fits)))

  abbrev blank : Bytes
  blank = datagram_with u (n + 8) 0

  summed-small : word_sum ((pseudo ++ blank) ++ (u.payload ++ [])) < 4294967296
  summed-small = omega (
    arith,
    word_sum-le ((pseudo ++ blank) ++ (u.payload ++ [])) (
        All-append IsByte (pseudo ++ blank) _
          (All-append IsByte pseudo _ pseudo-IsByte
            (omega (arith, h.udp_plain.src_port_fits, h.udp_plain.dst_port_fits, h.fits)))
          (All-append IsByte u.payload [] h.payload_bytes tt)),
    length-append (pseudo ++ blank) (u.payload ++ []),
    length-append pseudo blank,
    length-append u.payload [],
    pseudo-length,
    h.fits,
  )

  datagram_sum-checksum : checksum ((pseudo ++ blank) ∷ u.payload ∷ []) ≡ ret (datagram_sum ip u)
  datagram_sum-checksum =
      checksum-ones_sum ((pseudo ++ blank) ∷ u.payload ∷ [])
        (omega (arith, length-append pseudo blank, pseudo-length), tt) summed-small

  module _ (stop : ℕ) (a x y z w : Bytes) (low : 28 ≤ stop) (high : stop ≤ mtu)
      (part : mtu - stop ≤ n) (la : length a ≡ stop - 28) (lx : length x ≡ 8) (ly : length y ≡ 12)
      (lz : length z ≡ 8) (lw : length w ≡ mtu - stop) where
    lax : length (a ++ x) ≡ stop - 8 - 12
    lax = omega (arith, length-append a x, low)

    pseudo_step :
        write_pseudo ip (stop - 8) (8 + n) ((a ++ x) ++ (y ++ (z ++ w)))
        ≡ ret ((a ++ x) ++ (pseudo ++ (z ++ w)))
    unfolding write_pseudo
    pseudo_step = rw (
        window-append (stop - 8 - 12) (stop - 8) (a ++ x) y (z ++ w) pseudo
          (λ before mid after. pseudo_header ip mid protocol_udp (8 + n)) none lax
          (omega (arith, low))
          (pseudo_header-bytes ip ip.src_ip ip.dst_ip y protocol_udp (8 + n)
            h.ip_plain.src_ip_length h.ip_plain.dst_ip_length ly (omega arith)
            (omega (arith, h.fits)) refl refl))

    dropped : drop (stop - 8 - 12) ((a ++ x) ++ pseudo) ≡ pseudo
    dropped = rw (sym lax) (drop-append (a ++ x) pseudo)

    abbrev head : Bytes
    head = datagram_with u (n + 8) (datagram_sum ip u)

    udp_step :
        write_udp u (stop - 8) stop ((a ++ x) ++ (pseudo ++ (z ++ w)))
        ≡ ret (((a ++ x) ++ pseudo) ++ (head ++ w), (first_packet ip u (mtu - stop)).udp)
    unfolding write_udp
    udp_step = rw (sym (append_assoc (a ++ x) pseudo (z ++ w))) (
        window-append (stop - 8) stop ((a ++ x) ++ pseudo) z w head _
          (first_packet ip u (mtu - stop)).udp
          (omega (arith, length-append (a ++ x) pseudo, lax, pseudo-length, low))
          (omega (arith, low))
          (rw dropped (
            rw (
              serialize_udp-datagram_with u z (λ h'. (pseudo ++ h') ∷ u.payload ∷ [])
                (datagram_sum ip u) h.udp_plain lz (omega (arith, h.fits)) (complement-lt _)
                datagram_sum-checksum))))

    abbrev body : Bytes
    body = take (mtu - stop) u.payload

    payload_step :
        copy_at (((a ++ x) ++ pseudo) ++ (head ++ w)) stop mtu u.payload
        ≡ ret (((a ++ x) ++ pseudo) ++ (head ++ body))
    payload_step =
        ap (λ b. copy_at b stop mtu u.payload) (sym (append_assoc ((a ++ x) ++ pseudo) head w))
        ∙ copy_at-part stop mtu (((a ++ x) ++ pseudo) ++ head) w u.payload
            (omega (
              arith,
              length-append ((a ++ x) ++ pseudo) head,
              length-append (a ++ x) pseudo,
              lax,
              pseudo-length,
              low,
            ))
            (omega (arith, lw, part)) (omega (arith, lw, high))
        ∙ rw (lw, append_assoc ((a ++ x) ++ pseudo) head body) refl

    ip_step :
        pack_ip
          (measured ip)
          (stop - 8 - 20)
          (stop - 8)
          (8 + (mtu - stop))
          (((a ++ x) ++ pseudo) ++ (head ++ body))
        ≡ ret (a ++ (first_packet ip u (mtu - stop)).wire, (first_packet ip u (mtu - stop)).ip)
    unfolding pack_ip
    ip_step =
        let rest = head ++ body in
        let regroup : ((a ++ x) ++ pseudo) ++ rest ≡ a ++ ((x ++ pseudo) ++ rest) =
          simp append_assoc in
        let l : length (x ++ pseudo) ≡ 20 = omega (arith, length-append x pseudo, pseudo-length) in
        let total : u16 (20 + (8 + (mtu - stop))) ≡ 28 + (mtu - stop) = omega arith in
        let written = serialize_ip4-sized ip (x ++ pseudo) (8 + (mtu - stop)) h.ip_plain l in
        rw regroup (
          window-append (stop - 8 - 20) (stop - 8) a (x ++ pseudo) rest
            (header_with ip (28 + (mtu - stop)) (header_sum ip (28 + (mtu - stop)))) _
            (first_packet ip u (mtu - stop)).ip (omega (arith, la)) (omega (arith, l, low))
            (rw written (rw total refl)))

    packed :
        payload_start n ≡ stop
        → pack_udp ip u (a ++ (x ++ (y ++ (z ++ w)))) ≡ ret (first_packet ip u (mtu - stop))
    unfolding pack_udp
    packed e =
        let c : ltb (stop - 8) 20 ≡ false = ground (arith, low) in
        let d : drop (stop - 8 - 20) (a ++ (first_packet ip u (mtu - stop)).wire)
            ≡ (first_packet ip u (mtu - stop)).wire =
          ap (λ k. drop k (a ++ (first_packet ip u (mtu - stop)).wire))
            (let q : stop - 8 - 20 ≡ length a = omega (arith, la) in q)
          ∙ drop-append a (first_packet ip u (mtu - stop)).wire in
        rw (e, sym (append_assoc a x (y ++ (z ++ w))))
          (rw pseudo_step (
            rw udp_step (
              rw payload_step
                (rw (header_length-plain ip h.ip_plain) (rw c (rw ip_step (rw d refl)))))))

  -- The buffer is cut as `pack_udp` writes it.
  pub pack_udp-first_packet :
      (stop : ℕ) (old : Bytes)
      → 28 ≤ stop
      → stop ≤ mtu
      → mtu - stop ≤ n
      → payload_start n ≡ stop
      → length old ≡ mtu
      → pack_udp ip u old ≡ ret (first_packet ip u (mtu - stop))
  pack_udp-first_packet stop old low high part e l =
      let r1 = drop (stop - 28) old in
      let r2 = drop 8 r1 in
      let r3 = drop 12 r2 in
      let whole : take (stop - 28) old ++ (take 8 r1 ++ (take 12 r2 ++ (take 8 r3 ++ drop 8 r3)))
          ≡ old =
        rw (
          take-append-drop 8 r3,
          take-append-drop 12 r2,
          take-append-drop 8 r1,
          take-append-drop (stop - 28) old,
        ) in
      let l1 : length r1 ≡ mtu - (stop - 28) = omega (arith, length-drop (stop - 28) old, l) in
      let l2 : length r2 ≡ mtu - (stop - 28) - 8 = omega (arith, length-drop 8 r1, l1) in
      let l3 : length r3 ≡ mtu - (stop - 28) - 20 = omega (arith, length-drop 12 r2, l2) in
      ap (pack_udp ip u) (sym whole)
      ∙ packed stop (take (stop - 28) old) (take 8 r1) (take 12 r2) (take 8 r3) (drop 8 r3) low high
          part (omega (arith, length-take (stop - 28) old, l, high))
          (omega (arith, length-take 8 r1, l1, high)) (omega (arith, length-take 12 r2, l2, high))
          (omega (arith, length-take 8 r3, l3, high)) (omega (arith, length-drop 8 r3, l3, low)) e
