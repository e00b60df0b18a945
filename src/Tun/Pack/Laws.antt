-- ===== src/Tun/Pack/Laws.antt =====
-- What packTCP puts on the wire, whatever the pooled buffer held.
use go_game_proxy.Prelude.{
  ℕ, ◌+◌, ◌-◌, ◌≤◌, ◌<◌, ◌≡◌, refl, sym, ◌∙◌, ap, Option, none, [], ◌∷◌, ◌++◌, Bytes, length, take,
  drop, ltb, u16, length-append, length-take, length-drop, take-append-drop, drop-append,
  append-nil, append_assoc, All, All-append, arith, for_length, false,
}
use go_game_proxy.Packet.Checksum.{checksum}
use go_game_proxy.Packet.Checksum.Laws.{
  word_sum, ones_sum, word_sum-le, word_sum-append, IsByte, checksum_one, complement-lt,
  complement_cancels,
}
use go_game_proxy.Packet.Ip4.{Ip4, pseudo_header, protocol_tcp}
use go_game_proxy.Packet.Ip4.Written.{
  IsPlain as IsPlainIp, header_with, header_sum, measured, sized as sized_ip, serialize_ip4-sized,
  header_length-plain as header_length-plain_ip,
}
use go_game_proxy.Packet.Tcp.{Tcp}
use go_game_proxy.Packet.Tcp.Written.{
  IsPlain, segment_with, segment_with-IsByte, sized, serialize_tcp-sized, header_length-plain,
  word16,
}
use go_game_proxy.Packet.Wire.{Go, Error, ret, copy, copy_at}
use go_game_proxy.Tun.Pack.Window.{cut_at-append, window-append}
use go_game_proxy.Tun.Pack.{mtu, TcpPacket, pack_pseudo, pack_header, pack_ip, pack_tcp}

-- The pseudo header of RFC 793.
abbrev pub pseudo_bytes : Ip4 → ℕ → ℕ → Bytes
pseudo_bytes ip proto len = ip.src_ip ++ (ip.dst_ip ++ (0 ∷ proto ∷ word16 len []))

pub pseudo_header-bytes :
    (ip : Ip4) (src dst buf : Bytes) (proto len : ℕ)
    → length src ≡ 4
    → length dst ≡ 4
    → length buf ≡ 12
    → proto < 256
    → len < 65536
    → ip.src_ip ≡ src
    → ip.dst_ip ≡ dst
    → pseudo_header ip buf proto len ≡ ret (pseudo_bytes ip proto len, none)
unfolding pseudo_header
pseudo_header-bytes ip src dst buf proto len ls ld lb hp hl =
    for_length 12 (λ b. ip.src_ip ≡ src → ip.dst_ip ≡ dst → pseudo_header ip b proto len ≡ goal)
      (λ b0 b1 b2 b3 b4 b5 b6 b7 b8 b9 b10 b11.
        let old = b0 ∷ b1 ∷ b2 ∷ b3 ∷ b4 ∷ b5 ∷ b6 ∷ b7 ∷ b8 ∷ b9 ∷ b10 ∷ b11 ∷ [] in
        for_length 4 (λ s. ip.src_ip ≡ s → ip.dst_ip ≡ dst → pseudo_header ip old proto len ≡ goal)
          (λ s0 s1 s2 s3.
            for_length 4
              (λ d.
                ip.src_ip ≡ s0 ∷ s1 ∷ s2 ∷ s3 ∷ []
                → ip.dst_ip ≡ d
                → pseudo_header ip old proto len ≡ goal)
              (λ d0 d1 d2 d3 e f. rw (e, f) (ground arith)) dst ld)
          src ls)
      buf lb
  where
    goal : Go (Bytes × Option Error)
    goal = ret (pseudo_bytes ip proto len, none)

copy-full : (b s : Bytes) → length b ≡ length s → copy b s ≡ s
copy-full [] [] h = refl
copy-full [] (x ∷ s) h = absurd (omega arith)
copy-full (y ∷ b) [] h = absurd (omega arith)
copy-full (y ∷ b) (x ∷ s) h = ap (◌∷◌ x) (copy-full b s (omega arith))

pub copy_at-end :
    (i j : ℕ) (a w s : Bytes)
    → length a ≡ i
    → length w ≡ length s
    → i + length w ≡ j
    → copy_at (a ++ w) i j s ≡ ret (a ++ s)
copy_at-end i j a w s e l f =
    rw (sym (append-nil w)) (rw (cut_at-append i j a w [] e f) (rw (copy-full w s l, append-nil)))

-- The checksum of a segment with its pseudo header.
abbrev pub segment_sum : Ip4 → Tcp → ℕ
segment_sum ip t =
    65535
    - ones_sum (
        word_sum
          (pseudo_bytes ip protocol_tcp (20 + length t.payload) ++ (segment_with t 0 ++ t.payload)))

-- The packet on the wire.
abbrev pub wire_of : Ip4 → Tcp → Bytes
wire_of ip t =
    let total = 40 + length t.payload in
    header_with ip total (header_sum ip total) ++ (segment_with t (segment_sum ip t) ++ t.payload)

pub record IsSendable (ip : Ip4) (t : Tcp) : Type 0 where
  pub ip_plain : IsPlainIp ip
  pub tcp_plain : IsPlain t
  pub payload_bytes : All IsByte t.payload
  pub fits : 40 + length t.payload ≤ mtu

module _ (ip : Ip4) (t : Tcp) (h : IsSendable ip t) where
  abbrev n : ℕ
  n = length t.payload

  abbrev pseudo : Bytes
  pseudo = pseudo_bytes ip protocol_tcp (20 + n)

  pseudo-length : length pseudo ≡ 12
  pseudo-length = omega (
    arith,
    length-append ip.src_ip (ip.dst_ip ++ (0 ∷ protocol_tcp ∷ word16 (20 + n) [])),
    length-append ip.dst_ip (0 ∷ protocol_tcp ∷ word16 (20 + n) []),
    h.ip_plain.src_ip_length,
    h.ip_plain.dst_ip_length,
  )

  pseudo-IsByte : All IsByte pseudo
  pseudo-IsByte =
      All-append IsByte ip.src_ip _ h.ip_plain.src_ip_bytes
        (All-append IsByte ip.dst_ip _ h.ip_plain.dst_ip_bytes (omega (arith, h.fits)))

  whole-small :
      (sum : ℕ) → sum < 65536 → word_sum (pseudo ++ (segment_with t sum ++ t.payload)) < 4294967296
  whole-small sum s = omega (
    arith,
    word_sum-le (pseudo ++ (segment_with t sum ++ t.payload)) (
        All-append IsByte pseudo _ pseudo-IsByte (
          All-append IsByte (segment_with t sum) _ (segment_with-IsByte t sum h.tcp_plain s)
            h.payload_bytes)),
    length-append pseudo (segment_with t sum ++ t.payload),
    length-append (segment_with t sum) t.payload,
    pseudo-length,
    h.fits,
  )

  segment_sum-lt : segment_sum ip t < 65536
  segment_sum-lt = complement-lt _

  -- A receiver that sums the pseudo header and the segment as sent gets zero.
  pub segment-checksum :
      checksum ((pseudo ++ (segment_with t (segment_sum ip t) ++ t.payload)) ∷ []) ≡ ret 0
  segment-checksum =
      checksum_one _ (whole-small (segment_sum ip t) segment_sum-lt)
      ∙ ap ret (
          ap (λ s. 65535 - ones_sum s) added
          ∙ complement_cancels (word_sum (pseudo ++ (segment_with t 0 ++ t.payload))))
    where
      added :
          word_sum (pseudo ++ (segment_with t (segment_sum ip t) ++ t.payload))
          ≡ word_sum (pseudo ++ (segment_with t 0 ++ t.payload)) + segment_sum ip t
      added = omega (
        arith,
        word_sum-append pseudo (segment_with t (segment_sum ip t) ++ t.payload)
            (omega (arith, pseudo-length)),
        word_sum-append pseudo (segment_with t 0 ++ t.payload) (omega (arith, pseudo-length)),
      )

  pub sent : TcpPacket
  sent = record {
    ip = record (sized_ip ip (20 + n)) { checksum_field = header_sum ip (40 + n) };
    tcp = record (sized t) { checksum_field = segment_sum ip t };
    wire = wire_of ip t;
  }

  total-40 : u16 (20 + (20 + n)) ≡ 40 + n
  total-40 = omega (arith, h.fits)

  module _ (a x y z w : Bytes) (la : length a ≡ mtu - n - 20 - 20) (lx : length x ≡ 8)
      (ly : length y ≡ 12) (lz : length z ≡ 20) (lw : length w ≡ n) where
    lax : length (a ++ x) ≡ mtu - n - 20 - 12
    lax = omega (arith, length-append a x, h.fits)

    payload_step :
        copy_at (a ++ (x ++ (y ++ (z ++ w)))) (mtu - n) mtu t.payload
        ≡ ret ((a ++ x) ++ (y ++ (z ++ t.payload)))
    payload_step =
        ap (λ b. copy_at b (mtu - n) mtu t.payload) (simp append_assoc)
        ∙ copy_at-end (mtu - n) mtu ((a ++ x) ++ (y ++ z)) w t.payload
            (omega (arith, length-append (a ++ x) (y ++ z), length-append y z, lax, h.fits)) lw
            (omega (arith, h.fits))
        ∙ ap ret (simp append_assoc)

    pseudo_step :
        pack_pseudo ip (mtu - n - 20) (20 + n) ((a ++ x) ++ (y ++ (z ++ t.payload)))
        ≡ ret ((a ++ x) ++ (pseudo ++ (z ++ t.payload)))
    unfolding pack_pseudo
    pseudo_step = rw (
        window-append (mtu - n - 20 - 12) (mtu - n - 20) (a ++ x) y (z ++ t.payload) pseudo
          (λ before mid after. pseudo_header ip mid protocol_tcp (20 + n)) none lax
          (omega (arith, h.fits))
          (pseudo_header-bytes ip ip.src_ip ip.dst_ip y protocol_tcp (20 + n)
            h.ip_plain.src_ip_length h.ip_plain.dst_ip_length ly (omega arith)
            (omega (arith, h.fits)) refl refl))

    dropped : drop (mtu - n - 20 - 12) ((a ++ x) ++ pseudo) ≡ pseudo
    dropped = rw (sym lax) (drop-append (a ++ x) pseudo)

    header_step :
        pack_header (sized t) (mtu - n - 20) (mtu - n) ((a ++ x) ++ (pseudo ++ (z ++ t.payload)))
        ≡ ret (((a ++ x) ++ pseudo) ++ (segment_with t (segment_sum ip t) ++ t.payload), sent.tcp)
    unfolding pack_header sent
    header_step = rw (sym (append_assoc (a ++ x) pseudo (z ++ t.payload))) (
        window-append (mtu - n - 20) (mtu - n) ((a ++ x) ++ pseudo) z t.payload
          (segment_with t (segment_sum ip t)) _ sent.tcp
          (omega (arith, length-append (a ++ x) pseudo, lax, pseudo-length, h.fits))
          (omega (arith, h.fits))
          (rw dropped (
            rw (
              serialize_tcp-sized t z (λ h'. (pseudo ++ (h' ++ t.payload)) ∷ []) (segment_sum ip t)
                h.tcp_plain lz
                (checksum_one (pseudo ++ (segment_with t 0 ++ t.payload))
                  (whole-small 0 (omega arith)))
                segment_sum-lt))))

    ip_step :
        pack_ip
          (measured ip)
          (mtu - n - 20 - 20)
          (mtu - n - 20)
          (20 + n)
          (((a ++ x) ++ pseudo) ++ (segment_with t (segment_sum ip t) ++ t.payload))
        ≡ ret (a ++ wire_of ip t, sent.ip)
    unfolding pack_ip sent
    ip_step =
        let rest = segment_with t (segment_sum ip t) ++ t.payload in
        let regroup : ((a ++ x) ++ pseudo) ++ rest ≡ a ++ ((x ++ pseudo) ++ rest) =
          simp append_assoc in
        let l : length (x ++ pseudo) ≡ 20 = omega (arith, length-append x pseudo, pseudo-length) in
        let written = serialize_ip4-sized ip (x ++ pseudo) (20 + n) h.ip_plain l in
        rw regroup (
          window-append (mtu - n - 20 - 20) (mtu - n - 20) a (x ++ pseudo) rest
            (header_with ip (40 + n) (header_sum ip (40 + n))) _ sent.ip la
            (omega (arith, l, h.fits)) (rw written (rw total-40)))

    packed : pack_tcp ip t (a ++ (x ++ (y ++ (z ++ w)))) ≡ ret sent
    unfolding pack_tcp sent
    packed =
        let c1 : ltb mtu (n + 20 + 12) ≡ false = ground (arith, h.fits) in
        let c2 : ltb mtu (n + 20 + 20) ≡ false = ground (arith, h.fits) in
        let d : drop (mtu - n - 20 - 20) (a ++ wire_of ip t) ≡ wire_of ip t =
          rw (sym la) (drop-append a (wire_of ip t)) in
        rw (header_length-plain t h.tcp_plain, header_length-plain_ip ip h.ip_plain)
          (rw (c1, c2) (rw payload_step (rw pseudo_step (rw header_step (rw ip_step (rw d))))))

  -- A packet whose headers have no options and are built from zeroed ones with fields that fit, and
  -- whose payload fits the MTU, goes out as its IP header, its TCP header and its payload, whatever
  -- the buffer held: with the lengths and both checksums filled in.
  pub pack_tcp-wire_of : (old : Bytes) → length old ≡ mtu → pack_tcp ip t old ≡ ret sent
  pack_tcp-wire_of old l =
      let k = mtu - n - 20 - 20 in
      let r1 = drop k old in
      let r2 = drop 8 r1 in
      let r3 = drop 12 r2 in
      let whole : take k old ++ (take 8 r1 ++ (take 12 r2 ++ (take 20 r3 ++ drop 20 r3))) ≡ old =
        rw (
          take-append-drop 20 r3,
          take-append-drop 12 r2,
          take-append-drop 8 r1,
          take-append-drop k old,
        ) in
      ap (pack_tcp ip t) (sym whole)
      ∙ packed (take k old) (take 8 r1) (take 12 r2) (take 20 r3) (drop 20 r3)
          (omega (arith, length-take k old, h.fits))
          (omega (arith, length-take 8 r1, length-drop k old, h.fits))
          (omega (arith, length-take 12 r2, length-drop 8 r1, length-drop k old, h.fits))
          (omega (
            arith,
            length-take 20 r3,
            length-drop 12 r2,
            length-drop 8 r1,
            length-drop k old,
            h.fits,
          ))
          (omega (
            arith,
            length-drop 20 r3,
            length-drop 12 r2,
            length-drop 8 r1,
            length-drop k old,
            h.fits,
          ))
