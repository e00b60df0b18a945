-- ===== src/Tun/Datagram/Delivered.antt =====
-- An answer goes out whole: one packet, and fragments for what it has no room for.
use go_game_proxy.Prelude.{
  ℕ, ◌+◌, ◌-◌, ◌≤◌, ◌<◌, ◌≡◌, refl, ◌∙◌, ap, List, [], ◌++◌, Bytes, length, take, drop, ltb, ◌==◌,
  false, true, length-drop, take-append-drop, take_all, append-nil, All, arith, min, ◌⊎◌, inl, inr,
  Bool-cases, ltb→lt, ltb_false→le,
}
use go_game_proxy.Packet.Checksum.Laws.{IsByte}
use go_game_proxy.Packet.Ip4.{Ip4}
use go_game_proxy.Packet.Udp.{Udp}
use go_game_proxy.Packet.Wire.{ret}
use go_game_proxy.Tun.Datagram.{UdpPacket, response_ip, response_udp, pack_udp, response_packet}
use go_game_proxy.Tun.Datagram.Written.{first_packet, IsSendable, pack_udp-first_packet}
use go_game_proxy.Tun.Fragments.{IpPacket, gen_fragments}
use go_game_proxy.Tun.Fragments.Written.{payloads, AreFragments, IsSource, gen_fragments-delivers}
use go_game_proxy.Tun.Pack.{mtu}

-- The addresses, ports and bytes of an answer fit their fields.
pub record IsAnswer (id : ℕ) (local remote : Bytes) (l_port r_port : ℕ) (payload : Bytes)
    : Type 0 where
  pub id_fits : id < 65536
  pub local_length : length local ≡ 4
  pub remote_length : length remote ≡ 4
  pub local_bytes : All IsByte local
  pub remote_bytes : All IsByte remote
  pub l_port_fits : l_port < 65536
  pub r_port_fits : r_port < 65536
  pub payload_bytes : All IsByte payload
  pub fits : length payload ≤ 65507

module _ (id : ℕ) (local remote : Bytes) (l_port r_port : ℕ) (payload : Bytes)
    (h : IsAnswer id local remote l_port r_port payload) where
  abbrev answer_ip : Ip4
  answer_ip = response_ip id local remote (length payload)

  abbrev answer_udp : Udp
  answer_udp = response_udp l_port r_port payload

  answer-IsSendable : IsSendable answer_ip answer_udp
  answer-IsSendable = record {
    ip_plain =
        ground (arith, h.id_fits, h.local_length, h.remote_length, h.local_bytes, h.remote_bytes);
    udp_plain = record { src_port_fits = h.r_port_fits; dst_port_fits = h.l_port_fits };
    payload_bytes = h.payload_bytes;
    fits = h.fits;
  }

  abbrev pub answer_packet : UdpPacket
  answer_packet = first_packet answer_ip answer_udp (min (length payload) 14972)

  answer-IsSource : IsSource answer_packet.ip
  answer-IsSource = record {
    id_fits = h.id_fits;
    ttl_fits = omega arith;
    protocol_fits = omega arith;
    src_ip_length = h.remote_length;
    dst_ip_length = h.local_length;
    src_ip_bytes = h.remote_bytes;
    dst_ip_bytes = h.local_bytes;
  }

  module _ (old : Bytes) (l : length old ≡ mtu) (pool : ℕ → Bytes)
      (full : (i : ℕ) → length (pool i) ≡ mtu) where
    abbrev Delivered : Type 0
    Delivered =
        (frags : List IpPacket) × (response_packet id local remote l_port r_port payload old pool
          ≡ ret (answer_packet, frags))
        × (take 14972 payload ++ payloads frags ≡ payload)
        × ((frags ≡ []) ⊎ AreFragments answer_packet.ip 1872 frags)

    last_step :
        (pkt : UdpPacket)
        → pack_udp answer_ip answer_udp old ≡ ret pkt
        → (pkt.ip.flags == 0) ≡ true
        → response_packet id local remote l_port r_port payload old pool ≡ ret (pkt, [])
    unfolding response_packet
    last_step pkt p f = rw p (rw f refl)

    further_step :
        (pkt : UdpPacket) (frags : List IpPacket)
        → pack_udp answer_ip answer_udp old ≡ ret pkt
        → (pkt.ip.flags == 0) ≡ false
        → gen_fragments (length payload + 1) pkt.ip pool 1872 (drop 14972 payload) ≡ ret frags
        → response_packet id local remote l_port r_port payload old pool ≡ ret (pkt, frags)
    unfolding response_packet
    further_step pkt frags p f g = rw p (rw f (rw g refl))

    whole_answer : ltb 14972 (length payload) ≡ false → Delivered
    whole_answer e =
        let short : length payload ≤ 14972 = ltb_false→le 14972 (length payload) e in
        let packed =
          pack_udp-first_packet answer_ip answer_udp answer-IsSendable (mtu - length payload) old
            (omega (arith, short)) (omega arith) (omega (arith, short)) (rw e refl) l in
        let part : mtu - (mtu - length payload) ≡ min (length payload) 14972 =
          omega (arith, short) in
        let first = packed ∙ ap (λ m. ret (first_packet answer_ip answer_udp m)) part in
        (
          [],
          last_step answer_packet first (rw e refl),
          rw (append-nil, take_all 14972 payload short) refl,
          inl refl,
        )

    cut_answer : ltb 14972 (length payload) ≡ true → Delivered
    cut_answer e =
        let long : 14972 < length payload = ltb→lt 14972 (length payload) e in
        let packed =
          pack_udp-first_packet answer_ip answer_udp answer-IsSendable 28 old (omega arith)
            (omega arith) (omega (arith, long)) (rw e refl) l in
        let part : 14972 ≡ min (length payload) 14972 = omega (arith, long) in
        let first = packed ∙ ap (λ m. ret (first_packet answer_ip answer_udp m)) part in
        let (frags, gen, joined, are) =
          gen_fragments-delivers answer_packet.ip answer-IsSource pool full (length payload + 1)
            1872 (drop 14972 payload) (omega (arith, length-drop 14972 payload))
            (omega (arith, length-drop 14972 payload, h.fits)) in
        (
          frags,
          further_step answer_packet frags first (rw e refl) gen,
          rw (joined, take-append-drop 14972 payload) refl,
          inr are,
        )

    -- An answer of any length that a datagram can have goes out whole, whatever the buffers held:
    -- one packet with its headers, its lengths and both checksums, and fragments for what the
    -- packet has no room for. The first fragment's offset is 1872, in units of eight bytes.
    pub response_packet-delivers :
        (frags : List IpPacket) × (response_packet id local remote l_port r_port payload old pool
          ≡ ret (answer_packet, frags))
        × (take 14972 payload ++ payloads frags ≡ payload)
        × ((frags ≡ []) ⊎ AreFragments answer_packet.ip 1872 frags)
    response_packet-delivers = elim (Bool-cases (ltb 14972 (length payload))) [
      | inl e ↦ cut_answer e
      | inr e ↦ whole_answer e
    ]
