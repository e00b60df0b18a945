-- ===== src/Tun/Datagram.antt =====
-- gotun2socks/tun2socks/udp.go, responsePacket: the packets of an answer. A payload that does not
-- fit one packet is cut, and the rest goes out in fragments.
pub mod Written
pub mod Delivered
use go_game_proxy.Prelude.{
  ℕ, ◌+◌, ◌-◌, Option, none, some, List, [], ◌∷◌, ◌++◌, Bytes, ltb, leb, ◌==◌, if◌then◌else◌,
  length, drop,
}
use go_game_proxy.Packet.Ip4.{
  Ip4, new_ip4, release_ip4, header_length, protocol_udp, pseudo_length, pseudo_header, parse_ip4,
}
use go_game_proxy.Packet.Udp.{Udp, new_udp, release_udp, parse_udp, serialize_udp}
use go_game_proxy.Packet.Wire.{Go, ret, panic, ◌>>=◌, Slice, copy_at}
use go_game_proxy.Tun.Fragments.{IpPacket, gen_fragments}
use go_game_proxy.Tun.Pack.{mtu, pack_ip}
use go_game_proxy.Tun.Pack.Window.{window}

-- `udpPacket`; the buffer behind `wire` belongs to the pool.
pub record UdpPacket : Type 0 where
  pub ip : Ip4
  pub udp : Udp
  pub wire : Bytes

-- `releaseUDPPacket`
abbrev pub release_udp_packet : UdpPacket → UdpPacket
release_udp_packet pkt = record { ip = release_ip4 pkt.ip; udp = release_udp pkt.udp; wire = [] }

-- `copyUDPPacket` to the pooled buffer `old`; the errors of the parsers are not looked at.
unfoldable pub copy_udp_packet : Bytes → Bytes → Go UdpPacket
copy_udp_packet old raw =
    let buf : Slice = record {
      elems = raw;
      spare = if leb (length raw) mtu then drop (length raw) old else [];
    } in
    parse_ip4 buf new_ip4 >>= λ (ip, e1).
    parse_udp ip.payload new_udp >>= λ (udp, e2). ret (record { ip = ip; udp = udp; wire = raw })

-- The IP header of an answer, with the identification that `IPID` returned.
abbrev pub response_ip : ℕ → Bytes → Bytes → ℕ → Ip4
response_ip id local remote len = record new_ip4 {
  version = 4;
  id = id;
  src_ip = remote;
  dst_ip = local;
  ttl = 64;
  protocol = protocol_udp;
  flags = if ltb (mtu - 28) len then 1 else 0;
}

abbrev pub response_udp : ℕ → ℕ → Bytes → Udp
response_udp l_port r_port payload = record new_udp {
  src_port = r_port;
  dst_port = l_port;
  payload = payload;
}

-- Where the payload starts in the buffer.
abbrev pub payload_start : ℕ → ℕ
payload_start len = if ltb (mtu - 28) len then 28 else mtu - len

-- The pseudo header in front of `start`.
unfoldable pub write_pseudo : Ip4 → ℕ → ℕ → Bytes → Go Bytes
write_pseudo ip start len buf =
    window buf (start - pseudo_length) start
      (λ before mid after. pseudo_header ip mid protocol_udp len)
    >>= λ r. ret r.0

-- The UDP header up to `stop`, summed with the pseudo header before it and the whole payload.
unfoldable pub write_udp : Udp → ℕ → ℕ → Bytes → Go (Bytes × Udp)
write_udp udp start stop buf = window buf start stop (λ before mid after.
    serialize_udp udp mid (λ h. (drop (start - pseudo_length) before ++ h) ∷ udp.payload ∷ [])
    >>= λ r. ret (r.0, r.1))

-- The one packet of `responsePacket`.
unfoldable pub pack_udp : Ip4 → Udp → Bytes → Go UdpPacket
pack_udp ip0 udp0 old =
    let len = length udp0.payload in
    let stop = payload_start len in
    let start = stop - 8 in
    write_pseudo ip0 start (8 + len) old >>= λ b1. write_udp udp0 start stop b1 >>= λ (b2, udp1).
    copy_at b2 stop mtu udp0.payload >>= λ b3.
    let (ip1, ip_hl) = header_length ip0 in
    if ltb start ip_hl
    then panic
    else (pack_ip ip1 (start - ip_hl) start (8 + (mtu - stop)) b3 >>= λ (b4, ip2).
        ret (record { ip = ip2; udp = udp1; wire = drop (start - ip_hl) b4 }))

-- `responsePacket`; the fuel of the fragments is the length of the payload, and one more.
unfoldable pub response_packet :
    ℕ → Bytes → Bytes → ℕ → ℕ → Bytes → Bytes → (ℕ → Bytes) → Go (UdpPacket × List IpPacket)
response_packet id local remote l_port r_port payload old pool =
    let len = length payload in
    pack_udp (response_ip id local remote len) (response_udp l_port r_port payload) old >>= λ pkt.
    if pkt.ip.flags == 0
    then ret (pkt, [])
    else (gen_fragments (len + 1) pkt.ip pool 1872 (drop (mtu - 28) payload) >>= λ frags.
        ret (pkt, frags))
