-- ===== src/Tun/Pack.antt =====
-- gotun2socks/tun2socks/tcp.go, packTCP: a segment is laid out from the end of a pooled buffer,
-- the payload last. The pool hands out a buffer with whatever its last user left in it.
pub mod Window
pub mod Laws
use go_game_proxy.Prelude.{
  ℕ, ◌+◌, ◌-◌, Option, none, some, List, [], ◌∷◌, ◌++◌, Bytes, ltb, ◌==◌, if◌then◌else◌, length,
  drop,
}
use go_game_proxy.Packet.Ip4.{
  Ip4, protocol_tcp, pseudo_header, header_length, serialize_ip4, pseudo_length, release_ip4,
}
use go_game_proxy.Packet.Tcp.{Tcp, release_tcp}
use go_game_proxy.Packet.Tcp
use go_game_proxy.Packet.Wire.{Go, ret, panic, ◌>>=◌, cut_at, copy_at}
use Window.{window}

abbrev pub mtu : ℕ
mtu = 15000

-- `tcpPacket`; the buffer behind `wire` belongs to the pool.
pub record TcpPacket : Type 0 where
  pub ip : Ip4
  pub tcp : Tcp
  pub wire : Bytes

-- `releaseTCPPacket`
abbrev pub release_packet : TcpPacket → TcpPacket
release_packet pkt = record { ip = release_ip4 pkt.ip; tcp = release_tcp pkt.tcp; wire = [] }

-- The pseudo header, on bytes `[start - 12, start)` of the buffer.
unfoldable pub pack_pseudo : Ip4 → ℕ → ℕ → Bytes → Go Bytes
pack_pseudo ip start len buf =
    window buf (start - pseudo_length) start
      (λ before mid after. pseudo_header ip mid protocol_tcp len)
    >>= λ r. ret r.0

-- The TCP header up to `stop`, summed with the pseudo header before it and all that follows.
unfoldable pub pack_header : Tcp → ℕ → ℕ → Bytes → Go (Bytes × Tcp)
pack_header tcp start stop buf = window buf start stop (λ before mid after.
    Tcp.serialize_tcp tcp mid (λ h. (drop (start - pseudo_length) before ++ (h ++ after)) ∷ [])
    >>= λ r. ret (r.0, r.1))

-- The IP header in front of `stop`.
unfoldable pub pack_ip : Ip4 → ℕ → ℕ → ℕ → Bytes → Go (Bytes × Ip4)
pack_ip ip start stop len buf =
    window buf start stop (λ before mid after. serialize_ip4 ip mid len >>= λ r. ret (r.0, r.1))

-- `packTCP` on the buffer `old`. Where an offset would be negative the slices panic.
unfoldable pub pack_tcp : Ip4 → Tcp → Bytes → Go TcpPacket
pack_tcp ip0 tcp0 old =
    let len = length tcp0.payload in
    let (tcp1, tcp_hl) = Tcp.header_length tcp0 in
    let (ip1, ip_hl) = header_length ip0 in
    let tcp_start = mtu - len - tcp_hl in
    if ltb mtu (len + tcp_hl + pseudo_length)
    then panic
    else if ltb mtu (len + tcp_hl + ip_hl)
    then panic
    else (copy_at old (mtu - len) mtu tcp0.payload >>= λ b1.
        pack_pseudo ip0 tcp_start (tcp_hl + len) b1 >>= λ b2.
        pack_header tcp1 tcp_start (mtu - len) b2 >>= λ (b3, tcp2).
        pack_ip ip1 (tcp_start - ip_hl) tcp_start (tcp_hl + len) b3 >>= λ (b4, ip2).
        ret (record { ip = ip2; tcp = tcp2; wire = drop (tcp_start - ip_hl) b4 }))
