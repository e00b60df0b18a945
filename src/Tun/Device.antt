-- ===== src/Tun/Device.antt =====
-- gotun2socks/tun2socks/tun2socks.go, Run: the reader, which takes packets from the device to the
-- connections, and the writer, which takes what they send to the device.
use go_game_proxy.Prelude.{
  Bool, not, ◌||◌, Option, none, some, List, [], ◌∷◌, Bytes, ◌==◌, if◌then◌else◌, length, bit_and,
}
use go_game_proxy.Packet.Ip4.{Ip4, parse_ip4, protocol_tcp, protocol_udp}
use go_game_proxy.Packet.Tcp.{Tcp, Names, parse_tcp}
use go_game_proxy.Packet.Udp.{Udp, parse_udp}
use go_game_proxy.Packet.Wire.{Go, ret, panic, ◌>>=◌, Error, Slice}
use go_game_proxy.Tun.Datagram.{UdpPacket, release_udp_packet}
use go_game_proxy.Tun.Fragments.{IpPacket, release_ip_packet, Collected, Progress, proc_fragment}
use go_game_proxy.Tun.Pack.{TcpPacket, release_packet}

-- What goes through `writeCh`.
pub data Outgoing : Type 0 where
  tcp_out : TcpPacket → Outgoing
  udp_out : UdpPacket → Outgoing
  ip_out : IpPacket → Outgoing

-- A case of the writer's `select`.
pub data WriterEvent : Type 0 where
  sent : Outgoing → WriterEvent
  writer_stop : WriterEvent

-- The bytes of a packet for the device, and the packet as it goes back to its pool.
unfoldable pub write_out : Outgoing → Bytes × Outgoing
write_out (tcp_out p) = (p.wire, tcp_out (release_packet p))
write_out (udp_out p) = (p.wire, udp_out (release_udp_packet p))
write_out (ip_out p) = (p.wire, ip_out (release_ip_packet p))

-- The writer: the packets that the device gets, and those that go back, until it is stopped.
unfoldable pub run_writer : List WriterEvent → List (Bytes × Outgoing)
run_writer [] = []
run_writer (sent p ∷ events) = write_out p ∷ run_writer events
run_writer (writer_stop ∷ events) = []

-- The variables of the reader, which are used again for every packet, and the map of fragments.
pub record Reader : Type 0 where
  pub ip : Ip4
  pub tcp : Tcp
  pub udp : Udp
  pub frags : Collected

-- What a read of the device comes to.
pub data Taken : Type 0 where
  reader_gone : Taken
  skipped : Taken
  to_tcp : Bytes → Ip4 → Tcp → Taken
  to_udp : Bytes → Ip4 → Udp → Taken

-- A read: whether the tunnel has been stopped, whether it failed, the bytes, and the buffer behind
-- them; `grown` is the capacity that `append` leaves behind fragments that are put together.
pub record Read : Type 0 where
  pub stopped : Bool
  pub read_failed : Bool
  pub bytes : Slice
  pub grown : Bytes

-- The handlers of a TCP segment and of a datagram, if it can be parsed.
unfoldable pub hand_tcp : Reader → Bytes → Tcp × Option Error → Go (Reader × Taken)
hand_tcp r raw (tcp, none) = ret (record r { tcp = tcp }, to_tcp raw r.ip tcp)
hand_tcp r raw (tcp, some e) = ret (record r { tcp = tcp }, skipped)

unfoldable pub hand_udp : Reader → Bytes → Udp × Option Error → Go (Reader × Taken)
hand_udp r raw (udp, none) = ret (record r { udp = udp }, to_udp raw r.ip udp)
hand_udp r raw (udp, some e) = ret (record r { udp = udp }, skipped)

-- The `switch` on the protocol.
unfoldable pub by_protocol : Names → Reader → Bytes → Go (Reader × Taken)
by_protocol names r raw =
    let segment = parse_tcp names r.ip.payload r.tcp >>= λ p. hand_tcp r raw p in
    let datagram = parse_udp r.ip.payload r.udp >>= λ p. hand_udp r raw p in
    if r.ip.protocol == protocol_tcp
    then segment
    else if r.ip.protocol == protocol_udp
    then datagram
    else ret (r, skipped)

-- A fragment: on with the whole packet once the last one is there. `*pkt` of a nil pointer panics.
unfoldable pub after_fragment : Names → Reader → Progress → Go (Reader × Taken)
after_fragment names r p =
    if p.last
    then elim p.packet [
      | none ↦ panic
      | some pkt ↦ by_protocol names (record r { ip = pkt.ip }) pkt.wire
    ]
    else ret (r, skipped)

abbrev pub is_fragment : Ip4 → Bool
is_fragment ip = not (bit_and ip.flags 1 == 0) || not (ip.frag_offset == 0)

-- A packet whose IP header has been parsed.
unfoldable pub take_packet : Names → Reader → Read → Option Error → Go (Reader × Taken)
take_packet names r input (some e) = ret (r, skipped)
take_packet names r input none =
    let joined = proc_fragment r.frags r.ip input.bytes.elems input.grown >>= λ (frags, p).
    after_fragment names (record r { frags = frags }) p in
    if is_fragment r.ip then joined else by_protocol names r input.bytes.elems

-- A turn of the reader's loop.
unfoldable pub read_turn : Names → Reader → Read → Go (Reader × Taken)
read_turn names r input =
    if input.stopped
    then ret (r, reader_gone)
    else if length input.bytes.elems == 0
    then ret (r, skipped)
    else if input.read_failed
    then ret (r, reader_gone)
    else (parse_ip4 input.bytes r.ip >>= λ (ip, e).
        take_packet names (record r { ip = ip }) input e)
