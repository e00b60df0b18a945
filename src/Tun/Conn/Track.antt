-- ===== src/Tun/Conn/Track.antt =====
-- gotun2socks/tun2socks/tcp.go, tcp and createTCPConnTrack: a packet from the device goes to its
-- connection, opens one, or is answered with a reset. `tcpConnTrackMap` is an association list.
pub mod Keys
use go_game_proxy.Prelude.Bytes.{same_bytes}
use go_game_proxy.Prelude.{
  ℕ, Bool, true, false, ◌&&◌, Option, none, some, List, [], ◌∷◌, Bytes, ◌==◌, leb, u32, length,
  drop, if◌then◌else◌,
}
use go_game_proxy.Packet.Wire.{Go, ret, ◌>>=◌, Slice}
use go_game_proxy.Packet.Ip4.{Ip4, new_ip4, parse_ip4}
use go_game_proxy.Packet.Tcp.{Tcp, Names, new_tcp, parse_tcp}
use go_game_proxy.Tun.Pack.{TcpPacket, mtu}
use go_game_proxy.Tun.Conn.{
  closed, connect_not_sent, ProxyServer, Conn, max_recv_window, max_send_window, rst_headers,
}
use go_game_proxy.Tun.Conn.Handlers.{World, Proxies, choose_proxy}

-- The four parts that `tcpConnID` joins.
pub record ConnId : Type 0 where
  pub src_ip : Bytes
  pub src_port : ℕ
  pub dst_ip : Bytes
  pub dst_port : ℕ

-- `tcpConnID`
abbrev pub conn_id : Ip4 → Tcp → ConnId
conn_id ip tcp = record {
  src_ip = ip.src_ip;
  src_port = tcp.src_port;
  dst_ip = ip.dst_ip;
  dst_port = tcp.dst_port;
}

unfoldable pub same_id : ConnId → ConnId → Bool
same_id a b =
    same_bytes a.src_ip b.src_ip
    && ((a.src_port == b.src_port) && (same_bytes a.dst_ip b.dst_ip && (a.dst_port == b.dst_port)))

-- `getTCPConnTrack`
unfoldable pub get_track : ConnId → List (ConnId × Conn) → Option Conn
get_track id [] = none
get_track id ((key, c) ∷ rest) = elim (same_id id key) [ true ↦ some c | false ↦ get_track id rest ]

-- The entry that `tcp` uses: not one whose connection is on its way out.
unfoldable pub live_track : Option Conn → Option Conn
live_track none = none
live_track (some c) = if c.destroyed then none else some c

-- `copyTCPPacket` to the pooled buffer `old`; the errors of the parsers are not looked at.
unfoldable pub copy_packet : Names → Bytes → Bytes → Go TcpPacket
copy_packet names old raw =
    let buf : Slice = record {
      elems = raw;
      spare = if leb (length raw) mtu then drop (length raw) old else [];
    } in
    parse_ip4 buf new_ip4 >>= λ (ip, e1). parse_tcp names ip.payload new_tcp >>= λ (tcp, e2).
    ret (record { ip = ip; tcp = tcp; wire = raw })

-- A connection as `createTCPConnTrack` puts it into the map, with its proxy.
abbrev pub new_conn : World → Ip4 → Tcp → ProxyServer → Conn
new_conn w ip tcp p = record {
  state = closed;
  nxt_seq = 0;
  rcv_nxt_seq = 0;
  acked = 0;
  recv_window = max_recv_window;
  send_window = max_send_window;
  destroyed = false;
  connect_state = connect_not_sent;
  has_socks = false;
  last_packet_time = w.now;
  local_ip = ip.src_ip;
  remote_ip = ip.dst_ip;
  local_port = tcp.src_port;
  remote_port = tcp.dst_port;
  uid = w.found_uid;
  proxy_server = p;
}

-- `createTCPConnTrack`, whose `loadProxyConfig` finds the proxy.
unfoldable pub create_track : World → Proxies → Ip4 → Tcp → Go Conn
create_track w t2s ip tcp =
    choose_proxy (t2s.proxy_of w.found_uid) t2s.default_proxy >>= λ p. ret (new_conn w ip tcp p)

-- What becomes of a packet from the device.
pub data Dispatch : Type 0 where
  dropped : Dispatch
  reset : Ip4 → Tcp → Dispatch
  delivered : ConnId → TcpPacket → Dispatch
  opened : ConnId → Conn → TcpPacket → Dispatch

unfoldable pub open_track : World → Proxies → Names → Bytes → Bytes → Ip4 → Tcp → Go Dispatch
open_track w t2s names old raw ip tcp = copy_packet names old raw >>= λ pkt.
    create_track w t2s ip tcp >>= λ c. ret (opened (conn_id ip tcp) c pkt)

unfoldable pub without_track : World → Proxies → Names → Bytes → Bytes → Ip4 → Tcp → Go Dispatch
without_track w t2s names old raw ip tcp =
    if tcp.rst
    then ret dropped
    else if tcp.syn
    then open_track w t2s names old raw ip tcp
    else (let (riph, rtcph) =
          rst_headers w.ip_id ip.src_ip ip.dst_ip tcp.src_port tcp.dst_port tcp.seq tcp.ack
            (u32 (length tcp.payload)) in
        ret (reset riph rtcph))

unfoldable pub with_track :
    Option Conn → World → Proxies → Names → Bytes → Bytes → Ip4 → Tcp → Go Dispatch
with_track none w t2s names old raw ip tcp = without_track w t2s names old raw ip tcp
with_track (some c) w t2s names old raw ip tcp =
    copy_packet names old raw >>= λ pkt. ret (delivered (conn_id ip tcp) pkt)

-- `tcp`
unfoldable pub dispatch :
    World → Proxies → Names → List (ConnId × Conn) → Bytes → Bytes → Ip4 → Tcp → Go Dispatch
dispatch w t2s names tracks old raw ip tcp =
    with_track (live_track (get_track (conn_id ip tcp) tracks)) w t2s names old raw ip tcp
