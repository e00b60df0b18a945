-- ===== src/Tun/Conn.antt =====
-- gotun2socks/tun2socks/tcp.go: one tracked TCP connection and the segments that it sends. What it
-- does to the outside is a list of effects. A segment is the pair of headers given to `packTCP`.
pub mod Handlers
pub mod Run
pub mod Watch
pub mod Sequence
pub mod Relayed
pub mod Track
pub mod Dispatch
pub mod Diagram
pub mod Returns
pub mod Relay
pub mod Flood
use go_game_proxy.Prelude.{
  ℕ, ◌+◌, ◌-◌, ◌/◌, Bool, true, false, ◌||◌, ◌&&◌, Option, none, some, List, [], ◌∷◌, Bytes, ◌==◌,
  if◌then◌else◌, u16, u32, length,
}
use go_game_proxy.Packet.Ip4.{Ip4, new_ip4, protocol_tcp}
use go_game_proxy.Packet.Tcp.{Tcp, TcpOption, new_tcp}
use go_game_proxy.Tun.Pack.{TcpPacket}

pub data TcpState : Type 0 where
  closed : TcpState
  syn_rcvd : TcpState
  established : TcpState
  fin_wait_1 : TcpState
  fin_wait_2 : TcpState
  closing : TcpState
  last_ack : TcpState
  time_wait : TcpState

pub data ConnectState : Type 0 where
  connect_not_sent : ConnectState
  connect_sent : ConnectState
  connect_established : ConnectState

pub data ProxyType : Type 0 where
  proxy_none : ProxyType
  proxy_socks : ProxyType
  proxy_http : ProxyType

-- `ProxyServer`; the login and the password only reach the dialer.
pub record ProxyServer : Type 0 where
  pub proxy_type : ProxyType
  pub ip_address : Bytes
  pub auth_header : Bytes

abbrev pub max_recv_window : ℕ
max_recv_window = 65535

abbrev pub max_send_window : ℕ
max_send_window = 65535

-- `tcpConnTrack`. Times are nanoseconds; `uid` is `none` for -1; `has_socks` says that `socksConn`
-- is not nil; the channels are the effects and the events.
pub record Conn : Type 0 where
  pub state : TcpState
  pub nxt_seq : ℕ
  pub rcv_nxt_seq : ℕ
  pub acked : ℕ
  pub recv_window : ℕ
  pub send_window : ℕ
  pub destroyed : Bool
  pub connect_state : ConnectState
  pub has_socks : Bool
  pub last_packet_time : ℕ
  pub local_ip : Bytes
  pub remote_ip : Bytes
  pub local_port : ℕ
  pub remote_port : ℕ
  pub uid : Option ℕ
  pub proxy_server : ProxyServer

-- Where `stateClosed` connects to.
pub data Route : Type 0 where
  via_socks : ProxyServer → Route
  via_http : ProxyServer → Route
  direct : Bytes → ℕ → Route

pub data Effect : Type 0 where
  -- a packet on `toTunCh`, for `packTCP` of these headers
  segment : Ip4 → Tcp → Effect
  -- the bytes of that packet on `toTunCh`
  raw_bytes : Ip4 → Tcp → Effect
  to_socks : TcpPacket → Effect
  dial : Route → Effect
  connect_request : Bytes → Bytes → Effect
  start_relay : Effect
  close_socks : Effect
  clear_track : Effect

-- `rst`, with the identification that `IPID` returned.
unfoldable pub rst_headers : ℕ → Bytes → Bytes → ℕ → ℕ → ℕ → ℕ → ℕ → Ip4 × Tcp
rst_headers id src_ip dst_ip src_port dst_port seq ack payload_len =
    let sum = u32 (seq + payload_len) in
    (
      record new_ip4 {
        version = 4;
        id = id;
        dst_ip = src_ip;
        src_ip = dst_ip;
        ttl = 64;
        protocol = protocol_tcp;
      },
      record new_tcp {
        dst_port = src_port;
        src_port = dst_port;
        window = u16 max_recv_window;
        rst = true;
        ack_flag = true;
        ack = if sum == seq then u32 (sum + 1) else sum;
        seq = if ack == 0 then 0 else ack;
      },
    )

-- `rstByPacket`
abbrev pub rst_by_packet : ℕ → TcpPacket → Ip4 × Tcp
rst_by_packet id pkt =
    rst_headers id pkt.ip.src_ip pkt.ip.dst_ip pkt.tcp.src_port pkt.tcp.dst_port pkt.tcp.seq
      pkt.tcp.ack (u32 (length pkt.tcp.payload))

abbrev pub change_state : Conn → TcpState → Conn
change_state c nxt = record c { state = nxt }

unfoldable pub valid_ack : Conn → TcpPacket → Bool
valid_ack c pkt = pkt.tcp.ack == c.nxt_seq

unfoldable pub valid_seq : Conn → TcpPacket → Bool
valid_seq c pkt = pkt.tcp.seq == c.rcv_nxt_seq

-- `relayPayload`; `accepted` says that the `select` took the first case.
unfoldable pub relay_payload : Bool → Conn → TcpPacket → Conn × List Effect × Bool
relay_payload true c pkt =
    let len = length pkt.tcp.payload in
    (
      record c { rcv_nxt_seq = u32 (c.rcv_nxt_seq + len); recv_window = c.recv_window - len },
      to_socks pkt ∷ [],
      true,
    )
relay_payload false c pkt = (c, [], false)

-- The IP header of every segment of the connection.
abbrev pub reply_ip : ℕ → Conn → Ip4
reply_ip id c = record new_ip4 {
  version = 4;
  id = id;
  src_ip = c.remote_ip;
  dst_ip = c.local_ip;
  ttl = 64;
  protocol = protocol_tcp;
}

-- What the TCP headers of `synAck`, `finAck`, `ack` and `payload` share.
abbrev pub reply_tcp : Conn → Tcp
reply_tcp c = record new_tcp {
  src_port = c.remote_port;
  dst_port = c.local_port;
  window = u16 c.recv_window;
  ack_flag = true;
  seq = c.nxt_seq;
  ack = c.rcv_nxt_seq;
}

-- `send`
unfoldable pub send : Conn → Ip4 → Tcp → Conn × List Effect
send c ip tcp = (if tcp.ack_flag then record c { acked = tcp.ack } else c, segment ip tcp ∷ [])

abbrev pub mss_option : TcpOption
mss_option = record { option_type = 2; option_length = 4; option_data = 5 ∷ 180 ∷ [] }

-- `synAck`
unfoldable pub syn_ack : ℕ → Conn → Conn × List Effect
syn_ack id c =
    let (c1, out) =
      send c (reply_ip id c) (record (reply_tcp c) { syn = true; options = mss_option ∷ [] }) in
    (record c1 { nxt_seq = u32 (c1.nxt_seq + 1) }, out)

-- `finAck`
unfoldable pub fin_ack : ℕ → Conn → Conn × List Effect
fin_ack id c =
    let (c1, out) = send c (reply_ip id c) (record (reply_tcp c) { fin = true }) in
    (record c1 { nxt_seq = u32 (c1.nxt_seq + 1) }, out)

-- `ack`
unfoldable pub send_ack : ℕ → Conn → Conn × List Effect
send_ack id c = send c (reply_ip id c) (reply_tcp c)

-- `payload`
unfoldable pub send_payload : ℕ → Bytes → Conn → Conn × List Effect
send_payload id bytes c =
    let (c1, out) = send c (reply_ip id c) (record (reply_tcp c) { psh = true; payload = bytes }) in
    (record c1 { nxt_seq = u32 (c1.nxt_seq + length bytes) }, out)
