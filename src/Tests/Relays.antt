-- ===== src/Tests/Relays.antt =====
-- gotun2socks/tun2socks/tcp.go: a connection to an HTTP proxy on port 443, and a SOCKS proxy that
-- refuses.
use go_game_proxy.Prelude.{◌≡◌, refl, All, true, false, none, some, List, [], ◌∷◌, Bytes, arith}
use go_game_proxy.Packet.Wire.{OnReturn, ret, panic, close_chan}
use go_game_proxy.Packet.Ip4.{new_ip4}
use go_game_proxy.Packet.Tcp.{new_tcp}
use go_game_proxy.Socks.{
  write_common, write_packed, pack_host, or_invalid, read_common, read_message, read_host,
  read_ip_host, read_full, read_port,
}
use go_game_proxy.Tun.Pack.{TcpPacket}
use go_game_proxy.Tun.Conn.{
  established, proxy_none, proxy_http, proxy_socks, ProxyType, ProxyServer, Conn, max_recv_window,
  connect_sent, connect_not_sent,
}
use go_game_proxy.Tun.Conn.Handlers.{
  World, Proxies, connected, is_private, load_uid, is_not_sent, is_proxied,
}
use go_game_proxy.Tun.Conn.Run.{interfere}
use go_game_proxy.Tun.Conn.Relay.{
  Relay, RelayMove, writer_moves, reader_moves, hand_over, set_window, clear, start_goroutines,
  writer_gone, reader_gone, needs_connect, reader_sleeps, is_http, is_socks, tcp_socks_to_tun,
}
use go_game_proxy.Tun.Conn.Relay.Moves.{
  run_relay, connect_bytes, relay_move, writer_move, writer_select, take_pending, name_host,
  is_open, outgoing, wake_writer, reader_move, by_window, read_by, read_payload, reader_exit,
}
use go_game_proxy.Tun.Conn.Relay.Carried.{IsCarried}
use go_game_proxy.Tun.Conn.Relay.Stream.{IsStream}
use go_game_proxy.Tun.Conn.Relay.Started.{IsUnused, IsPayload, run_relay-IsCarried}
use go_game_proxy.Tun.Conn.Relay.Refused.{refused_relay, tcp_socks_to_tun-refused}
use go_game_proxy.Tun.Conn.Relay.Stuck.{IsStuck, zero_window-IsStuck}
use go_game_proxy.Tests.Messages.{plain_net}

abbrev proxy_of_type : ProxyType → ProxyServer
proxy_of_type t = record { proxy_type = t; ip_address = []; auth_header = b'k' ∷ [] }

abbrev conn_through : ProxyType → Conn
conn_through t = record {
  state = established;
  nxt_seq = 2;
  rcv_nxt_seq = 1001;
  acked = 1001;
  recv_window = max_recv_window;
  send_window = 4000;
  destroyed = false;
  connect_state = connect_not_sent;
  has_socks = true;
  last_packet_time = 0;
  local_ip = 10 ∷ 0 ∷ 0 ∷ 2 ∷ [];
  remote_ip = 9 ∷ 9 ∷ 9 ∷ 9 ∷ [];
  local_port = 50000;
  remote_port = 443;
  uid = some 10;
  proxy_server = proxy_of_type t;
}

abbrev relay_of : Conn → Bytes → Relay
relay_of c remote = record {
  conn = c;
  stopped = false;
  incoming = [];
  written = [];
  remote = remote;
  delivered = [];
  close_closed = false;
  socks_open = true;
  send_locked = false;
  writer = writer_gone;
  reader = reader_gone;
}

abbrev https_relay : Relay
https_relay = relay_of (conn_through proxy_http) (50 ∷ 48 ∷ 48 ∷ 7 ∷ 8 ∷ [])

abbrev hello : TcpPacket
hello = record {
  ip = new_ip4;
  tcp = record new_tcp { dst_port = 443; hostname = b'a' ∷ []; payload = 22 ∷ 3 ∷ [] };
  wire = [];
}

-- The proxy answers in three bytes and sends two more.
abbrev schedule : List RelayMove
schedule =
    hand_over hello
    ∷ writer_moves false
    ∷ writer_moves false
    ∷ reader_moves 0 false
    ∷ reader_moves 3 false
    ∷ writer_moves false
    ∷ reader_moves 0 false
    ∷ reader_moves 0 false
    ∷ reader_moves 9 true
    ∷ writer_moves true
    ∷ []

https_relay-IsUnused : IsUnused https_relay
https_relay-IsUnused = record {
  connect_unsent = refl;
  nothing_handed = refl;
  nothing_written = refl;
  nothing_delivered = refl;
  channel_open = refl;
  window_fits = omega arith;
}

run_relay-IsCarried_example :
    (s : Relay) × (run_relay plain_net schedule (start_goroutines https_relay false) ≡ ret s)
    × IsCarried plain_net https_relay.conn.remote_ip https_relay.conn.proxy_server
        (needs_connect https_relay.conn)
        (λ pkt. pkt.tcp.payload)
        (hello ∷ [])
        s
    × IsStream (needs_connect https_relay.conn) https_relay.remote s
    × All
        (IsPayload plain_net https_relay https_relay-IsUnused (λ pkt. pkt.tcp.payload))
        (hello ∷ [])
unfolding outgoing is_http name_host
run_relay-IsCarried_example =
    run_relay-IsCarried plain_net https_relay https_relay-IsUnused (λ pkt. pkt.tcp.payload) schedule
      ((refl, λ _. refl), tt)

-- The bytes of that run: the CONNECT request, the payload, and what came behind the answer.
https_bytes :
    (s : Relay) × (run_relay plain_net schedule (start_goroutines https_relay false) ≡ ret s)
    × (s.written ≡ connect_bytes (b'a' ∷ []) (b'k' ∷ []) ∷ (22 ∷ 3 ∷ []) ∷ [])
    × (s.delivered ≡ (7 ∷ 8 ∷ []) ∷ [])
    × (s.close_closed ≡ true)
unfolding run_relay relay_move writer_move writer_select take_pending name_host is_not_sent is_http
    is_open outgoing interfere wake_writer reader_move by_window read_by read_payload reader_exit
    close_chan start_goroutines needs_connect is_private
https_bytes = (_, refl, refl, refl, refl)

-- A broadcast of the reader from before the CONNECT request wakes the writer before the answer.
abbrev early : List RelayMove
early =
    reader_moves 0 false
    ∷ reader_moves 0 false
    ∷ hand_over hello
    ∷ writer_moves false
    ∷ writer_moves false
    ∷ reader_moves 0 false
    ∷ writer_moves false
    ∷ []

early_payload :
    (s : Relay) × (run_relay plain_net early (start_goroutines https_relay false) ≡ ret s)
    × (s.written ≡ connect_bytes (b'a' ∷ []) (b'k' ∷ []) ∷ (22 ∷ 3 ∷ []) ∷ [])
    × (s.conn.connect_state ≡ connect_sent)
unfolding run_relay relay_move writer_move writer_select take_pending name_host is_not_sent is_http
    is_open outgoing interfere wake_writer reader_move by_window read_by read_payload reader_exit
    close_chan start_goroutines needs_connect is_private
early_payload = (_, refl, refl, refl)

abbrev socks_relay : Relay
socks_relay = relay_of (conn_through proxy_socks) []

abbrev no_proxies : Proxies
no_proxies = record { proxy_of = λ _. none; default_proxy = some (proxy_of_type proxy_none) }

abbrev world : World
world = record { ip_id = 1; now = 0; found_uid = none; dialled = connected; accepted = true }

abbrev refusal : Bytes
refusal = 5 ∷ 5 ∷ 0 ∷ 1 ∷ 0 ∷ 0 ∷ 0 ∷ 0 ∷ 0 ∷ 0 ∷ []

tcp_socks_to_tun-refused_example :
    (tcp_socks_to_tun world no_proxies plain_net true refusal socks_relay
      ≡ ret (refused_relay socks_relay.conn socks_relay))
    × (run_relay plain_net
          (reader_moves 0 false ∷ reader_moves 0 true ∷ [])
          (refused_relay socks_relay.conn socks_relay)
        ≡ panic)
unfolding load_uid is_proxied is_private is_socks write_common write_packed pack_host or_invalid
    read_common read_message read_host read_ip_host read_full read_port
tcp_socks_to_tun-refused_example =
    tcp_socks_to_tun-refused world no_proxies plain_net socks_relay _ refusal _ socks_relay.conn
      refl refl refl refl refl refl refl refl refl

abbrev asleep : Relay
asleep = record (relay_of (record (conn_through proxy_none) { send_window = 0 }) []) {
  reader = reader_sleeps;
}

zero_window-IsStuck_example :
    OnReturn (IsStuck []) (
      run_relay plain_net
        (set_window 0 ∷ reader_moves 0 false ∷ set_window 500 ∷ clear ∷ [])
        asleep)
zero_window-IsStuck_example =
    zero_window-IsStuck plain_net 0 false (set_window 500 ∷ clear ∷ []) asleep refl refl
