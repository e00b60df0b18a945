-- ===== src/Tun/Conn/Relay/Refused.antt =====
-- tcpSocks2Tun where it goes wrong: a refused SOCKS request, and a window that stays shut.
use go_game_proxy.Prelude.{
  ℕ, min, arith, ◌≡◌, refl, ap, Bool, true, false, not, ◌||◌, ◌&&◌, [], ◌∷◌, Bytes, ◌==◌,
}
use go_game_proxy.Packet.Wire.{ret, panic, close_chan}
use go_game_proxy.Socks.{Net, done, Common, ipv4_host, read_common, write_common}
use go_game_proxy.Tun.Conn.{
  Conn, ProxyType, proxy_none, proxy_socks, proxy_http, connect_established,
}
use go_game_proxy.Tun.Conn.Handlers.{World, Proxies, is_private, load_uid, is_proxied}
use go_game_proxy.Tun.Conn.Relay.{
  Relay, reader_moves, is_socks, is_http, needs_connect, start_goroutines, tcp_socks_to_tun,
  call_socks, send_request, judge_reply, hang_up, writer_idle, reader_starts,
}
use go_game_proxy.Tun.Conn.Relay.Moves.{
  run_relay, relay_move, reader_move, by_window, read_by, read_payload, read_size, reader_exit,
}

-- The request of `call_socks`.
abbrev pub request_of : Net → Conn → Common
request_of net c = record {
  flag = 1;
  host_type = ipv4_host;
  host = net.ip_string c.remote_ip;
  port = c.remote_port;
}

-- The goroutines of a connection whose request was refused.
abbrev pub refused_relay : Conn → Relay → Relay
refused_relay c s = record s {
  conn = record c { connect_state = connect_established };
  socks_open = false;
  close_closed = true;
  writer = writer_idle;
  reader = reader_starts;
}

socks_no_connect : (t : ProxyType) (b : Bool) → is_socks t ≡ true → (is_http t && b) ≡ false
unfolding is_socks is_http
socks_no_connect proxy_none b h = cc
socks_no_connect proxy_socks b h = refl
socks_no_connect proxy_http b h = cc

not_destroyed : (a b : Bool) → (a || b) ≡ false → b ≡ false
not_destroyed true b h = cc
not_destroyed false b h = h

min_zero : (n : ℕ) → min 0 n ≡ 0
min_zero n = omega arith

-- The first read of such a reader.
refused_relay-panics :
    (net : Net) (c : Conn) (s : Relay)
    → (s.stopped || c.destroyed) ≡ false
    → (c.send_window == 0) ≡ false
    → run_relay net (reader_moves 0 false ∷ reader_moves 0 true ∷ []) (refused_relay c s) ≡ panic
unfolding run_relay relay_move reader_move by_window read_by read_payload reader_exit close_chan
refused_relay-panics net c s alive up =
    rw
      (alive, up, not_destroyed s.stopped c.destroyed alive, min_zero (min c.send_window read_size))
      refl

call_socks-refused :
    (net : Net) (s : Relay) (req reply : Bytes) (r : Common)
    → s.close_closed ≡ false
    → write_common net (request_of net s.conn) ≡ ret (done req)
    → read_common net reply ≡ ret (done r)
    → (r.flag == 0) ≡ false
    → call_socks net true reply s
      ≡ ret (record s { socks_open = false; close_closed = true }, false)
unfolding call_socks send_request judge_reply hang_up close_chan
call_socks-refused net s req reply r c wr rd f = rw (wr, rd, f, c) refl

start_goroutines-refused :
    (s : Relay)
    → is_socks s.conn.proxy_server.proxy_type ≡ true
    → start_goroutines (record s { socks_open = false; close_closed = true }) false
      ≡ refused_relay s.conn s
unfolding start_goroutines needs_connect
start_goroutines-refused s p =
    rw
      (socks_no_connect s.conn.proxy_server.proxy_type
        ((s.conn.remote_port == 443) && not (is_private s.conn.remote_ip)) p)
      refl

module _ (w : World) (t2s : Proxies) (net : Net) (s : Relay) (req reply : Bytes) (r : Common)
    (loaded : Conn) where
  -- A SOCKS server that refuses the request counts as one that accepts it: the connection and the
  -- channel are closed, and yet the goroutines are started on an established connection. The
  -- reader's first read fails, and closing the channel once more is a panic.
  pub tcp_socks_to_tun-refused :
      load_uid w t2s s.conn.uid s.conn ≡ ret loaded
      → is_proxied loaded ≡ true
      → is_socks loaded.proxy_server.proxy_type ≡ true
      → s.close_closed ≡ false
      → write_common net (request_of net loaded) ≡ ret (done req)
      → read_common net reply ≡ ret (done r)
      → (r.flag == 0) ≡ false
      → (s.stopped || loaded.destroyed) ≡ false
      → (loaded.send_window == 0) ≡ false
      → (tcp_socks_to_tun w t2s net true reply s ≡ ret (refused_relay loaded s))
        × (run_relay net (reader_moves 0 false ∷ reader_moves 0 true ∷ []) (refused_relay loaded s)
            ≡ panic)
  unfolding tcp_socks_to_tun
  tcp_socks_to_tun-refused ld x p c wr rd f alive up = (
    rw (ld, x, p, call_socks-refused net (record s { conn = loaded }) req reply r c wr rd f)
        (ap ret (start_goroutines-refused (record s { conn = loaded }) p)),
    refused_relay-panics net loaded s alive up,
  )
