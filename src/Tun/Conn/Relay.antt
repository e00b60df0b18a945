-- ===== src/Tun/Conn/Relay.antt =====
-- gotun2socks/tun2socks/tcp.go, tcpSocks2Tun: how the two goroutines between a connection and its
-- proxy start. A schedule is a list of moves of them and of the loop; a goroutine that is blocked
-- stays as it is.
pub mod Moves
pub mod Carried
pub mod Writes
pub mod Stream
pub mod Reads
pub mod Delivers
pub mod Runs
pub mod Started
pub mod Refused
pub mod Stuck
use go_game_proxy.Prelude.{
  ℕ, ◌+◌, ◌-◌, Bool, true, false, not, ◌||◌, ◌&&◌, List, [], ◌∷◌, ◌++◌, Bytes, ◌==◌, if◌then◌else◌,
  ltb, min, length, take, drop,
}
use go_game_proxy.Packet.Wire.{Go, ret, panic, ◌>>=◌, close_chan}
use go_game_proxy.Packet.Http.{crlf, auth_line, patch_host}
use go_game_proxy.Tun.Pack.{TcpPacket, mtu}
use go_game_proxy.Socks.{Net, Result, done, failed, Common, ipv4_host, read_common, write_common}
use go_game_proxy.Tun.Conn.{
  ConnectState, connect_not_sent, connect_sent, connect_established, ProxyType, proxy_none,
  proxy_socks, proxy_http, ProxyServer, Conn,
}
use go_game_proxy.Tun.Conn.Handlers.{World, Proxies, is_private, load_uid, is_proxied, is_not_sent}
use go_game_proxy.Tun.Conn.Run.{connect_changed, interfere, read, written}

-- Where the writer stands: at its `select`, behind the CONNECT request, in `recvWndCond.Wait`, before
-- `conn.Write`, or at its end.
pub data WriterAt : Type 0 where
  writer_idle : WriterAt
  writer_holds : TcpPacket → WriterAt
  writer_waits : TcpPacket → WriterAt
  writer_writes : TcpPacket → WriterAt
  writer_gone : WriterAt

-- Where the reader stands: at the head of its loop, at `sendWndCond.L.Lock`, in `sendWndCond.Wait`,
-- woken from it, before `conn.Read` with the window it has loaded, before the broadcast that ends a round,
-- or at its end.
pub data ReaderAt : Type 0 where
  reader_starts : ReaderAt
  reader_locks : ReaderAt
  reader_sleeps : ReaderAt
  reader_woken : ReaderAt
  reader_reads : ℕ → ReaderAt
  reader_turns : ReaderAt
  reader_gone : ReaderAt

-- What the goroutines share. `incoming` is what `writeCh` holds, `written` and `delivered` are what
-- went to `conn.Write` and to `readCh`, in order, and `remote` is what the proxy has still to send.
-- `send_locked` says that the mutex `sendWndCond.L` is held; only the reader locks it.
pub record Relay : Type 0 where
  pub conn : Conn
  pub stopped : Bool
  pub incoming : List TcpPacket
  pub written : List Bytes
  pub remote : Bytes
  pub delivered : List Bytes
  pub close_closed : Bool
  pub socks_open : Bool
  pub send_locked : Bool
  pub writer : WriterAt
  pub reader : ReaderAt

pub data RelayMove : Type 0 where
  -- the writer, and whether its `select` prefers the closed channel to a packet
  writer_moves : Bool → RelayMove
  -- the reader, how many bytes have arrived, and whether `conn.Read` returns an error
  reader_moves : ℕ → Bool → RelayMove
  -- `relayPayload` has handed a packet on
  hand_over : TcpPacket → RelayMove
  -- `updateSendWindow`
  set_window : ℕ → RelayMove
  -- `destroyed` is set, with the two broadcasts of `clearTCPConnTrack`
  clear : RelayMove
  stop_all : RelayMove

-- `callSocks`: whether the request could be written, and the bytes of the reply; the second result
-- says that the error is not nil. For a refused request the error is that of a reply well read.
unfoldable pub hang_up : Bool → Relay → Go (Relay × Bool)
hang_up err s =
    close_chan s.close_closed >>= λ c. ret (record s { socks_open = false; close_closed = c }, err)

unfoldable pub judge_reply : Relay → Result Common → Go (Relay × Bool)
judge_reply s (failed e) = hang_up true s
judge_reply s (done reply) = if reply.flag == 0 then ret (s, false) else hang_up false s

unfoldable pub send_request : Net → Bool → Bytes → Relay → Result Bytes → Go (Relay × Bool)
send_request net sent reply s (failed e) = hang_up true s
send_request net sent reply s (done req) =
    if not sent then hang_up true s else (read_common net reply >>= λ r. judge_reply s r)

unfoldable pub call_socks : Net → Bool → Bytes → Relay → Go (Relay × Bool)
call_socks net sent reply s =
    let request : Common = record {
      flag = 1;
      host_type = ipv4_host;
      host = net.ip_string s.conn.remote_ip;
      port = s.conn.remote_port;
    } in
    write_common net request >>= λ req. send_request net sent reply s req

unfoldable pub is_socks : ProxyType → Bool
is_socks proxy_none = false
is_socks proxy_socks = true
is_socks proxy_http = false

unfoldable pub is_http : ProxyType → Bool
is_http proxy_none = false
is_http proxy_socks = false
is_http proxy_http = true

-- Whether a connection needs a CONNECT request first.
unfoldable pub needs_connect : Conn → Bool
needs_connect c =
    is_http c.proxy_server.proxy_type && ((c.remote_port == 443) && not (is_private c.remote_ip))

-- The goroutines are started, or, on an error of `callSocks`, are not.
unfoldable pub start_goroutines : Relay → Bool → Relay
start_goroutines s true = record s {
  conn = record s.conn { destroyed = true };
  writer = writer_gone;
  reader = reader_gone;
}
start_goroutines s false =
    let c = s.conn in
    record s {
      conn = if needs_connect c then c else record c { connect_state = connect_established };
      writer = writer_idle;
      reader = reader_starts;
    }

-- `tcpSocks2Tun` up to its goroutines.
unfoldable pub tcp_socks_to_tun : World → Proxies → Net → Bool → Bytes → Relay → Go Relay
tcp_socks_to_tun w t2s net sent reply s0 = load_uid w t2s s0.conn.uid s0.conn >>= λ c.
    let s : Relay = record s0 { conn = c } in
    (if is_proxied c && is_socks c.proxy_server.proxy_type
      then call_socks net sent reply s
      else ret (s, false))
    >>= λ (s1, err). ret (start_goroutines s1 err)
