-- ===== src/Tun/Conn/Relay/Moves.antt =====
-- gotun2socks/tun2socks/tcp.go, tcpSocks2Tun: the moves of its writer and its reader.
use go_game_proxy.Prelude.{
  ℕ, ◌-◌, Bool, true, false, not, ◌||◌, ◌&&◌, List, [], ◌∷◌, ◌++◌, Bytes, ◌==◌, if◌then◌else◌, min,
  length, take, drop,
}
use go_game_proxy.Packet.Wire.{Go, ret, ◌>>=◌, close_chan}
use go_game_proxy.Packet.Http.{crlf, auth_line, patch_host}
use go_game_proxy.Tun.Pack.{TcpPacket, mtu}
use go_game_proxy.Socks.{Net}
use go_game_proxy.Tun.Conn.{
  ConnectState, connect_not_sent, connect_sent, connect_established, ProxyServer,
}
use go_game_proxy.Tun.Conn.Handlers.{is_not_sent}
use go_game_proxy.Tun.Conn.Run.{connect_changed, interfere, read, written}
use go_game_proxy.Tun.Conn.Relay.{
  WriterAt, writer_idle, writer_holds, writer_waits, writer_writes, writer_gone, ReaderAt,
  reader_starts, reader_locks, reader_sleeps, reader_woken, reader_reads, reader_turns, reader_gone,
  Relay, RelayMove, writer_moves, reader_moves, hand_over, set_window, clear, stop_all, is_http,
}

abbrev pub connect_word : Bytes
connect_word = b'C' ∷ b'O' ∷ b'N' ∷ b'N' ∷ b'E' ∷ b'C' ∷ b'T' ∷ b' ' ∷ []

abbrev pub connect_version : Bytes
connect_version =
    b':' ∷ b'4' ∷ b'4' ∷ b'3' ∷ b' ' ∷ b'H' ∷ b'T' ∷ b'T' ∷ b'P' ∷ b'/' ∷ b'1' ∷ b'.' ∷ b'1' ∷ crlf

abbrev pub connection_close : Bytes
connection_close =
    b'C'
    ∷ b'o'
    ∷ b'n'
    ∷ b'n'
    ∷ b'e'
    ∷ b'c'
    ∷ b't'
    ∷ b'i'
    ∷ b'o'
    ∷ b'n'
    ∷ b':'
    ∷ b' '
    ∷ b'c'
    ∷ b'l'
    ∷ b'o'
    ∷ b's'
    ∷ b'e'
    ∷ (crlf ++ crlf)

-- The request of `callHttpProxyConnect`.
unfoldable pub connect_bytes : Bytes → Bytes → Bytes
connect_bytes hostname auth =
    connect_word ++ (hostname ++ (connect_version ++ (auth_line auth ++ connection_close)))

-- The packet whose empty host name `callHttpProxyConnect` replaces.
unfoldable pub name_host : Net → Bytes → TcpPacket → TcpPacket
name_host net dst pkt =
    if length pkt.tcp.hostname == 0
    then record pkt { tcp = record pkt.tcp { hostname = net.ip_string dst } }
    else pkt

-- What the writer hands to `conn.Write` for a packet.
unfoldable pub outgoing : ProxyServer → TcpPacket → Go Bytes
outgoing p pkt =
    if is_http p.proxy_type && not (pkt.tcp.dst_port == 443)
    then patch_host pkt.tcp.dst_port pkt.tcp.payload pkt.tcp.hostname p.auth_header
    else ret pkt.tcp.payload

unfoldable pub is_open : ConnectState → Bool
is_open connect_not_sent = false
is_open connect_sent = false
is_open connect_established = true

-- `recvWndCond.Broadcast`
unfoldable pub wake_writer : WriterAt → WriterAt
wake_writer (writer_waits pkt) = writer_writes pkt
wake_writer writer_idle = writer_idle
wake_writer (writer_holds pkt) = writer_holds pkt
wake_writer (writer_writes pkt) = writer_writes pkt
wake_writer writer_gone = writer_gone

-- `sendWndCond.Signal` and `sendWndCond.Broadcast`
unfoldable pub wake_reader : ReaderAt → ReaderAt
wake_reader reader_sleeps = reader_woken
wake_reader reader_starts = reader_starts
wake_reader reader_woken = reader_woken
wake_reader reader_locks = reader_locks
wake_reader (reader_reads wnd) = reader_reads wnd
wake_reader reader_turns = reader_turns
wake_reader reader_gone = reader_gone

-- A packet is taken from `writeCh`; the first one of an HTTP proxy sends the CONNECT request, whose
-- error is only logged.
unfoldable pub take_pending : Net → TcpPacket → List TcpPacket → Relay → Relay
take_pending net pkt rest s =
    if is_not_sent s.conn.connect_state
    then (let named = name_host net s.conn.remote_ip pkt in
        record s {
          conn = record s.conn { connect_state = connect_sent };
          incoming = rest;
          written =
              s.written ++ (connect_bytes named.tcp.hostname s.conn.proxy_server.auth_header ∷ []);
          writer = writer_holds named;
        })
    else record s { incoming = rest; writer = writer_holds pkt }

-- The `select` of the writer; its default case ends the loop of a connection that is over.
unfoldable pub writer_select : Net → Bool → List TcpPacket → Relay → Relay
writer_select net prefers [] s =
    if s.close_closed || (s.stopped || s.conn.destroyed)
    then record s { writer = writer_gone }
    else s
writer_select net prefers (pkt ∷ rest) s =
    if s.close_closed && prefers
    then record s { writer = writer_gone }
    else take_pending net pkt rest s

-- A move of the writer. `Wait` is not in a loop: who is woken does not look at the state again.
unfoldable pub writer_move : Net → Bool → WriterAt → Relay → Go Relay
writer_move net prefers writer_idle s = ret (writer_select net prefers s.incoming s)
writer_move net prefers (writer_holds pkt) s = ret (record s {
  writer =
      if is_http s.conn.proxy_server.proxy_type && not (is_open s.conn.connect_state)
      then writer_waits pkt
      else writer_writes pkt;
})
writer_move net prefers (writer_waits pkt) s = ret s
writer_move net prefers (writer_writes pkt) s = outgoing s.conn.proxy_server pkt >>= λ bytes.
    ret (record s {
      conn = interfere (written (length pkt.tcp.payload)) s.conn;
      written = s.written ++ (bytes ∷ []);
      writer = writer_idle;
    })
writer_move net prefers writer_gone s = ret s

-- The end of the reader.
unfoldable pub reader_exit : Relay → Go Relay
reader_exit s =
    (if s.conn.destroyed then ret s.close_closed else close_chan s.close_closed) >>= λ c.
    ret (record s { close_closed = c; writer = wake_writer s.writer; reader = reader_gone })

-- `buf`
abbrev pub read_size : ℕ
read_size = mtu - 40

-- `conn.Read` for a connection that is established.
unfoldable pub read_payload : ℕ → ℕ → Bool → Relay → Go Relay
read_payload wnd n err s =
    let m = min n (min wnd read_size) in
    let got = take m s.remote in
    let s1 : Relay = if length got == 0 then s else record s {
      conn = interfere (read wnd (length got)) s.conn;
      remote = drop m s.remote;
      delivered = s.delivered ++ (got ∷ []);
    } in
    if err then reader_exit s1 else ret (record s1 { reader = reader_turns })

unfoldable pub read_by : ConnectState → ℕ → ℕ → Bool → Relay → Go Relay
read_by connect_not_sent wnd n err s = ret (record s { reader = reader_turns })
read_by connect_sent wnd n err s = ret (record s {
  conn = interfere (connect_changed connect_established) s.conn;
  remote = drop (min n read_size) s.remote;
  writer = wake_writer s.writer;
  reader = reader_turns;
})
read_by connect_established wnd n err s = read_payload wnd n err s

-- Where the reader goes with the window that it has loaded.
unfoldable pub by_window : Relay → ReaderAt
by_window s = if s.conn.send_window == 0 then reader_locks else reader_reads s.conn.send_window

-- A move of the reader. `Lock` is left only while the mutex is free. `Wait` gives the mutex back while
-- it sleeps and takes it again before it returns; `Unlock` stands behind the loop, so that a further
-- round of the loop comes to `Lock` with the mutex held.
unfoldable pub reader_move : ℕ → Bool → ReaderAt → Relay → Go Relay
reader_move n err reader_starts s =
    if s.stopped || s.conn.destroyed then reader_exit s else ret (record s { reader = by_window s })
reader_move n err reader_locks s =
    if s.send_locked then ret s else ret (record s { reader = reader_sleeps })
reader_move n err reader_sleeps s = ret s
reader_move n err reader_woken s =
    if s.send_locked
    then ret s
    else ret (record s { send_locked = s.conn.send_window == 0; reader = by_window s })
reader_move n err (reader_reads wnd) s = read_by s.conn.connect_state wnd n err s
reader_move n err reader_turns s =
    ret (record s { writer = wake_writer s.writer; reader = reader_starts })
reader_move n err reader_gone s = ret s

unfoldable pub relay_move : Net → RelayMove → Relay → Go Relay
relay_move net (writer_moves prefers) s = writer_move net prefers s.writer s
relay_move net (reader_moves n err) s = reader_move n err s.reader s
relay_move net (hand_over pkt) s = ret (record s { incoming = s.incoming ++ (pkt ∷ []) })
relay_move net (set_window wnd) s =
    ret (record s { conn = record s.conn { send_window = wnd }; reader = wake_reader s.reader })
relay_move net clear s = ret (record s {
  conn = record s.conn { destroyed = true };
  writer = wake_writer s.writer;
  reader = wake_reader s.reader;
})
relay_move net stop_all s = ret (record s { stopped = true })

unfoldable pub run_relay : Net → List RelayMove → Relay → Go Relay
run_relay net [] s = ret s
run_relay net (m ∷ moves) s = relay_move net m s >>= λ s'. run_relay net moves s'
