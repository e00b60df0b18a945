-- ===== src/Tun/Conn/Relay/Stream.antt =====
-- What the reader of tcpSocks2Tun delivers of the bytes of the proxy.
use go_game_proxy.Prelude.{
  ◌≤◌, ◌<◌, ◌≡◌, refl, Bool, true, false, ◌&&◌, ◌||◌, List, [], ◌∷◌, ◌++◌, Bytes, All, Bool-cases,
  inl, inr, both_branches, length, if◌then◌else◌, not, arith,
}
use go_game_proxy.Prelude.Bytes.{joined}
use go_game_proxy.Packet.Wire.{Go, ret, panic, OnReturn, hang, ◌>>=◌}
use go_game_proxy.Tun.Pack.{TcpPacket}
use go_game_proxy.Socks.{Net}
use go_game_proxy.Tun.Conn.{
  ConnectState, connect_not_sent, connect_sent, connect_established, max_recv_window,
}
use go_game_proxy.Tun.Conn.Run.{interfere, written}
use go_game_proxy.Tun.Conn.Relay.{
  WriterAt, writer_idle, writer_holds, writer_waits, writer_writes, writer_gone, ReaderAt,
  reader_starts, reader_sleeps, reader_woken, reader_locks, reader_reads, reader_turns, reader_gone,
  Relay, is_http,
}
use go_game_proxy.Tun.Conn.Relay.Moves.{
  connect_bytes, name_host, outgoing, is_open, read_size, take_pending, writer_select, writer_move,
}
use go_game_proxy.Tun.Conn.Handlers.{is_not_sent}

unfoldable pub is_gone : ReaderAt → Bool
is_gone reader_starts = false
is_gone reader_sleeps = false
is_gone reader_woken = false
is_gone reader_locks = false
is_gone (reader_reads wnd) = false
is_gone reader_turns = false
is_gone reader_gone = true

-- A piece that fits the buffer and is not empty.
abbrev pub IsPiece : Bytes → Type 0
IsPiece b = (0 < length b) × (length b ≤ read_size)

-- Of the bytes `sent` by the proxy one answer is dropped, where a CONNECT request opens the
-- connection; the rest is delivered in order or still to come. The channel is open while the reader
-- runs.
pub record IsStream (opening : Bool) (sent : Bytes) (s : Relay) : Type 0 where
  pub answer : Bytes
  pub answer_fits : length answer ≤ read_size
  pub whole : answer ++ (joined s.delivered ++ s.remote) ≡ sent
  pub not_open : is_open s.conn.connect_state ≡ false → (answer ≡ []) × (s.delivered ≡ [])
  pub opened : opening ≡ false → (answer ≡ []) × (is_open s.conn.connect_state ≡ true)
  pub pieces : All IsPiece s.delivered
  pub unclosed : is_gone s.reader ≡ false → s.close_closed ≡ false
  pub in_window : s.conn.recv_window ≤ max_recv_window

-- A move that leaves the reader's part as it is.
pub record LeavesStream (s s' : Relay) : Type 0 where
  pub same_remote : s'.remote ≡ s.remote
  pub same_delivered : s'.delivered ≡ s.delivered
  pub same_open : is_open s'.conn.connect_state ≡ is_open s.conn.connect_state
  pub same_close : s'.close_closed ≡ s.close_closed
  pub same_gone : is_gone s'.reader ≡ is_gone s.reader
  pub keeps_window : s.conn.recv_window ≤ max_recv_window → s'.conn.recv_window ≤ max_recv_window

pub LeavesStream-IsStream :
    (opening : Bool) (sent : Bytes) (s s' : Relay)
    → LeavesStream s s'
    → IsStream opening sent s
    → IsStream opening sent s'
LeavesStream-IsStream opening sent s s' l k = record {
  answer = k.answer;
  answer_fits = k.answer_fits;
  whole = rw (l.same_remote, l.same_delivered) k.whole;
  not_open = rw (l.same_open, l.same_delivered) k.not_open;
  opened = rw (l.same_open) k.opened;
  pieces = rw (l.same_delivered) k.pieces;
  unclosed = rw (l.same_close, l.same_gone) k.unclosed;
  in_window = l.keeps_window k.in_window;
}

pub leaves :
    (s s' : Relay)
    → s'.remote ≡ s.remote
    → s'.delivered ≡ s.delivered
    → is_open s'.conn.connect_state ≡ is_open s.conn.connect_state
    → s'.close_closed ≡ s.close_closed
    → is_gone s'.reader ≡ is_gone s.reader
    → (s.conn.recv_window ≤ max_recv_window → s'.conn.recv_window ≤ max_recv_window)
    → LeavesStream s s'
leaves s s' r d o c g w = record {
  same_remote = r;
  same_delivered = d;
  same_open = o;
  same_close = c;
  same_gone = g;
  keeps_window = w;
}

-- Only the place of the writer, its queue and what it wrote may differ.
leaves_all :
    (s : Relay)
    → (inc : List TcpPacket) (wr : List Bytes) (w : WriterAt)
    → LeavesStream s (record s { incoming = inc; written = wr; writer = w })
leaves_all s inc wr w =
    leaves s (record s { incoming = inc; written = wr; writer = w }) refl refl refl refl refl
      (λ h. h)

sent_or_not : (c : ConnectState) → is_not_sent c ≡ true → is_open connect_sent ≡ is_open c
unfolding is_not_sent is_open
sent_or_not connect_not_sent h = refl
sent_or_not connect_sent h = refl
sent_or_not connect_established h = cc

take_pending-LeavesStream :
    (net : Net) (pkt : TcpPacket) (rest : List TcpPacket) (s : Relay)
    → LeavesStream s (take_pending net pkt rest s)
unfolding take_pending
take_pending-LeavesStream net pkt rest s =
    let named = name_host net s.conn.remote_ip pkt in
    let s' : Relay = record s {
      conn = record s.conn { connect_state = connect_sent };
      incoming = rest;
      written =
          s.written ++ (connect_bytes named.tcp.hostname s.conn.proxy_server.auth_header ∷ []);
      writer = writer_holds named;
    } in
    elim (Bool-cases (is_not_sent s.conn.connect_state)) [
      | inl f ↦ rw f (leaves s s' refl refl (sent_or_not s.conn.connect_state f) refl refl (λ h. h))
      | inr f ↦ rw f (leaves_all s rest s.written (writer_holds pkt))
    ]

writer_select-LeavesStream :
    (net : Net) (prefers : Bool) (pkts : List TcpPacket) (s : Relay)
    → LeavesStream s (writer_select net prefers pkts s)
unfolding writer_select
writer_select-LeavesStream net prefers [] s =
    both_branches (LeavesStream s) (s.close_closed || (s.stopped || s.conn.destroyed))
      (record s { writer = writer_gone }) s (leaves_all s s.incoming s.written writer_gone)
      (leaves_all s s.incoming s.written s.writer)
writer_select-LeavesStream net prefers (pkt ∷ rest) s =
    both_branches (LeavesStream s) (s.close_closed && prefers) (record s { writer = writer_gone })
      (take_pending net pkt rest s) (leaves_all s s.incoming s.written writer_gone)
      (take_pending-LeavesStream net pkt rest s)

written-LeavesStream :
    (s : Relay) (pkt : TcpPacket) (g : Go Bytes)
    → OnReturn (LeavesStream s) (
        g >>= λ bytes. ret (record s {
          conn = interfere (written (length pkt.tcp.payload)) s.conn;
          written = s.written ++ (bytes ∷ []);
          writer = writer_idle;
        }))
unfolding interfere
written-LeavesStream s pkt (ret bytes) =
    let s' : Relay = record s {
      conn = interfere (written (length pkt.tcp.payload)) s.conn;
      written = s.written ++ (bytes ∷ []);
      writer = writer_idle;
    } in
    leaves s s' refl refl refl refl refl (λ h. omega arith)
written-LeavesStream s pkt panic = tt
written-LeavesStream s pkt hang = tt

pub writer_move-LeavesStream :
    (net : Net) (prefers : Bool) (w : WriterAt) (s : Relay)
    → OnReturn (LeavesStream s) (writer_move net prefers w s)
unfolding writer_move interfere
writer_move-LeavesStream net prefers writer_idle s =
    writer_select-LeavesStream net prefers s.incoming s
writer_move-LeavesStream net prefers (writer_holds pkt) s = leaves_all s s.incoming s.written (
    if is_http s.conn.proxy_server.proxy_type && not (is_open s.conn.connect_state)
    then writer_waits pkt
    else writer_writes pkt)
writer_move-LeavesStream net prefers (writer_waits pkt) s =
    leaves_all s s.incoming s.written s.writer
writer_move-LeavesStream net prefers (writer_writes pkt) s =
    written-LeavesStream s pkt (outgoing s.conn.proxy_server pkt)
writer_move-LeavesStream net prefers writer_gone s = leaves_all s s.incoming s.written s.writer
