-- ===== src/Tun/Conn/Relay/Stuck.antt =====
-- The reader of tcpSocks2Tun, where the window of the other side stays shut.
use go_game_proxy.Prelude.{
  ℕ, ◌≡◌, refl, sym, ap, ◌∙◌, subst, Bool, ◌||◌, ◌&&◌, List, [], ◌∷◌, ◌++◌, both_branches, true,
  false, Bytes, if◌then◌else◌,
}
use go_game_proxy.Packet.Wire.{OnReturn, OnReturn-bind, OnReturn-then, Go, ret, panic, hang}
use go_game_proxy.Socks.{Net}
use go_game_proxy.Tun.Pack.{TcpPacket}
use go_game_proxy.Tun.Conn.{connect_sent}
use go_game_proxy.Tun.Conn.Handlers.{is_not_sent}
use go_game_proxy.Tun.Conn.Relay.{
  Relay, RelayMove, WriterAt, writer_idle, writer_holds, writer_waits, writer_writes, writer_gone,
  writer_moves, reader_moves, set_window, hand_over, clear, stop_all, reader_sleeps, reader_locks,
}
use go_game_proxy.Tun.Conn.Relay.Moves.{
  run_relay, relay_move, reader_move, by_window, wake_reader, wake_writer, writer_move,
  writer_select, take_pending, name_host, connect_bytes, outgoing,
}

-- The reader stands where it stood, with the mutex as it was, and nothing more is delivered.
abbrev Still : Relay → Relay → Type 0
Still s s' =
    (s'.reader ≡ s.reader) × (s'.send_locked ≡ s.send_locked) × (s'.delivered ≡ s.delivered)

still : (s : Relay) → Still s s
still s = (refl, refl, refl)

writer_select-Still :
    (net : Net) (prefers : Bool) (pkts : List TcpPacket) (s : Relay)
    → Still s (writer_select net prefers pkts s)
unfolding writer_select take_pending
writer_select-Still net prefers [] s =
    both_branches (Still s) (s.close_closed || (s.stopped || s.conn.destroyed))
      (record s { writer = writer_gone }) s (still s) (still s)
writer_select-Still net prefers (pkt ∷ rest) s =
    let named = name_host net s.conn.remote_ip pkt in
    both_branches (Still s) (s.close_closed && prefers) (record s { writer = writer_gone })
      (take_pending net pkt rest s) (still s)
      (both_branches (Still s) (is_not_sent s.conn.connect_state)
        (record s {
          conn = record s.conn { connect_state = connect_sent };
          incoming = rest;
          written =
              s.written ++ (connect_bytes named.tcp.hostname s.conn.proxy_server.auth_header ∷ []);
          writer = writer_holds named;
        })
        (record s { incoming = rest; writer = writer_holds pkt }) (still s) (still s))

writer_move-Still :
    (net : Net) (prefers : Bool) (w : WriterAt) (s : Relay)
    → OnReturn (Still s) (writer_move net prefers w s)
unfolding writer_move
writer_move-Still net prefers writer_idle s = writer_select-Still net prefers s.incoming s
writer_move-Still net prefers (writer_holds pkt) s = still s
writer_move-Still net prefers (writer_waits pkt) s = still s
writer_move-Still net prefers (writer_writes pkt) s =
    OnReturn-then (Still s) (outgoing s.conn.proxy_server pkt) _ (λ b. still s)
writer_move-Still net prefers writer_gone s = still s

-- The reader waits for a mutex that it holds itself, behind what it has delivered.
pub record IsStuck (delivered : List Bytes) (s : Relay) : Type 0 where
  pub at_lock : s.reader ≡ reader_locks
  pub lock_held : s.send_locked ≡ true
  pub same_delivered : s.delivered ≡ delivered

Still-IsStuck : (d : List Bytes) (s s' : Relay) → Still s s' → IsStuck d s → IsStuck d s'
Still-IsStuck d s s' h k = record {
  at_lock = h.0 ∙ k.at_lock;
  lock_held = h.1 ∙ k.lock_held;
  same_delivered = h.2 ∙ k.same_delivered;
}

on_return :
    (d : List Bytes) (g : Go Relay) (s : Relay)
    → OnReturn (Still s) g
    → IsStuck d s
    → OnReturn (IsStuck d) g
on_return d (ret s') s h k = Still-IsStuck d s s' h k
on_return d panic s h k = tt
on_return d hang s h k = tt

-- At the lock the reader makes no move.
locked_reader :
    (d : List Bytes) (n : ℕ) (err : Bool) (s : Relay)
    → IsStuck d s
    → reader_move n err s.reader s ≡ ret s
unfolding reader_move
locked_reader d n err s k =
    ap (λ r. reader_move n err r s) k.at_lock
    ∙ ap (λ b. if b then ret s else ret (record s { reader = reader_sleeps })) k.lock_held

-- No signal reaches it either.
unwoken : (d : List Bytes) (s : Relay) → IsStuck d s → wake_reader s.reader ≡ s.reader
unfolding wake_reader
unwoken d s k = ap wake_reader k.at_lock ∙ sym k.at_lock

relay_move-IsStuck :
    (d : List Bytes) (net : Net) (m : RelayMove) (s : Relay)
    → IsStuck d s
    → OnReturn (IsStuck d) (relay_move net m s)
unfolding relay_move
relay_move-IsStuck d net (writer_moves prefers) s k =
    on_return d (writer_move net prefers s.writer s) s (writer_move-Still net prefers s.writer s) k
relay_move-IsStuck d net (reader_moves n err) s k =
    subst (OnReturn (IsStuck d)) (sym (locked_reader d n err s k)) k
relay_move-IsStuck d net (hand_over pkt) s k =
    Still-IsStuck d s (record s { incoming = s.incoming ++ (pkt ∷ []) }) (still s) k
relay_move-IsStuck d net (set_window wnd) s k =
    Still-IsStuck d s
      (record s { conn = record s.conn { send_window = wnd }; reader = wake_reader s.reader })
      (unwoken d s k, refl, refl) k
relay_move-IsStuck d net clear s k =
    Still-IsStuck d s
      (record s {
        conn = record s.conn { destroyed = true };
        writer = wake_writer s.writer;
        reader = wake_reader s.reader;
      })
      (unwoken d s k, refl, refl) k
relay_move-IsStuck d net stop_all s k = Still-IsStuck d s (record s { stopped = true }) (still s) k

run_relay-IsStuck :
    (d : List Bytes) (net : Net) (moves : List RelayMove) (s : Relay)
    → IsStuck d s
    → OnReturn (IsStuck d) (run_relay net moves s)
unfolding run_relay
run_relay-IsStuck d net [] s k = k
run_relay-IsStuck d net (m ∷ moves) s k =
    OnReturn-bind (IsStuck d) (IsStuck d) (relay_move net m s) (run_relay net moves)
      (relay_move-IsStuck d net m s k) (run_relay-IsStuck d net moves)

-- A packet that announces the window 0 wakes a reader that waits for its window to open. If the
-- reader moves before the window changes again, then after every further schedule that returns,
-- whatever windows it announces, and with the connection cleared or not, the reader waits for the
-- mutex that it holds itself, and nothing more has been delivered.
pub zero_window-IsStuck :
    (net : Net) (n : ℕ) (err : Bool) (moves : List RelayMove) (s : Relay)
    → s.reader ≡ reader_sleeps
    → s.send_locked ≡ false
    → OnReturn (IsStuck s.delivered) (run_relay net (set_window 0 ∷ reader_moves n err ∷ moves) s)
unfolding run_relay relay_move wake_reader reader_move by_window
zero_window-IsStuck net n err moves s e free =
    let d = s.delivered in
    let r = wake_reader s.reader in
    let s1 : Relay = record s { conn = record s.conn { send_window = 0 }; reader = r } in
    let s2 : Relay = record s1 { send_locked = true; reader = reader_locks } in
    let woken : reader_move n err r s1 ≡ ret s2 =
      ap (λ r'. reader_move n err r' s1) (ap wake_reader e)
      ∙ ap (λ b. if b then ret s1 else ret s2) free in
    let stuck : IsStuck d s2 = record { at_lock = refl; lock_held = refl; same_delivered = refl } in
    OnReturn-bind (IsStuck d) (IsStuck d) (reader_move n err r s1) (run_relay net moves)
      (subst (OnReturn (IsStuck d)) (sym woken) stuck) (run_relay-IsStuck d net moves)
