-- ===== src/Tun/Conn/Relay/Runs.antt =====
-- The goroutines of tcpSocks2Tun under every schedule.
use go_game_proxy.Prelude.{
  ◌≡◌, refl, sym, ap, ◌∙◌, subst, Bool, true, List, [], ◌∷◌, ◌++◌, Bytes, append-nil, append_assoc,
  All, All-append, All-split, inl, inr,
}
use go_game_proxy.Packet.Wire.{OnReturn, Go, ret}
use go_game_proxy.Tun.Pack.{TcpPacket}
use go_game_proxy.Socks.{Net}
use go_game_proxy.Tun.Conn.{ProxyServer}
use go_game_proxy.Tun.Conn.Relay.{
  Relay, RelayMove, writer_moves, reader_moves, hand_over, set_window, clear, stop_all,
  reader_starts, ReaderAt, reader_sleeps, reader_woken, reader_locks, reader_reads, reader_turns,
  reader_gone,
}
use go_game_proxy.Tun.Conn.Relay.Moves.{
  relay_move, run_relay, writer_move, reader_move, wake_writer, wake_reader,
}
use go_game_proxy.Tun.Conn.Relay.Carried.{
  IsCarried, IsCarried-agree, IsDue, Renders, wake_writer-IsDue,
}
use go_game_proxy.Tun.Conn.Relay.Stream.{
  IsStream, LeavesStream, LeavesStream-IsStream, leaves, writer_move-LeavesStream, is_gone,
}
use go_game_proxy.Tun.Conn.Relay.Writes.{writer_move-IsCarried}
use go_game_proxy.Tun.Conn.Relay.Reads.{LeavesWriter}
use go_game_proxy.Tun.Conn.Relay.Delivers.{reader_move-Comes}

-- The packets that a schedule hands over.
abbrev pub handed_in : List RelayMove → List TcpPacket
handed_in [] = []
handed_in (hand_over pkt ∷ moves) = pkt ∷ handed_in moves
handed_in (writer_moves b ∷ moves) = handed_in moves
handed_in (reader_moves n err ∷ moves) = handed_in moves
handed_in (set_window wnd ∷ moves) = handed_in moves
handed_in (clear ∷ moves) = handed_in moves
handed_in (stop_all ∷ moves) = handed_in moves

wake_reader-is_gone : (r : ReaderAt) → is_gone (wake_reader r) ≡ is_gone r
unfolding wake_reader is_gone
wake_reader-is_gone reader_starts = refl
wake_reader-is_gone reader_sleeps = refl
wake_reader-is_gone reader_woken = refl
wake_reader-is_gone reader_locks = refl
wake_reader-is_gone (reader_reads wnd) = refl
wake_reader-is_gone reader_turns = refl
wake_reader-is_gone reader_gone = refl

module _ (net : Net) (dst : Bytes) (p : ProxyServer) (opening : Bool) (render : TcpPacket → Bytes)
    (sent : Bytes) where
  abbrev Carries : List TcpPacket → Relay → Type 0
  Carries = IsCarried net dst p opening render

  abbrev CanRender : TcpPacket → Type 0
  CanRender = Renders net dst p opening render

  LeavesWriter-IsCarried :
      (handed : List TcpPacket) (s s' : Relay)
      → LeavesWriter s s'
      → Carries handed s
      → Carries handed s'
  LeavesWriter-IsCarried handed s s' l k =
      IsCarried-agree net dst p opening render handed s s' k l.same_incoming l.same_written
        l.same_server l.same_remote_ip l.same_not_sent
        (λ due h. elim l.same_or_woken [
          | inl e ↦ subst (λ w. IsDue p w due) (sym e) h
          | inr e ↦ subst (λ w. IsDue p w due) (sym e) (wake_writer-IsDue p s.writer due h)
        ])

  -- After a move: the relay goes on, with what it has handed over.
  abbrev Goes : List TcpPacket → Go Relay → Type 0
  Goes handed g = (s' : Relay) × (g ≡ ret s') × Carries handed s' × IsStream opening sent s'

  same_handed : (handed : List TcpPacket) (g : Go Relay) → Goes handed g → Goes (handed ++ []) g
  same_handed handed g h = subst (λ ps. Goes ps g) (sym (append-nil handed)) h

  writer_move-Goes :
      (handed : List TcpPacket) (prefers : Bool) (s : Relay)
      → Carries handed s
      → IsStream opening sent s
      → Goes handed (writer_move net prefers s.writer s)
  writer_move-Goes handed prefers s k t =
      let (s', e, k') =
        writer_move-IsCarried net dst p opening render handed prefers s.writer s k refl in
      (
        s',
        e,
        k',
        LeavesStream-IsStream opening sent s s'
            (subst (OnReturn (LeavesStream s)) e (writer_move-LeavesStream net prefers s.writer s))
            t,
      )

  hands_over :
      (handed : List TcpPacket) (pkt : TcpPacket) (s : Relay)
      → CanRender pkt
      → Carries handed s
      → Carries (handed ++ (pkt ∷ [])) (record s { incoming = s.incoming ++ (pkt ∷ []) })
  hands_over handed pkt s r k = record {
    taken = k.taken;
    due = k.due;
    all_handed =
        sym (append_assoc k.taken s.incoming (pkt ∷ [])) ∙ ap (λ ps. ps ++ (pkt ∷ [])) k.all_handed;
    is_due = k.is_due;
    in_order = k.in_order;
    not_sent = k.not_sent;
    same_proxy = k.same_proxy;
    same_ip = k.same_ip;
    can_render = All-append CanRender s.incoming (pkt ∷ []) k.can_render (r, tt);
  }

  relay_move-Goes :
      (m : RelayMove) (handed : List TcpPacket) (s : Relay)
      → All CanRender (handed_in (m ∷ []))
      → Carries handed s
      → IsStream opening sent s
      → Goes (handed ++ handed_in (m ∷ [])) (relay_move net m s)
  unfolding relay_move
  relay_move-Goes (writer_moves prefers) handed s r k t =
      same_handed handed (writer_move net prefers s.writer s)
        (writer_move-Goes handed prefers s k t)
  relay_move-Goes (reader_moves n err) handed s r k t =
      let (s', e, t', l) = reader_move-Comes opening sent n err s.reader s refl t in
      same_handed handed (reader_move n err s.reader s)
        (s', e, LeavesWriter-IsCarried handed s s' l k, t')
  relay_move-Goes (hand_over pkt) handed s (r, _) k t =
      let s' : Relay = record s { incoming = s.incoming ++ (pkt ∷ []) } in
      (
        s',
        refl,
        hands_over handed pkt s r k,
        LeavesStream-IsStream opening sent s s' (leaves s s' refl refl refl refl refl (λ h. h)) t,
      )
  relay_move-Goes (set_window wnd) handed s r k t =
      let s' : Relay = record s {
        conn = record s.conn { send_window = wnd };
        reader = wake_reader s.reader;
      } in
      same_handed handed (ret s') (
        s',
        refl,
        IsCarried-agree net dst p opening render handed s s' k refl refl refl refl refl
            (λ due h. h),
        LeavesStream-IsStream opening sent s s'
            (leaves s s' refl refl refl refl (wake_reader-is_gone s.reader) (λ h. h)) t,
      )
  relay_move-Goes clear handed s r k t =
      let s' : Relay = record s {
        conn = record s.conn { destroyed = true };
        writer = wake_writer s.writer;
        reader = wake_reader s.reader;
      } in
      same_handed handed (ret s') (
        s',
        refl,
        IsCarried-agree net dst p opening render handed s s' k refl refl refl refl refl
            (wake_writer-IsDue p s.writer),
        LeavesStream-IsStream opening sent s s'
            (leaves s s' refl refl refl refl (wake_reader-is_gone s.reader) (λ h. h)) t,
      )
  relay_move-Goes stop_all handed s r k t =
      let s' : Relay = record s { stopped = true } in
      same_handed handed (ret s') (
        s',
        refl,
        IsCarried-agree net dst p opening render handed s s' k refl refl refl refl refl
            (λ due h. h),
        LeavesStream-IsStream opening sent s s' (leaves s s' refl refl refl refl refl (λ h. h)) t,
      )

  handed_in-split :
      (m : RelayMove) (moves : List RelayMove)
      → handed_in (m ∷ moves) ≡ handed_in (m ∷ []) ++ handed_in moves
  handed_in-split (writer_moves b) moves = refl
  handed_in-split (reader_moves n err) moves = refl
  handed_in-split (hand_over pkt) moves = refl
  handed_in-split (set_window wnd) moves = refl
  handed_in-split clear moves = refl
  handed_in-split stop_all moves = refl

  pub run_relay-Goes :
      (moves : List RelayMove) (handed : List TcpPacket) (s : Relay)
      → All CanRender (handed_in moves)
      → Carries handed s
      → IsStream opening sent s
      → Goes (handed ++ handed_in moves) (run_relay net moves s)
  unfolding run_relay
  run_relay-Goes [] handed s r k t = same_handed handed (ret s) (s, refl, k, t)
  run_relay-Goes (m ∷ moves) handed s r k t =
      let (rs, rss) =
        All-split CanRender (handed_in (m ∷ [])) (handed_in moves)
          (subst (All CanRender) (handed_in-split m moves) r) in
      let (s1, step, k1, t1) = relay_move-Goes m handed s rs k t in
      let (s2, more, k2, t2) = run_relay-Goes moves (handed ++ handed_in (m ∷ [])) s1 rss k1 t1 in
      (
        s2,
        rw step more,
        subst (λ ps. Carries ps s2)
            (append_assoc handed (handed_in (m ∷ [])) (handed_in moves)
              ∙ ap (◌++◌ handed) (sym (handed_in-split m moves)))
            k2,
        t2,
      )
