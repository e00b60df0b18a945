-- ===== src/Tun/Conn/Relay/Reads.antt =====
-- What a move of the reader of tcpSocks2Tun leaves, and its end.
use go_game_proxy.Prelude.{
  ℕ, ◌-◌, ◌≡◌, refl, sym, ap, ◌∙◌, Bool, true, false, Bytes, Bool-cases, inl, inr, ◌⊎◌,
  both_branches, ◌==◌, if◌then◌else◌,
}
use go_game_proxy.Packet.Wire.{Go, ret, close_chan}
use go_game_proxy.Tun.Conn.{Conn}
use go_game_proxy.Tun.Conn.Handlers.{is_not_sent}
use go_game_proxy.Tun.Conn.Run.{interfere, read}
use go_game_proxy.Tun.Conn.Relay.{WriterAt, ReaderAt, reader_gone, Relay}
use go_game_proxy.Tun.Conn.Relay.Moves.{wake_writer, reader_exit}
use go_game_proxy.Tun.Conn.Relay.Stream.{IsStream, is_gone, leaves, LeavesStream-IsStream}

-- A move that leaves the writer's part as it is, but that the writer may have been woken.
pub record LeavesWriter (s s' : Relay) : Type 0 where
  pub same_incoming : s'.incoming ≡ s.incoming
  pub same_written : s'.written ≡ s.written
  pub same_server : s'.conn.proxy_server ≡ s.conn.proxy_server
  pub same_remote_ip : s'.conn.remote_ip ≡ s.conn.remote_ip
  pub same_not_sent : is_not_sent s'.conn.connect_state ≡ is_not_sent s.conn.connect_state
  pub same_or_woken : (s'.writer ≡ s.writer) ⊎ (s'.writer ≡ wake_writer s.writer)

pub then_leaves :
    (s s1 s2 : Relay)
    → LeavesWriter s s1
    → s1.writer ≡ s.writer
    → LeavesWriter s1 s2
    → LeavesWriter s s2
then_leaves s s1 s2 a e b = record {
  same_incoming = b.same_incoming ∙ a.same_incoming;
  same_written = b.same_written ∙ a.same_written;
  same_server = b.same_server ∙ a.same_server;
  same_remote_ip = b.same_remote_ip ∙ a.same_remote_ip;
  same_not_sent = b.same_not_sent ∙ a.same_not_sent;
  same_or_woken = elim b.same_or_woken [ inl h ↦ inl (h ∙ e) | inr h ↦ inr (h ∙ ap wake_writer e) ];
}

-- What a read leaves of the connection.
abbrev pub ReadOf : Conn → Conn → Type 0
ReadOf c c' =
    (c'.proxy_server ≡ c.proxy_server)
    × (c'.remote_ip ≡ c.remote_ip)
    × (c'.connect_state ≡ c.connect_state)
    × (c'.recv_window ≡ c.recv_window)

pub interfere-ReadOf : (wnd n : ℕ) (c : Conn) → ReadOf c (interfere (read wnd n) c)
unfolding interfere
interfere-ReadOf wnd n c =
    both_branches (ReadOf c) (c.send_window == wnd) (record c { send_window = wnd - n }) c
      (refl, refl, refl, refl) (refl, refl, refl, refl)

module _ (opening : Bool) (sent : Bytes) where
  abbrev pub Comes : Relay → Go Relay → Type 0
  Comes s g = (s' : Relay) × (g ≡ ret s') × IsStream opening sent s' × LeavesWriter s s'

  -- The reader goes on with the mutex or without, and may have woken the writer.
  pub locks :
      (s : Relay) (held : Bool) (w : WriterAt) (r : ReaderAt)
      → (w ≡ s.writer) ⊎ (w ≡ wake_writer s.writer)
      → is_gone r ≡ false
      → is_gone s.reader ≡ false
      → IsStream opening sent s
      → Comes s (ret (record s { send_locked = held; writer = w; reader = r }))
  locks s held w r woken a b k =
      let s' : Relay = record s { send_locked = held; writer = w; reader = r } in
      (
        s',
        refl,
        LeavesStream-IsStream opening sent s s'
            (leaves s s' refl refl refl refl (a ∙ sym b) (λ h. h)) k,
        record {
          same_incoming = refl;
          same_written = refl;
          same_server = refl;
          same_remote_ip = refl;
          same_not_sent = refl;
          same_or_woken = woken;
        },
      )

  pub stays :
      (s : Relay) (w : WriterAt) (r : ReaderAt)
      → (w ≡ s.writer) ⊎ (w ≡ wake_writer s.writer)
      → is_gone r ≡ false
      → is_gone s.reader ≡ false
      → IsStream opening sent s
      → Comes s (ret (record s { writer = w; reader = r }))
  stays s w r woken a b k = locks s s.send_locked w r woken a b k

  -- The channel that `reader_exit` leaves.
  closes_once :
      (s : Relay)
      → s.close_closed ≡ false
      → (c : Bool) × ((if s.conn.destroyed then ret s.close_closed else close_chan s.close_closed)
          ≡ ret c)
  unfolding close_chan
  closes_once s e = elim (Bool-cases s.conn.destroyed) [
    | inl d ↦ (s.close_closed, rw d refl)
    | inr d ↦ (true, rw (d, e) refl)
  ]

  pub exit :
      (s : Relay) → is_gone s.reader ≡ false → IsStream opening sent s → Comes s (reader_exit s)
  unfolding reader_exit is_gone
  exit s g k =
      let (c, closed) = closes_once s (k.unclosed g) in
      (
        record s { close_closed = c; writer = wake_writer s.writer; reader = reader_gone },
        rw closed refl,
        record {
          answer = k.answer;
          answer_fits = k.answer_fits;
          whole = k.whole;
          not_open = k.not_open;
          opened = k.opened;
          pieces = k.pieces;
          unclosed = λ h. cc;
          in_window = k.in_window;
        },
        record {
          same_incoming = refl;
          same_written = refl;
          same_server = refl;
          same_remote_ip = refl;
          same_not_sent = refl;
          same_or_woken = inr refl;
        },
      )
