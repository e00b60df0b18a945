-- ===== src/Tun/Conn/Relay/Delivers.antt =====
-- What a move of the reader of tcpSocks2Tun delivers.
use go_game_proxy.Prelude.{
  ℕ, ◌≤◌, ◌≡◌, refl, sym, ap, ◌∙◌, Bool, true, false, ◌||◌, [], ◌∷◌, ◌++◌, Bytes, append_assoc,
  All-append, Bool-cases, inl, inr, both_branches, length, take, drop, length-take,
  take-append-drop, min, ◌==◌, if◌then◌else◌, arith,
}
use go_game_proxy.Prelude.Bytes.{joined, joined-append_one}
use go_game_proxy.Packet.Wire.{Go, ret}
use go_game_proxy.Tun.Conn.{ConnectState, connect_not_sent, connect_sent, connect_established}
use go_game_proxy.Tun.Conn.Handlers.{is_not_sent}
use go_game_proxy.Tun.Conn.Run.{interfere, read, connect_changed}
use go_game_proxy.Tun.Conn.Relay.{
  ReaderAt, reader_starts, reader_sleeps, reader_woken, reader_locks, reader_reads, reader_turns,
  reader_gone, Relay,
}
use go_game_proxy.Tun.Conn.Relay.Moves.{
  is_open, wake_writer, reader_exit, read_size, read_payload, read_by, by_window, reader_move,
}
use go_game_proxy.Tun.Conn.Relay.Stream.{IsStream, IsPiece, is_gone}
use go_game_proxy.Tun.Conn.Relay.Reads.{
  LeavesWriter, then_leaves, interfere-ReadOf, Comes, locks, stays, exit,
}

module _ (opening : Bool) (sent : Bytes) where
  abbrev Gives : Relay → Go Relay → Type 0
  Gives = Comes opening sent

  module _ (s : Relay) (wnd m : ℕ) (up : is_open s.conn.connect_state ≡ true)
      (k : IsStream opening sent s) where
    abbrev got : Bytes
    got = take m s.remote

    abbrev read_on : Relay
    read_on = record s {
      conn = interfere (read wnd (length got)) s.conn;
      remote = drop m s.remote;
      delivered = s.delivered ++ (got ∷ []);
    }

    read_on-whole : k.answer ++ (joined (s.delivered ++ (got ∷ [])) ++ drop m s.remote) ≡ sent
    read_on-whole =
        ap (◌++◌ k.answer) (
          ap (λ d. d ++ drop m s.remote) (joined-append_one s.delivered got)
          ∙ (append_assoc (joined s.delivered) got (drop m s.remote)
              ∙ ap (◌++◌ (joined s.delivered)) (take-append-drop m s.remote)))
        ∙ k.whole

    state_kept : is_open read_on.conn.connect_state ≡ is_open s.conn.connect_state
    state_kept = ap is_open (interfere-ReadOf wnd (length got) s.conn).2

    got-IsPiece : m ≤ read_size → (length got == 0) ≡ false → IsPiece got
    got-IsPiece small some = (ground (arith, some), omega (arith, length-take m s.remote, small))

    read_on-IsStream : m ≤ read_size → (length got == 0) ≡ false → IsStream opening sent read_on
    read_on-IsStream small some = record {
      answer = k.answer;
      answer_fits = k.answer_fits;
      whole = read_on-whole;
      not_open =
          λ h. absurd (let q : is_open read_on.conn.connect_state ≡ true = state_kept ∙ up in cc);
      opened = λ h. ((k.opened h).0, state_kept ∙ up);
      pieces = All-append IsPiece s.delivered (got ∷ []) k.pieces (got-IsPiece small some, tt);
      unclosed = k.unclosed;
      in_window = omega (arith, k.in_window, (interfere-ReadOf wnd (length got) s.conn).3);
    }

    read_on-LeavesWriter : LeavesWriter s read_on
    read_on-LeavesWriter =
        let (server, ip, state, window) = interfere-ReadOf wnd (length got) s.conn in
        record {
          same_incoming = refl;
          same_written = refl;
          same_server = server;
          same_remote_ip = ip;
          same_not_sent = ap is_not_sent state;
          same_or_woken = inl refl;
        }

  -- The end of a read, with or without an error.
  after_read :
      (err : Bool) (s : Relay)
      → IsStream opening sent s
      → is_gone s.reader ≡ false
      → Gives s (if err then reader_exit s else ret (record s { reader = reader_turns }))
  unfolding is_gone
  after_read true s k g = exit opening sent s g k
  after_read false s k g = stays opening sent s s.writer reader_turns (inl refl) refl g k

  continues :
      (s s1 : Relay) (g : Go Relay)
      → LeavesWriter s s1
      → s1.writer ≡ s.writer
      → Gives s1 g
      → Gives s g
  continues s s1 g a e (s2, r, k, b) = (s2, r, k, then_leaves s s1 s2 a e b)

  read_payload-Comes :
      (s : Relay) (wnd n : ℕ) (err : Bool)
      → is_open s.conn.connect_state ≡ true
      → is_gone s.reader ≡ false
      → IsStream opening sent s
      → Gives s (read_payload wnd n err s)
  unfolding read_payload
  read_payload-Comes s wnd n err up g k =
      let m = min n (min wnd read_size) in
      elim (Bool-cases (length (take m s.remote) == 0)) [
        | inl e ↦ rw e (after_read err s k g)
        | inr e ↦ rw e (
            continues s (read_on s wnd m up k) _ (read_on-LeavesWriter s wnd m up k) refl (
              after_read err (read_on s wnd m up k) (read_on-IsStream s wnd m up k (omega arith) e)
                g))
      ]

  -- The answer to the CONNECT request, which is dropped.
  read_answer :
      (s : Relay) (n : ℕ)
      → s.conn.connect_state ≡ connect_sent
      → is_gone s.reader ≡ false
      → IsStream opening sent s
      → Gives s (
          ret (record s {
            conn = interfere (connect_changed connect_established) s.conn;
            remote = drop (min n read_size) s.remote;
            writer = wake_writer s.writer;
            reader = reader_turns;
          }))
  unfolding interfere is_gone is_open is_not_sent
  read_answer s n e g k =
      let (nothing, undelivered) = k.not_open (rw e refl) in
      (
        record s {
          conn = interfere (connect_changed connect_established) s.conn;
          remote = drop (min n read_size) s.remote;
          writer = wake_writer s.writer;
          reader = reader_turns;
        },
        refl,
        record {
          answer = take (min n read_size) s.remote;
          answer_fits = omega (arith, length-take (min n read_size) s.remote);
          whole =
              ap
                (λ d.
                  take (min n read_size) s.remote ++ (joined d ++ drop (min n read_size) s.remote))
                undelivered
              ∙ (take-append-drop (min n read_size) s.remote
                  ∙ (sym (ap (λ d. joined d ++ s.remote) undelivered)
                      ∙ (sym (ap (λ a. a ++ (joined s.delivered ++ s.remote)) nothing) ∙ k.whole)));
          not_open = λ h. cc;
          opened = λ h. absurd (let q = sym (ap is_open e) ∙ (k.opened h).1 in cc);
          pieces = k.pieces;
          unclosed = λ _. k.unclosed g;
          in_window = k.in_window;
        },
        record {
          same_incoming = refl;
          same_written = refl;
          same_server = refl;
          same_remote_ip = refl;
          same_not_sent = rw e refl;
          same_or_woken = inr refl;
        },
      )

  read_by-Comes :
      (c : ConnectState) (s : Relay) (wnd n : ℕ) (err : Bool)
      → s.conn.connect_state ≡ c
      → is_gone s.reader ≡ false
      → IsStream opening sent s
      → Gives s (read_by c wnd n err s)
  unfolding read_by is_open is_gone
  read_by-Comes connect_not_sent s wnd n err e g k =
      stays opening sent s s.writer reader_turns (inl refl) refl g k
  read_by-Comes connect_sent s wnd n err e g k = read_answer s n e g k
  read_by-Comes connect_established s wnd n err e g k =
      read_payload-Comes s wnd n err (ap is_open e) g k

  unchanged : (s : Relay) → IsStream opening sent s → Gives s (ret s)
  unchanged s k = (
    s,
    refl,
    k,
    record {
      same_incoming = refl;
      same_written = refl;
      same_server = refl;
      same_remote_ip = refl;
      same_not_sent = refl;
      same_or_woken = inl refl;
    },
  )

  -- The window is loaded, and the reader blocked if it is shut.
  loads :
      (s : Relay)
      → is_gone s.reader ≡ false
      → IsStream opening sent s
      → (held : Bool) → Gives s (ret (record s { send_locked = held; reader = by_window s }))
  unfolding is_gone by_window
  loads s g k held =
      locks opening sent s held s.writer (by_window s) (inl refl)
        (both_branches (λ r. is_gone r ≡ false) (s.conn.send_window == 0) reader_locks
          (reader_reads s.conn.send_window) refl refl)
        g k

  -- What the reader does comes back and keeps the stream.
  pub reader_move-Comes :
      (n : ℕ) (err : Bool) (r : ReaderAt) (s : Relay)
      → s.reader ≡ r
      → IsStream opening sent s
      → Gives s (reader_move n err r s)
  unfolding reader_move is_gone
  reader_move-Comes n err reader_starts s e k = elim (Bool-cases (s.stopped || s.conn.destroyed)) [
    | inl f ↦ rw f (exit opening sent s (ap is_gone e) k)
    | inr f ↦ rw f (loads s (ap is_gone e) k s.send_locked)
  ]
  reader_move-Comes n err reader_sleeps s e k = unchanged s k
  reader_move-Comes n err reader_locks s e k =
      both_branches (Gives s) s.send_locked (ret s) _ (unchanged s k)
        (stays opening sent s s.writer reader_sleeps (inl refl) refl (ap is_gone e) k)
  reader_move-Comes n err reader_woken s e k =
      both_branches (Gives s) s.send_locked (ret s) _ (unchanged s k)
        (loads s (ap is_gone e) k (s.conn.send_window == 0))
  reader_move-Comes n err (reader_reads wnd) s e k =
      read_by-Comes s.conn.connect_state s wnd n err refl (ap is_gone e) k
  reader_move-Comes n err reader_turns s e k =
      stays opening sent s (wake_writer s.writer) reader_starts (inr refl) refl (ap is_gone e) k
  reader_move-Comes n err reader_gone s e k = unchanged s k
