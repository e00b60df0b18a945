-- ===== src/Tun/Conn/Sequence/Runs.antt =====
-- The sequence numbers of what a connection sends, through all that can happen to it.
use go_game_proxy.Prelude.{
  none, ℕ, if◌then◌else◌, Bool, true, false, some, List, [], ◌∷◌, Bytes, ◌≡◌, refl, arith, subst,
  Bool-cases, Option-cases, inl, inr,
}
use go_game_proxy.Packet.Wire.{ret}
use go_game_proxy.Packet.Wire.Ends.{bind-eq-ret}
use go_game_proxy.Tun.Conn.{
  closed, fin_wait_1, Conn, change_state, Effect, close_socks, send, fin_ack, send_ack,
  send_payload,
}
use go_game_proxy.Tun.Conn.Handlers.{World, Proxies, Outcome}
use go_game_proxy.Tun.Conn.Run.{
  Loop, Event, input, ack_timeout, from_socks, socks_closed, timed_out, quit_by_other, Turn, Move,
  round, outside, move, runs, turn, select_case, handle, open_channels, is_established, quit,
  after_input, go_on, update_send_window, Outside, written, read, connect_changed, destroy,
  interfere,
}
use go_game_proxy.Tun.Conn.Watch.{watch, watch-append, Follows, runs-Follows}
use go_game_proxy.Tun.Conn.Sequence.{advance, is_live, is_closed, IsAt, Leaves, handle-Leaves}

-- What `IsAt` says survives the way out and the head of the loop.
quit-watch : (c : Conn) (n : ℕ) → watch advance n (quit c) ≡ some n
unfolding watch advance
quit-watch c n = ground arith

open_channels-IsAt : (now : ℕ) (l : Loop) (n : ℕ) → IsAt l n → IsAt (open_channels now l) n
unfolding open_channels is_live is_closed is_established
open_channels-IsAt now l n r = ground arith

input-Follows :
    (n : ℕ) (opened : Bool) (o : Outcome)
    → Leaves n opened o
    → Follows IsAt (watch advance n (after_input opened o).effects) (after_input opened o).next
unfolding after_input
input-Follows n opened o r = elim (Bool-cases o.continu) [
  | inl e ↦ rw e (ground (arith, r, e))
  | inr e ↦ elim (Option-cases (watch advance n o.effects)) [
    | inl q ↦ absurd (ground (arith, r, e, q))
    | inr (k, q) ↦ rw (e, watch-append advance n o.effects (quit o.conn) q, quit-watch o.conn k) tt
  ]
]

interfere-IsAt :
    (o : Outside) (l : Loop) (n : ℕ) → IsAt l n → IsAt (record l { conn = interfere o l.conn }) n
unfolding interfere
interfere-IsAt (written k) l n r = ground arith
interfere-IsAt (read a b) l n r = ground arith
interfere-IsAt (connect_changed s) l n r = ground arith
interfere-IsAt destroy l n r = ground arith

closing-watch :
    (c : Conn) (n : ℕ) → watch advance n (if c.has_socks then close_socks ∷ [] else []) ≡ some n
unfolding watch advance
closing-watch c n = ground arith

-- The cases of the select that send, on the channels that are open.
Keeps : ℕ → Bool → Conn × List Effect → Type 0
Keeps n opened out =
    Follows IsAt (watch advance n (go_on opened out).effects) (go_on opened out).next

idle-Follows : (l : Loop) (n : ℕ) → IsAt l n → Keeps n l.opened (l.conn, [])
unfolding Keeps go_on watch
idle-Follows l n r = r

ack-Follows :
    (id : ℕ) (l : Loop) (n : ℕ) → IsAt l n → l.opened ≡ true → Keeps n l.opened (send_ack id l.conn)
unfolding Keeps go_on watch advance send_ack send is_live is_closed
ack-Follows id l n r h = ground arith

payload-Follows :
    (id now : ℕ) (bytes : Bytes) (l : Loop) (n : ℕ)
    → IsAt l n
    → l.opened ≡ true
    → Keeps n l.opened (send_payload id bytes (record l.conn { last_packet_time = now }))
unfolding Keeps go_on watch advance send_payload send is_live is_closed
payload-Follows id now bytes l n r h = ground arith

fin-Follows :
    (id : ℕ) (l : Loop) (n : ℕ)
    → IsAt l n
    → l.opened ≡ true
    → Keeps n l.opened (change_state (fin_ack id l.conn).0 fin_wait_1, (fin_ack id l.conn).1)
unfolding Keeps go_on watch advance fin_ack send is_live is_closed
fin-Follows id l n r h = ground arith

select-Follows :
    (w : World) (t2s : Proxies) (e : Event) (l : Loop) (n : ℕ) (t : Turn)
    → IsAt l n
    → select_case w t2s e l ≡ ret t
    → Follows IsAt (watch advance n t.effects) t.next
unfolding select_case go_on Keeps
select-Follows w t2s (input pkt) l n t r h =
    let c = update_send_window (record l.conn { last_packet_time = w.now }) pkt in
    let (o, e, f) = bind-eq-ret (handle w t2s c.state c pkt) _ h in
    let p =
      input-Follows n l.opened o
        (handle-Leaves c.state l.opened n w t2s c pkt o refl r.live r.fits r.at_next e) in
    subst (λ v. Follows IsAt (watch advance n v.effects) v.next)
      (let q : after_input l.opened o ≡ t = cc in q) p
select-Follows w t2s ack_timeout l n t r h =
    ground (arith, idle-Follows l n r, ack-Follows w.ip_id l n r)
select-Follows w t2s (from_socks bytes) l n t r h =
    ground (arith, idle-Follows l n r, payload-Follows w.ip_id w.now bytes l n r)
select-Follows w t2s socks_closed l n t r h =
    ground (arith, idle-Follows l n r, fin-Follows w.ip_id l n r)
select-Follows w t2s timed_out l n t r h = ground (arith, quit-watch l.conn n)
select-Follows w t2s quit_by_other l n t r h = ground (arith, closing-watch l.conn n)

move-Follows :
    (t2s : Proxies) (m : Move) (l : Loop) (n : ℕ) (t : Turn)
    → IsAt l n
    → move t2s m l ≡ ret t
    → Follows IsAt (watch advance n t.effects) t.next
unfolding move turn watch
move-Follows t2s (round w e) l n t r h = elim (Bool-cases (open_channels w.now l).conn.destroyed) [
  | inl d ↦ ground (arith, quit-watch (open_channels w.now l).conn n, d, h)
  | inr d ↦ select-Follows w t2s e (open_channels w.now l) n t (open_channels-IsAt w.now l n r) (
      subst
        (λ b.
          (if b
            then ret (record { effects = quit (open_channels w.now l).conn; next = none })
            else select_case w t2s e (open_channels w.now l))
          ≡ ret t)
        d h)
]
move-Follows t2s (outside o) l n t r h =
    subst (λ v. Follows IsAt (watch advance n v.effects) v.next)
      (let q : record { effects = []; next = some (record l { conn = interfere o l.conn }) } ≡ t =
          cc in
        q)
      (interfere-IsAt o l n r)

-- Whatever happens to a new connection, the segments that it sends without RST follow one another
-- without gap or overlap from sequence number 1, a SYN and a FIN taking one number each and all
-- modulo 2 ^ 32; and while it goes on, the loop is in one of five states with its next number
-- behind the last segment.
pub runs-sequence :
    (t2s : Proxies) (ms : List Move) (c : Conn) {u : Turn}
    → c.state ≡ closed
    → runs t2s ms (some (record { conn = c; opened = false })) ≡ ret u
    → Follows IsAt (watch advance 1 u.effects) u.next
unfolding is_live is_closed
runs-sequence t2s ms c e h = runs-Follows advance IsAt move-Follows t2s ms _ 1 (ground arith) h
