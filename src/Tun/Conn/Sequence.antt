-- ===== src/Tun/Conn/Sequence.antt =====
-- The sequence numbers of what a connection sends to the device.
pub mod Runs
use go_game_proxy.Prelude.{
  ℕ, ◌+◌, ◌<◌, ◌==◌, if◌then◌else◌, Bool, true, false, not, Option, none, some, List, [], ◌∷◌,
  Bytes, u32, length, ◌≡◌, refl, arith, subst, Bool-cases, Option-cases, inl, inr,
}
use go_game_proxy.Packet.Tcp.{Tcp}
use go_game_proxy.Packet.Wire.{Go, ret}
use go_game_proxy.Packet.Wire.Ends.{bind-eq-ret}
use go_game_proxy.Tun.Pack.{TcpPacket}
use go_game_proxy.Tun.Conn.{
  TcpState, closed, syn_rcvd, established, fin_wait_1, fin_wait_2, closing, last_ack, time_wait,
  Conn, change_state, Effect, segment, raw_bytes, to_socks, dial, connect_request, start_relay,
  close_socks, clear_track, rst_headers, valid_ack, valid_seq, relay_payload, send, syn_ack,
  fin_ack, send_ack, send_payload,
}
use go_game_proxy.Tun.Conn.Handlers.{
  World, Proxies, Outcome, state_closed, state_syn_rcvd, state_established, state_fin_wait_1,
  state_fin_wait_2, state_closing, state_last_ack, is_not_sent, connect, after_dial, dial_effects,
  answer_syn, relay, ack_fin,
}
use go_game_proxy.Tun.Conn.Run.{
  Loop, Event, input, ack_timeout, from_socks, socks_closed, timed_out, quit_by_other, Turn, Move,
  round, outside, move, runs, turn, select_case, handle, open_channels, is_established, quit,
  after_input, go_on, update_send_window, Outside, written, read, connect_changed, destroy,
  interfere,
}
use go_game_proxy.Tun.Conn.Watch.{watch, watch-append, Follows, runs-Follows}

-- The sequence space of a segment.
abbrev pub space : Tcp → ℕ
space t = length t.payload + (if t.syn then 1 else 0) + (if t.fin then 1 else 0)

-- The next sequence number behind an effect, or `none` for a segment that does not start there.
-- A reset has a sequence number of its own.
unfoldable pub advance : ℕ → Effect → Option ℕ
advance n (segment ip t) =
    if t.rst then some n else if t.seq == n then some (u32 (n + space t)) else none
advance n (raw_bytes ip t) = some n
advance n (to_socks pkt) = some n
advance n (dial r) = some n
advance n (connect_request h a) = some n
advance n start_relay = some n
advance n close_socks = some n
advance n clear_track = some n

-- The states in which a loop waits: in CLOSED and SYN_RCVD its local channels are still nil.
unfoldable pub is_live : TcpState → Bool → Bool
is_live closed opened = not opened
is_live syn_rcvd opened = not opened
is_live established opened = true
is_live fin_wait_1 opened = true
is_live fin_wait_2 opened = false
is_live closing opened = false
is_live last_ack opened = true
is_live time_wait opened = false

unfoldable pub is_closed : TcpState → Bool
is_closed closed = true
is_closed syn_rcvd = false
is_closed established = false
is_closed fin_wait_1 = false
is_closed fin_wait_2 = false
is_closed closing = false
is_closed last_ack = false
is_closed time_wait = false

-- The loop is live, and sends next what the monitor expects; the first number is 1.
pub record IsAt (l : Loop) (n : ℕ) : Type 0 where
  pub live : is_live l.conn.state l.opened ≡ true
  pub fits : n < 4294967296
  pub at_next : n ≡ (if is_closed l.conn.state then 1 else l.conn.nxt_seq)

-- What a handler leaves, where it goes on, for the local channels of the loop.
abbrev pub Leaves : ℕ → Bool → Outcome → Type 0
Leaves n opened o =
    Follows IsAt (watch advance n o.effects)
      (if o.continu then some (record { conn = o.conn; opened = opened }) else none)

syn_rcvd-Leaves :
    (w : World) (c : Conn) (pkt : TcpPacket)
    → c.state ≡ syn_rcvd
    → c.nxt_seq < 4294967296
    → Leaves c.nxt_seq false (state_syn_rcvd w c pkt)
unfolding state_syn_rcvd watch is_live is_closed advance relay relay_payload rst_headers
syn_rcvd-Leaves w c pkt h k = ground arith

established-Leaves :
    (w : World) (c : Conn) (pkt : TcpPacket) (opened : Bool)
    → c.state ≡ established
    → c.nxt_seq < 4294967296
    → Leaves c.nxt_seq opened (state_established w c pkt)
unfolding state_established watch is_live is_closed advance relay relay_payload fin_ack send
    send_ack
established-Leaves w c pkt opened h k = ground arith

fin_wait_1-Leaves :
    (w : World) (c : Conn) (pkt : TcpPacket) (opened : Bool)
    → c.state ≡ fin_wait_1
    → c.nxt_seq < 4294967296
    → Leaves c.nxt_seq opened (state_fin_wait_1 w c pkt)
unfolding state_fin_wait_1 watch is_live is_closed advance ack_fin send send_ack
fin_wait_1-Leaves w c pkt opened h k = ground arith

last_ack-Leaves :
    (w : World) (c : Conn) (pkt : TcpPacket) (opened : Bool)
    → c.state ≡ last_ack
    → c.nxt_seq < 4294967296
    → Leaves c.nxt_seq opened (state_last_ack c pkt)
unfolding state_last_ack watch is_live is_closed advance
last_ack-Leaves w c pkt opened h k = ground arith

answer-Leaves :
    (w : World) (c : Conn) (pkt : TcpPacket) (before : List Effect)
    → watch advance 1 before ≡ some 1
    → Leaves 1 false (answer_syn w c pkt before)
unfolding answer_syn watch is_live is_closed advance syn_ack send rst_headers
answer-Leaves w c pkt before k = elim (Bool-cases (is_not_sent c.connect_state)) [
  | inl e ↦ rw (e, watch-append advance 1 before _ k) (ground arith)
  | inr e ↦ rw (e, watch-append advance 1 before _ k) (ground arith)
]

dial_effects-watch : (c : Conn) (pkt : TcpPacket) → watch advance 1 (dial_effects c pkt) ≡ some 1
unfolding dial_effects watch advance
dial_effects-watch c pkt = ground arith

after_dial-Leaves :
    (w : World) (c : Conn) (pkt : TcpPacket) (o : Outcome)
    → after_dial w c pkt ≡ ret o
    → Leaves 1 false o
unfolding after_dial
after_dial-Leaves w c pkt o h = ground (
  arith,
  dial_effects-watch c pkt,
  answer-Leaves w c pkt (dial_effects c pkt) (dial_effects-watch c pkt),
)

closed-Leaves :
    (w : World) (t2s : Proxies) (c : Conn) (pkt : TcpPacket) (o : Outcome)
    → state_closed w t2s c pkt ≡ ret o
    → Leaves 1 false o
unfolding state_closed
closed-Leaves w t2s c pkt o h =
    let (x, e, f) = bind-eq-ret (connect w t2s c) (λ x. after_dial w x pkt) h in
    after_dial-Leaves w x pkt o f

-- Every packet that the loop handles, whatever the state.
pub handle-Leaves :
    (s : TcpState) (opened : Bool) (n : ℕ) (w : World) (t2s : Proxies) (c : Conn) (pkt : TcpPacket)
    (o : Outcome)
    → c.state ≡ s
    → is_live s opened ≡ true
    → n < 4294967296
    → n ≡ (if is_closed s then 1 else c.nxt_seq)
    → handle w t2s s c pkt ≡ ret o
    → Leaves n opened o
unfolding handle is_live is_closed
handle-Leaves closed true n w t2s c pkt o e l b k h = cc
handle-Leaves closed false n w t2s c pkt o e l b k h = rw k (closed-Leaves w t2s c pkt o h)
handle-Leaves syn_rcvd true n w t2s c pkt o e l b k h = cc
handle-Leaves syn_rcvd false n w t2s c pkt o e l b k h = ground (arith, syn_rcvd-Leaves w c pkt)
handle-Leaves established opened n w t2s c pkt o e l b k h =
    ground (arith, established-Leaves w c pkt opened)
handle-Leaves fin_wait_1 opened n w t2s c pkt o e l b k h =
    ground (arith, fin_wait_1-Leaves w c pkt opened)
handle-Leaves fin_wait_2 opened n w t2s c pkt o e l b k h = cc
handle-Leaves closing opened n w t2s c pkt o e l b k h = cc
handle-Leaves last_ack opened n w t2s c pkt o e l b k h =
    ground (arith, last_ack-Leaves w c pkt opened)
handle-Leaves time_wait opened n w t2s c pkt o e l b k h = cc
