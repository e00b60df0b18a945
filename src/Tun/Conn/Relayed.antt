-- ===== src/Tun/Conn/Relayed.antt =====
-- The packets that a connection hands to its proxy, and its receive window: every handler.
pub mod Runs
use go_game_proxy.Prelude.{
  ℕ, ◌+◌, ◌≤◌, ◌==◌, if◌then◌else◌, Bool, true, false, Bool-cases, inl, inr, ◌&&◌, not, Option,
  none, some, List, [], ◌∷◌, Bytes, u32, length, ◌≡◌, refl, arith, subst,
}
use go_game_proxy.Packet.Tcp.{Tcp}
use go_game_proxy.Packet.Wire.{Go, ret}
use go_game_proxy.Packet.Wire.Ends.{bind-eq-ret}
use go_game_proxy.Tun.Pack.{TcpPacket}
use go_game_proxy.Tun.Conn.{
  TcpState, closed, syn_rcvd, established, fin_wait_1, fin_wait_2, closing, last_ack, time_wait,
  Conn, Effect, segment, raw_bytes, to_socks, dial, connect_request, start_relay, close_socks,
  clear_track, rst_headers, valid_seq, relay_payload, send, syn_ack, fin_ack, send_ack,
  max_recv_window,
}
use go_game_proxy.Tun.Conn.Handlers.{
  World, Proxies, Outcome, connect, find_proxy, load_uid, load_proxy_config, choose_proxy,
  after_dial, dial_effects, state_closed, state_syn_rcvd, state_established, state_fin_wait_1,
  state_fin_wait_2, state_closing, state_last_ack, is_not_sent, answer_syn, relay, ack_fin,
}
use go_game_proxy.Tun.Conn.Run.{Loop, handle}
use go_game_proxy.Tun.Conn.Watch.{watch, watch-append, Follows}

-- The payload that comes next: the number that a SYN/ACK acknowledges, then the end of what was
-- handed on. A payload that starts elsewhere, or before any SYN/ACK, is refused.
unfoldable pub continue : Option ℕ → TcpPacket → Option (Option ℕ)
continue none pkt = none
continue (some n) pkt =
    if pkt.tcp.seq == n then some (some (u32 (n + length pkt.tcp.payload))) else none

unfoldable pub hand_on : Option ℕ → Effect → Option (Option ℕ)
hand_on s (segment ip t) = some (if t.syn then some t.ack else s)
hand_on s (raw_bytes ip t) = some s
hand_on s (to_socks pkt) = continue s pkt
hand_on s (dial r) = some s
hand_on s (connect_request h a) = some s
hand_on s start_relay = some s
hand_on s close_socks = some s
hand_on s clear_track = some s

-- The states in which a payload is handed on.
unfoldable pub relays : TcpState → Bool
relays closed = false
relays syn_rcvd = true
relays established = true
relays fin_wait_1 = false
relays fin_wait_2 = false
relays closing = false
relays last_ack = false
relays time_wait = false

-- The window fits its 16 bits, and the loop waits for the byte that the monitor expects.
pub record IsRelaying (l : Loop) (s : Option ℕ) : Type 0 where
  pub window_fits : l.conn.recv_window ≤ max_recv_window
  pub expects : relays l.conn.state ≡ true → s ≡ some l.conn.rcv_nxt_seq

-- What a handler leaves, where it goes on, for the local channels of the loop.
abbrev pub Leaves : Option ℕ → Bool → Outcome → Type 0
Leaves n opened o =
    Follows IsRelaying (watch hand_on n o.effects)
      (if o.continu then some (record { conn = o.conn; opened = opened }) else none)

syn_rcvd-Leaves :
    (w : World) (c : Conn) (pkt : TcpPacket) (opened : Bool) (s : Option ℕ)
    → c.recv_window ≤ max_recv_window
    → c.state ≡ syn_rcvd
    → s ≡ some c.rcv_nxt_seq
    → Leaves s opened (state_syn_rcvd w c pkt)
unfolding state_syn_rcvd watch relays hand_on continue relay relay_payload rst_headers valid_seq
syn_rcvd-Leaves w c pkt opened s k h e = ground arith

established-Leaves :
    (w : World) (c : Conn) (pkt : TcpPacket) (opened : Bool) (s : Option ℕ)
    → c.recv_window ≤ max_recv_window
    → c.state ≡ established
    → s ≡ some c.rcv_nxt_seq
    → Leaves s opened (state_established w c pkt)
unfolding state_established watch relays hand_on continue relay relay_payload fin_ack send send_ack
    valid_seq
established-Leaves w c pkt opened s k h e = ground arith

fin_wait_1-Leaves :
    (w : World) (c : Conn) (pkt : TcpPacket) (opened : Bool) (s : Option ℕ)
    → Leaves s opened (state_fin_wait_1 w c pkt)
unfolding state_fin_wait_1 watch hand_on ack_fin send send_ack
fin_wait_1-Leaves w c pkt opened s = ground arith

fin_wait_2-Leaves :
    (w : World) (c : Conn) (pkt : TcpPacket) (opened : Bool) (s : Option ℕ)
    → Leaves s opened (state_fin_wait_2 w c pkt)
unfolding state_fin_wait_2 watch hand_on ack_fin send send_ack
fin_wait_2-Leaves w c pkt opened s = ground arith

closing-Leaves :
    (c : Conn) (pkt : TcpPacket) (opened : Bool) (s : Option ℕ)
    → c.recv_window ≤ max_recv_window
    → c.state ≡ closing
    → Leaves s opened (state_closing c pkt)
unfolding state_closing watch hand_on relays
closing-Leaves c pkt opened s k h = ground arith

last_ack-Leaves :
    (c : Conn) (pkt : TcpPacket) (opened : Bool) (s : Option ℕ)
    → c.recv_window ≤ max_recv_window
    → c.state ≡ last_ack
    → Leaves s opened (state_last_ack c pkt)
unfolding state_last_ack watch hand_on relays
last_ack-Leaves c pkt opened s k h = ground arith

answer-Leaves :
    (w : World) (c : Conn) (pkt : TcpPacket) (opened : Bool) (s : Option ℕ) (before : List Effect)
    → c.recv_window ≤ max_recv_window
    → watch hand_on s before ≡ some s
    → Leaves s opened (answer_syn w c pkt before)
unfolding answer_syn watch hand_on syn_ack send rst_headers
answer-Leaves w c pkt opened s before h k = elim (Bool-cases (is_not_sent c.connect_state)) [
  | inl e ↦ rw (e, watch-append hand_on s before _ k) (ground arith)
  | inr e ↦ rw (e, watch-append hand_on s before _ k) (ground arith)
]

dial_effects-watch :
    (c : Conn) (pkt : TcpPacket) (s : Option ℕ) → watch hand_on s (dial_effects c pkt) ≡ some s
unfolding dial_effects watch hand_on
dial_effects-watch c pkt s = ground arith

connect-window :
    (w : World) (t2s : Proxies) (c x : Conn)
    → connect w t2s c ≡ ret x
    → x.recv_window ≡ c.recv_window
unfolding connect find_proxy load_uid load_proxy_config choose_proxy
connect-window w t2s c x h = ground arith

after_dial-Leaves :
    (w : World) (c : Conn) (pkt : TcpPacket) (opened : Bool) (s : Option ℕ) (o : Outcome)
    → c.recv_window ≤ max_recv_window
    → after_dial w c pkt ≡ ret o
    → Leaves s opened o
unfolding after_dial
after_dial-Leaves w c pkt opened s o k h = ground (
  arith,
  dial_effects-watch c pkt s,
  answer-Leaves w c pkt opened s (dial_effects c pkt) k (dial_effects-watch c pkt s),
)

closed-Leaves :
    (w : World) (t2s : Proxies) (c : Conn) (pkt : TcpPacket) (opened : Bool) (s : Option ℕ)
    (o : Outcome)
    → c.recv_window ≤ max_recv_window
    → state_closed w t2s c pkt ≡ ret o
    → Leaves s opened o
unfolding state_closed
closed-Leaves w t2s c pkt opened s o k h =
    let (x, e, f) = bind-eq-ret (connect w t2s c) (λ x. after_dial w x pkt) h in
    after_dial-Leaves w x pkt opened s o (rw (connect-window w t2s c x e) k) f

time_wait-Leaves :
    (c : Conn) (opened : Bool) (s : Option ℕ)
    → Leaves s opened (record { conn = c; effects = []; continu = false; release = false })
unfolding watch
time_wait-Leaves c opened s = ground arith

-- Every packet that the loop handles, whatever the state.
pub handle-Leaves :
    (st : TcpState) (opened : Bool) (s : Option ℕ) (w : World) (t2s : Proxies) (c : Conn)
    (pkt : TcpPacket) (o : Outcome)
    → c.state ≡ st
    → c.recv_window ≤ max_recv_window
    → (relays st ≡ true → s ≡ some c.rcv_nxt_seq)
    → handle w t2s st c pkt ≡ ret o
    → Leaves s opened o
unfolding handle relays
handle-Leaves closed opened s w t2s c pkt o e k x h = closed-Leaves w t2s c pkt opened s o k h
handle-Leaves syn_rcvd opened s w t2s c pkt o e k x h =
    ground (arith, syn_rcvd-Leaves w c pkt opened s k e (x refl))
handle-Leaves established opened s w t2s c pkt o e k x h =
    ground (arith, established-Leaves w c pkt opened s k e (x refl))
handle-Leaves fin_wait_1 opened s w t2s c pkt o e k x h =
    ground (arith, fin_wait_1-Leaves w c pkt opened s)
handle-Leaves fin_wait_2 opened s w t2s c pkt o e k x h =
    ground (arith, fin_wait_2-Leaves w c pkt opened s)
handle-Leaves closing opened s w t2s c pkt o e k x h =
    ground (arith, closing-Leaves c pkt opened s k e)
handle-Leaves last_ack opened s w t2s c pkt o e k x h =
    ground (arith, last_ack-Leaves c pkt opened s k e)
handle-Leaves time_wait opened s w t2s c pkt o e k x h = ground (arith, time_wait-Leaves c opened s)
