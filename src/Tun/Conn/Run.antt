-- ===== src/Tun/Conn/Run.antt =====
-- gotun2socks/tun2socks/tcp.go, run: the loop of a connection. A turn is one round of the loop, for
-- the case that its select takes; `runs` is a sequence of turns.
use go_game_proxy.Prelude.{
  ℕ, ◌+◌, ◌-◌, Bool, true, false, ◌&&◌, Option, none, some, List, [], ◌∷◌, ◌++◌, Bytes,
  if◌then◌else◌, ltb, ◌==◌, min,
}
use go_game_proxy.Packet.Wire.{Go, ret, ◌>>=◌}
use go_game_proxy.Tun.Pack.{TcpPacket}
use go_game_proxy.Tun.Conn.{
  TcpState, closed, syn_rcvd, established, fin_wait_1, fin_wait_2, closing, last_ack, time_wait,
  ConnectState, Conn, Effect, close_socks, clear_track, change_state, fin_ack, send_ack,
  send_payload, max_recv_window,
}
use go_game_proxy.Tun.Conn.Handlers.{
  World, Proxies, Outcome, state_closed, state_syn_rcvd, state_established, state_fin_wait_1,
  state_fin_wait_2, state_closing, state_last_ack,
}

-- The connection and, as one flag, the loop's local channels `socksCloseCh`, `fromSocksCh` and
-- `ackTimeout`: nil until the state is ESTABLISHED, and never set back.
pub record Loop : Type 0 where
  pub conn : Conn
  pub opened : Bool

-- The cases of the select.
pub data Event : Type 0 where
  input : TcpPacket → Event
  ack_timeout : Event
  from_socks : Bytes → Event
  socks_closed : Event
  timed_out : Event
  quit_by_other : Event

-- What the goroutines of `tcpSocks2Tun` and `Stop` write to a connection.
pub data Outside : Type 0 where
  -- the writer has passed on a payload of this length
  written : ℕ → Outside
  -- the reader has loaded the window and read this many bytes
  read : ℕ → ℕ → Outside
  connect_changed : ConnectState → Outside
  destroy : Outside

pub data Move : Type 0 where
  round : World → Event → Move
  outside : Outside → Move

-- What a turn did, and the loop that goes on, or `none` where `run` returns.
pub record Turn : Type 0 where
  pub effects : List Effect
  pub next : Option Loop

-- `TIMEOUT`
abbrev pub timeout : ℕ
timeout = 30000000000

unfoldable pub is_established : TcpState → Bool
is_established closed = false
is_established syn_rcvd = false
is_established established = true
is_established fin_wait_1 = false
is_established fin_wait_2 = false
is_established closing = false
is_established last_ack = false
is_established time_wait = false

-- The head of the loop.
unfoldable pub open_channels : ℕ → Loop → Loop
open_channels now l =
    if is_established l.conn.state
    then record {
      conn = record l.conn {
        destroyed = if ltb timeout (now - l.conn.last_packet_time) then true else l.conn.destroyed;
      };
      opened = true;
    }
    else l

-- The way out, where the loop clears its own entry.
abbrev pub quit : Conn → List Effect
quit c = (if c.has_socks then close_socks ∷ [] else []) ++ (clear_track ∷ [])

-- `updateSendWindow`
abbrev pub update_send_window : Conn → TcpPacket → Conn
update_send_window c pkt = record c { send_window = pkt.tcp.window }

-- The `switch` of the loop. TIME_WAIT has no case, so both results are false.
unfoldable pub handle : World → Proxies → TcpState → Conn → TcpPacket → Go Outcome
handle w t2s closed c pkt = state_closed w t2s c pkt
handle w t2s syn_rcvd c pkt = ret (state_syn_rcvd w c pkt)
handle w t2s established c pkt = ret (state_established w c pkt)
handle w t2s fin_wait_1 c pkt = ret (state_fin_wait_1 w c pkt)
handle w t2s fin_wait_2 c pkt = ret (state_fin_wait_2 w c pkt)
handle w t2s closing c pkt = ret (state_closing c pkt)
handle w t2s last_ack c pkt = ret (state_last_ack c pkt)
handle w t2s time_wait c pkt =
    ret (record { conn = c; effects = []; continu = false; release = false })

unfoldable pub after_input : Bool → Outcome → Turn
after_input opened o =
    if o.continu
    then record { effects = o.effects; next = some (record { conn = o.conn; opened = opened }) }
    else record { effects = o.effects ++ quit o.conn; next = none }

unfoldable pub go_on : Bool → Conn × List Effect → Turn
go_on opened (c, out) = record { effects = out; next = some (record { conn = c; opened = opened }) }

-- A case of the select; a case on a nil channel is never taken, and leaves the loop as it is.
unfoldable pub select_case : World → Proxies → Event → Loop → Go Turn
select_case w t2s (input pkt) l =
    let c = update_send_window (record l.conn { last_packet_time = w.now }) pkt in
    handle w t2s c.state c pkt >>= λ o. ret (after_input l.opened o)
select_case w t2s ack_timeout l = ret (
    if l.opened && ltb l.conn.acked l.conn.rcv_nxt_seq
    then go_on l.opened (send_ack w.ip_id l.conn)
    else go_on l.opened (l.conn, []))
select_case w t2s (from_socks bytes) l = ret (
    if l.opened
    then go_on l.opened (send_payload w.ip_id bytes (record l.conn { last_packet_time = w.now }))
    else go_on l.opened (l.conn, []))
select_case w t2s socks_closed l = ret (
    if l.opened
    then (let (c, out) = fin_ack w.ip_id l.conn in go_on l.opened (change_state c fin_wait_1, out))
    else go_on l.opened (l.conn, []))
select_case w t2s timed_out l = ret (record { effects = quit l.conn; next = none })
select_case w t2s quit_by_other l =
    ret (record { effects = if l.conn.has_socks then close_socks ∷ [] else []; next = none })

-- One round of the loop.
unfoldable pub turn : World → Proxies → Event → Loop → Go Turn
turn w t2s e l0 =
    let l = open_channels w.now l0 in
    if l.conn.destroyed
    then ret (record { effects = quit l.conn; next = none })
    else select_case w t2s e l

-- The window only grows to its maximum, and a window that a packet has set meanwhile stays.
unfoldable pub interfere : Outside → Conn → Conn
interfere (written n) c = record c { recv_window = min max_recv_window (c.recv_window + n) }
interfere (read wnd n) c = if c.send_window == wnd then record c { send_window = wnd - n } else c
interfere (connect_changed s) c = record c { connect_state = s }
interfere destroy c = record c { destroyed = true }

unfoldable pub move : Proxies → Move → Loop → Go Turn
move t2s (round w e) l = turn w t2s e l
move t2s (outside o) l =
    ret (record { effects = []; next = some (record l { conn = interfere o l.conn }) })

-- The moves of a connection, until `run` returns.
unfoldable pub runs : Proxies → List Move → Option Loop → Go Turn
runs t2s [] l = ret (record { effects = []; next = l })
runs t2s (m ∷ ms) none = ret (record { effects = []; next = none })
runs t2s (m ∷ ms) (some l) = move t2s m l >>= λ t.
    runs t2s ms t.next >>= λ u. ret (record { effects = t.effects ++ u.effects; next = u.next })
