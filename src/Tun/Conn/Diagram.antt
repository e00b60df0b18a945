-- ===== src/Tun/Conn/Diagram.antt =====
-- The state diagram of a connection.
use go_game_proxy.Prelude.{ℕ, true, false, ◌⊎◌, inl, [], ◌≡◌, ◌≢◌, refl, arith, subst}
use go_game_proxy.Packet.Wire.{ret}
use go_game_proxy.Tun.Pack.{TcpPacket}
use go_game_proxy.Tun.Conn.{
  TcpState, closed, syn_rcvd, established, fin_wait_1, fin_wait_2, closing, last_ack, time_wait,
  Conn, valid_seq, valid_ack, relay_payload, send, fin_ack, send_ack,
}
use go_game_proxy.Tun.Conn.Handlers.{
  World, Proxies, Outcome, state_syn_rcvd, state_established, state_fin_wait_1, state_fin_wait_2,
  state_closing, state_last_ack, relay, ack_fin,
}
use go_game_proxy.Tun.Conn.Run.{handle}

-- The changes of state that a packet makes behind CLOSED, with the FIN flag and the acknowledgement
-- of the next number `nxt` that they ask for.
unfoldable pub IsEdge : ℕ → TcpPacket → TcpState → TcpState → Type 0
IsEdge nxt pkt closed t = ⊥
IsEdge nxt pkt syn_rcvd t = t ≡ established
IsEdge nxt pkt established t = (t ≡ last_ack) × (pkt.tcp.fin ≡ true)
IsEdge nxt pkt fin_wait_1 t =
    ((t ≡ fin_wait_2) × (pkt.tcp.fin ≡ false))
    ⊎ ((t ≡ closing) × (pkt.tcp.fin ≡ true) × (pkt.tcp.ack ≢ nxt))
    ⊎ ((t ≡ time_wait) × (pkt.tcp.fin ≡ true) × (pkt.tcp.ack ≡ nxt))
IsEdge nxt pkt fin_wait_2 t = (t ≡ time_wait) × (pkt.tcp.fin ≡ true)
IsEdge nxt pkt closing t = t ≡ time_wait
IsEdge nxt pkt last_ack t = t ≡ closed
IsEdge nxt pkt time_wait t = ⊥

-- The state stays, or a packet in sequence and with ACK moves it along an edge.
unfoldable pub Moves : Conn → TcpPacket → Conn → Type 0
Moves c pkt c1 =
    (c1.state ≡ c.state)
    ⊎ (IsEdge c.nxt_seq pkt c.state c1.state
        × (pkt.tcp.seq ≡ c.rcv_nxt_seq)
        × (pkt.tcp.ack_flag ≡ true))

syn_rcvd-Moves :
    (w : World) (c : Conn) (pkt : TcpPacket)
    → c.state ≡ syn_rcvd
    → Moves c pkt (state_syn_rcvd w c pkt).conn
unfolding Moves IsEdge state_syn_rcvd valid_seq relay relay_payload
syn_rcvd-Moves w c pkt e = ground arith

established-Moves :
    (w : World) (c : Conn) (pkt : TcpPacket)
    → c.state ≡ established
    → Moves c pkt (state_established w c pkt).conn
unfolding Moves IsEdge state_established valid_seq relay relay_payload fin_ack send_ack send
established-Moves w c pkt e = ground arith

fin_wait_1-Moves :
    (w : World) (c : Conn) (pkt : TcpPacket)
    → c.state ≡ fin_wait_1
    → Moves c pkt (state_fin_wait_1 w c pkt).conn
unfolding Moves IsEdge state_fin_wait_1 valid_seq valid_ack ack_fin send_ack send
fin_wait_1-Moves w c pkt e = ground arith

fin_wait_2-Moves :
    (w : World) (c : Conn) (pkt : TcpPacket)
    → c.state ≡ fin_wait_2
    → Moves c pkt (state_fin_wait_2 w c pkt).conn
unfolding Moves IsEdge state_fin_wait_2 valid_seq ack_fin send_ack send
fin_wait_2-Moves w c pkt e = ground arith

closing-Moves :
    (c : Conn) (pkt : TcpPacket) → c.state ≡ closing → Moves c pkt (state_closing c pkt).conn
unfolding Moves IsEdge state_closing valid_seq
closing-Moves c pkt e = ground arith

last_ack-Moves :
    (c : Conn) (pkt : TcpPacket) → c.state ≡ last_ack → Moves c pkt (state_last_ack c pkt).conn
unfolding Moves IsEdge state_last_ack valid_seq
last_ack-Moves c pkt e = ground arith

stays-Moves : (c : Conn) (pkt : TcpPacket) → Moves c pkt c
unfolding Moves
stays-Moves c pkt = inl refl

by_state :
    (st : TcpState) (w : World) (t2s : Proxies) (c : Conn) (pkt : TcpPacket) (o : Outcome)
    → c.state ≡ st
    → st ≢ closed
    → handle w t2s st c pkt ≡ ret o
    → Moves c pkt o.conn
unfolding handle
by_state closed w t2s c pkt o e n h = absurd (n refl)
by_state syn_rcvd w t2s c pkt o e n h =
    subst (λ x. Moves c pkt x.conn) (let q : state_syn_rcvd w c pkt ≡ o = cc in q)
      (syn_rcvd-Moves w c pkt e)
by_state established w t2s c pkt o e n h =
    subst (λ x. Moves c pkt x.conn) (let q : state_established w c pkt ≡ o = cc in q)
      (established-Moves w c pkt e)
by_state fin_wait_1 w t2s c pkt o e n h =
    subst (λ x. Moves c pkt x.conn) (let q : state_fin_wait_1 w c pkt ≡ o = cc in q)
      (fin_wait_1-Moves w c pkt e)
by_state fin_wait_2 w t2s c pkt o e n h =
    subst (λ x. Moves c pkt x.conn) (let q : state_fin_wait_2 w c pkt ≡ o = cc in q)
      (fin_wait_2-Moves w c pkt e)
by_state closing w t2s c pkt o e n h =
    subst (λ x. Moves c pkt x.conn) (let q : state_closing c pkt ≡ o = cc in q)
      (closing-Moves c pkt e)
by_state last_ack w t2s c pkt o e n h =
    subst (λ x. Moves c pkt x.conn) (let q : state_last_ack c pkt ≡ o = cc in q)
      (last_ack-Moves c pkt e)
by_state time_wait w t2s c pkt o e n h =
    subst (λ x. Moves c pkt x.conn)
      (let q : record { conn = c; effects = []; continu = false; release = false } ≡ o = cc in q)
      (stays-Moves c pkt)

-- A packet that a connection handles behind CLOSED leaves the state as it is, or it is in sequence,
-- has ACK set and makes a change of the diagram: ESTABLISHED is left for LAST_ACK by a FIN,
-- FIN_WAIT_1 without one for FIN_WAIT_2 and by a FIN for TIME_WAIT, when the packet acknowledges the
-- next number of the connection, and else for CLOSING.
pub handle-diagram :
    (w : World) (t2s : Proxies) (c : Conn) (pkt : TcpPacket) (o : Outcome)
    → c.state ≢ closed
    → handle w t2s c.state c pkt ≡ ret o
    → Moves c pkt o.conn
handle-diagram w t2s c pkt o n h = by_state c.state w t2s c pkt o refl n h
