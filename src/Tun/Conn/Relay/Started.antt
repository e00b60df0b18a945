-- ===== src/Tun/Conn/Relay/Started.antt =====
-- The relay of a connection from the start of its goroutines on.
use go_game_proxy.Prelude.{
  ◌≤◌, ◌≡◌, refl, sym, ap, ◌∙◌, subst, Bool, true, false, not, ◌&&◌, append-nil, List, [], ◌∷◌,
  ◌++◌, ◌==◌, Bytes, All, if◌then◌else◌, arith,
}
use go_game_proxy.Prelude.Bytes.{joined}
use go_game_proxy.Packet.Wire.{ret}
use go_game_proxy.Tun.Pack.{TcpPacket}
use go_game_proxy.Socks.{Net}
use go_game_proxy.Tun.Conn.{Conn, max_recv_window, connect_not_sent, connect_established}
use go_game_proxy.Tun.Conn.Handlers.{is_not_sent}
use go_game_proxy.Tun.Conn.Relay.{Relay, RelayMove, is_http, needs_connect, start_goroutines}
use go_game_proxy.Tun.Conn.Relay.Moves.{is_open, outgoing, run_relay}
use go_game_proxy.Tun.Conn.Relay.Carried.{IsCarried, Renders, request_for, request_for-nil}
use go_game_proxy.Tun.Conn.Relay.Stream.{IsStream, IsPiece}
use go_game_proxy.Tun.Conn.Relay.Runs.{handed_in, run_relay-Goes}

-- Nothing has gone through yet, and the channel is open.
pub record IsUnused (s : Relay) : Type 0 where
  pub connect_unsent : s.conn.connect_state ≡ connect_not_sent
  pub nothing_handed : s.incoming ≡ []
  pub nothing_written : s.written ≡ []
  pub nothing_delivered : s.delivered ≡ []
  pub channel_open : s.close_closed ≡ false
  pub window_fits : s.conn.recv_window ≤ max_recv_window

module _ (net : Net) (s : Relay) (f : IsUnused s) (render : TcpPacket → Bytes) where
  abbrev started : Relay
  started = start_goroutines s false

  -- The connection of `started`.
  abbrev conn_from : Bool → Conn
  conn_from opening =
      if opening then s.conn else record s.conn { connect_state = connect_established }

  -- What of the connection the start depends on.
  abbrev StartsWith : Bool → Conn → Type 0
  StartsWith opening c =
      (is_not_sent c.connect_state ≡ opening)
      × (is_open c.connect_state ≡ not opening)
      × (c.proxy_server ≡ s.conn.proxy_server)
      × (c.remote_ip ≡ s.conn.remote_ip)
      × (c.recv_window ≡ s.conn.recv_window)

  conn_from-StartsWith : (opening : Bool) → StartsWith opening (conn_from opening)
  unfolding is_not_sent is_open
  conn_from-StartsWith true =
      (ap is_not_sent f.connect_unsent, ap is_open f.connect_unsent, refl, refl, refl)
  conn_from-StartsWith false = (refl, refl, refl, refl, refl)

  and_true : (b : Bool) → (b && true) ≡ b
  and_true true = refl
  and_true false = refl

  started-StartsWith : StartsWith (needs_connect s.conn) (conn_from (needs_connect s.conn))
  started-StartsWith = conn_from-StartsWith (needs_connect s.conn)

  started-IsCarried :
      IsCarried net s.conn.remote_ip s.conn.proxy_server (needs_connect s.conn) render [] started
  unfolding start_goroutines
  started-IsCarried = record {
    taken = [];
    due = [];
    all_handed = f.nothing_handed;
    is_due = refl;
    in_order =
        append-nil s.written
        ∙ (f.nothing_written
            ∙ sym (
                append-nil (
                  request_for net s.conn.remote_ip s.conn.proxy_server (needs_connect s.conn) render
                    (needs_connect s.conn) [])
                ∙ request_for-nil net s.conn.remote_ip s.conn.proxy_server (needs_connect s.conn)
                    render (needs_connect s.conn)));
    not_sent = started-StartsWith.0 ∙ sym (and_true (needs_connect s.conn));
    same_proxy = started-StartsWith.2;
    same_ip = started-StartsWith.3;
    can_render =
        subst (All (Renders net s.conn.remote_ip s.conn.proxy_server (needs_connect s.conn) render))
          (sym f.nothing_handed) tt;
  }

  started-IsStream : IsStream (needs_connect s.conn) s.remote started
  unfolding start_goroutines
  started-IsStream = record {
    answer = [];
    answer_fits = omega arith;
    whole = ap (λ d. joined d ++ s.remote) f.nothing_delivered;
    not_open = λ _. (refl, f.nothing_delivered);
    opened = λ h. (refl, started-StartsWith.1 ∙ ap not h);
    pieces = subst (All IsPiece) (sym f.nothing_delivered) tt;
    unclosed = λ _. f.channel_open;
    in_window = omega (arith, started-StartsWith.4, f.window_fits);
  }

  -- A packet is written as its payload, unless it goes to an HTTP proxy for another port than 443.
  abbrev pub IsPayload : TcpPacket → Type 0
  IsPayload pkt =
      (is_http s.conn.proxy_server.proxy_type && not (pkt.tcp.dst_port == 443)) ≡ false
      → render pkt ≡ pkt.tcp.payload

  outgoing-IsPayload :
      (pkt : TcpPacket) → outgoing s.conn.proxy_server pkt ≡ ret (render pkt) → IsPayload pkt
  unfolding outgoing
  outgoing-IsPayload pkt o plain =
      let e : outgoing s.conn.proxy_server pkt ≡ ret pkt.tcp.payload = rw (plain, outgoing) refl in
      let q = sym o ∙ e in cc

  all-IsPayload :
      (pkts : List TcpPacket)
      → All (Renders net s.conn.remote_ip s.conn.proxy_server (needs_connect s.conn) render) pkts
      → All IsPayload pkts
  all-IsPayload [] r = tt
  all-IsPayload (pkt ∷ pkts) r = (outgoing-IsPayload pkt r.0.0, all-IsPayload pkts r.1)

  -- The goroutines of a connection come back from every schedule whose packets can be written. What
  -- was handed over has been written in order, but for the packet that the writer holds and those
  -- that wait, behind the CONNECT request where one is needed, each packet as its payload unless it
  -- goes to an HTTP proxy for another port than 443. What the proxy sent was delivered in
  -- order in pieces that fit the buffer, but for one answer where there was a CONNECT request; the
  -- channel is not closed while the reader runs, and the receive window is within its bound.
  pub run_relay-IsCarried :
      (moves : List RelayMove)
      → All
          (Renders net s.conn.remote_ip s.conn.proxy_server (needs_connect s.conn) render)
          (handed_in moves)
      → (s' : Relay) × (run_relay net moves (start_goroutines s false) ≡ ret s')
        × IsCarried net s.conn.remote_ip s.conn.proxy_server
            (needs_connect s.conn)
            render
            (handed_in moves)
            s'
        × IsStream (needs_connect s.conn) s.remote s'
        × All IsPayload (handed_in moves)
  run_relay-IsCarried moves r =
      let (s', run, carried, stream) =
        run_relay-Goes net s.conn.remote_ip s.conn.proxy_server (needs_connect s.conn) render
          s.remote moves [] started r started-IsCarried started-IsStream in
      (s', run, carried, stream, all-IsPayload (handed_in moves) r)
