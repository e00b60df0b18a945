-- ===== src/Tun/Associate/Lifecycle.antt =====
-- What becomes of the sockets and channels of a UDP connection, and of the answers of a name server.
use go_game_proxy.Prelude.{
  ℕ, ◌≤◌, ◌≡◌, refl, Bool, true, false, not, Option, List, [], ◌∷◌, ◌++◌, Bytes, ◌==◌, length,
  length-append, Bool-cases, inl, inr, arith,
}
use go_game_proxy.Prelude.Bytes.{same_bytes}
use go_game_proxy.Packet.Wire.{Go, ret, close_chan}
use go_game_proxy.Socks.{Result, done, failed, UdpRequest, parse_udp_request}
use go_game_proxy.Tun.Associate.{
  Env, Assoc, RelayEvent, relay_ended, answer, request, socks_ended, timed_out, quit_by_other,
  end_loop, leave, send_answer, after_answer, take_answer, forward, relay_turn, stored_in,
}
use go_game_proxy.Tun.Datagram.{UdpPacket}
use go_game_proxy.Tun.Datagram.Delivered.{IsAnswer, answer_packet, response_packet-delivers}
use go_game_proxy.Tun.Dns.{Msg, is_dns}
use go_game_proxy.Tun.Fragments.{IpPacket}
use go_game_proxy.Tun.Pack.{mtu}

-- The addresses and ports of a connection.
abbrev pub Ends : Type 0
Ends = Bytes × Bytes × ℕ × ℕ

abbrev body_of : Result UdpRequest → Bytes
body_of (failed e) = []
body_of (done req) = req.body

-- What the code needs of an answer: it is parsed without a panic, and what it carries fits a
-- datagram of these ends. The pool hands out buffers of the usual length.
pub record IsServable (env : Env) (e : Ends) (body : Bytes) (id : ℕ) (old : Bytes)
    (pool : ℕ → Bytes) : Type 0 where
  pub req : Result UdpRequest
  pub parsed : parse_udp_request env.net body ≡ ret req
  pub fits : IsAnswer id e.0 e.1 e.2 e.3 (body_of req)
  pub old_length : length old ≡ mtu
  pub pool_length : (i : ℕ) → length (pool i) ≡ mtu

abbrev pub IsServed : Env → Ends → RelayEvent → Type 0
IsServed env e (answer addr body id now old pool) = IsServable env e body id old pool
IsServed env e relay_ended = Unit
IsServed env e (request pkt written) = Unit
IsServed env e socks_ended = Unit
IsServed env e timed_out = Unit
IsServed env e quit_by_other = Unit

module _ {Rest : Type 0} where
  -- The loop runs with both sockets open and nothing closed. Once it has ended both are closed and
  -- so is the channel of the reader; it has left the map and closed its own channel, or neither.
  -- A connection to a name server has sent no answer while it runs, and one at most.
  pub record IsKept (s : Assoc Rest) : Type 0 where
    pub sockets_open : s.running ≡ true → (s.socks_open ≡ true) × (s.bind_open ≡ true)
    pub nothing_closed :
        s.running ≡ true → (s.quit_by_self ≡ false) × (s.quit_udp ≡ false) × (s.registered ≡ true)
    pub all_closed :
        s.running ≡ false
        → (s.socks_open ≡ false)
          × (s.bind_open ≡ false)
          × (s.quit_udp ≡ true)
          × (s.quit_by_self ≡ not s.registered)
    pub none_before_end : is_dns s.remote_port ≡ true → s.running ≡ true → length s.to_tun ≡ 0
    pub once : is_dns s.remote_port ≡ true → length s.to_tun ≤ 1

  abbrev pub ends : Assoc Rest → Ends
  ends s = (s.local_ip, s.remote_ip, s.local_port, s.remote_port)

  -- A step that comes back, with the connection as it should be, of the same ends.
  abbrev pub Comes : Ends → Go (Assoc Rest) → Type 0
  Comes e m = (s : Assoc Rest) × (m ≡ ret s) × IsKept s × (ends s ≡ e)

  end_loop-IsKept :
      (s : Assoc Rest)
      → s.quit_by_self ≡ false
      → s.quit_udp ≡ false
      → (is_dns s.remote_port ≡ true → length s.to_tun ≤ 1)
      → Comes (ends s) (end_loop s)
  unfolding end_loop close_chan
  end_loop-IsKept s q u o = (
    record s {
      running = false;
      registered = false;
      socks_open = false;
      bind_open = false;
      quit_by_self = true;
      quit_udp = true;
    },
    rw (q, u) refl,
    record {
      sockets_open = λ h. absurd (ground arith);
      nothing_closed = λ h. absurd (ground arith);
      all_closed = λ h. (refl, refl, refl, refl);
      none_before_end = λ d h. absurd (ground arith);
      once = o;
    },
    refl,
  )

  leave-IsKept :
      (s : Assoc Rest)
      → s.quit_by_self ≡ false
      → s.quit_udp ≡ false
      → s.registered ≡ true
      → (is_dns s.remote_port ≡ true → length s.to_tun ≤ 1)
      → Comes (ends s) (leave s)
  unfolding leave close_chan
  leave-IsKept s q u r o = (
    record s { running = false; socks_open = false; bind_open = false; quit_udp = true },
    rw u refl,
    record {
      sockets_open = λ h. absurd (ground arith);
      nothing_closed = λ h. absurd (ground arith);
      all_closed = λ h. (refl, refl, refl, rw (q, r) refl);
      none_before_end = λ d h. absurd (ground arith);
      once = o;
    },
    refl,
  )

  pub unchanged : (s : Assoc Rest) → IsKept s → Comes (ends s) (ret s)
  unchanged s k = (s, refl, k, refl)

  module _ (env : Env) (unpack : Bytes → Option (Msg Rest)) (s : Assoc Rest) (k : IsKept s)
      (r : s.running ≡ true) where
    finished : Comes (ends s) (end_loop s)
    finished = end_loop-IsKept s (k.nothing_closed r).0 (k.nothing_closed r).1 k.once

    after_answer-IsKept :
        (sent : UdpPacket × List IpPacket) (body : Bytes) (now : ℕ)
        → Comes
            (ends s)
            (after_answer env unpack (record s { to_tun = s.to_tun ++ (sent ∷ []) }) body now)
    unfolding after_answer
    after_answer-IsKept sent body now = elim (Bool-cases (is_dns s.remote_port)) [
      | inl d ↦ rw d (
          end_loop-IsKept
            (record s {
              to_tun = s.to_tun ++ (sent ∷ []);
              cache = stored_in env unpack s.cache body now;
            })
            (k.nothing_closed r).0 (k.nothing_closed r).1
            (λ h. omega (arith, length-append s.to_tun (sent ∷ []), k.none_before_end d r)))
      | inr d ↦ rw d (
        record s { to_tun = s.to_tun ++ (sent ∷ []) },
        refl,
        record {
          sockets_open = k.sockets_open;
          nothing_closed = k.nothing_closed;
          all_closed = k.all_closed;
          none_before_end = λ h. absurd (ground (arith, h, d));
          once = λ h. absurd (ground (arith, h, d));
        },
        refl,
      )
    ]

    take_answer-IsKept :
        (req : Result UdpRequest) (body : Bytes) (id now : ℕ) (old : Bytes) (pool : ℕ → Bytes)
        → IsAnswer id s.local_ip s.remote_ip s.local_port s.remote_port (body_of req)
        → length old ≡ mtu
        → ((i : ℕ) → length (pool i) ≡ mtu)
        → Comes (ends s) (take_answer env unpack s req id now old pool)
    unfolding take_answer send_answer
    take_answer-IsKept (failed e) body id now old pool h l f = unchanged s k
    take_answer-IsKept (done req) body id now old pool h l f = elim (Bool-cases (req.frag == 0)) [
      | inl z ↦
          let (frags, e, joined, are) =
            response_packet-delivers id s.local_ip s.remote_ip s.local_port s.remote_port req.body h
              old l pool f in
          rw z (
            rw e (
              after_answer-IsKept
                (
                  answer_packet id s.local_ip s.remote_ip s.local_port s.remote_port req.body h,
                  frags,
                )
                req.body now))
      | inr z ↦ rw z (unchanged s k)
    ]

    forward-IsKept :
        (pkt : UdpPacket) (written : Bool) → Comes (ends s) (forward env unpack s pkt written)
    unfolding forward
    forward-IsKept pkt false = finished
    forward-IsKept pkt true = (
      _,
      refl,
      record {
        sockets_open = k.sockets_open;
        nothing_closed = k.nothing_closed;
        all_closed = k.all_closed;
        none_before_end = k.none_before_end;
        once = k.once;
      },
      refl,
    )

    -- A turn of a loop that runs comes back, and keeps what is to be kept.
    pub relay_turn-IsKept :
        (relay : Bytes) (e : RelayEvent)
        → IsServed env (ends s) e
        → Comes (ends s) (relay_turn env unpack relay s e)
    unfolding relay_turn
    relay_turn-IsKept relay relay_ended h = finished
    relay_turn-IsKept relay (answer addr body id now old pool) h =
        elim (Bool-cases (same_bytes addr relay)) [
          | inl z ↦ rw z (
              rw h.parsed
                (take_answer-IsKept h.req body id now old pool h.fits h.old_length h.pool_length))
          | inr z ↦ rw z (unchanged s k)
        ]
    relay_turn-IsKept relay (request pkt written) h = forward-IsKept pkt written
    relay_turn-IsKept relay socks_ended h =
        end_loop-IsKept (record s { socks_closed = true }) (k.nothing_closed r).0
          (k.nothing_closed r).1 k.once
    relay_turn-IsKept relay timed_out h = finished
    relay_turn-IsKept relay quit_by_other h =
        leave-IsKept s (k.nothing_closed r).0 (k.nothing_closed r).1 (k.nothing_closed r).2 k.once
