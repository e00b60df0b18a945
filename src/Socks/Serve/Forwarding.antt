-- ===== src/Socks/Serve/Forwarding.antt =====
-- The UDP relay of the SOCKS server, over every sequence of arrivals.
use go_game_proxy.Prelude.{
  ◌≡◌, refl, ap, ◌∙◌, Bool, true, false, Option, none, some, List, [], ◌∷◌, ◌++◌, Bytes, ◌==◌,
  ==_iff, if◌then◌else◌, All, All-append, Bool-cases, ◌⊎◌, inl, inr, both_branches,
}
use go_game_proxy.Packet.Wire.{ret, ◌>>=◌}
use go_game_proxy.Socks.{Result, done, failed, UdpRequest, parse_udp_request}
use go_game_proxy.Socks.Serve.{Addr, Names, legal_client_addr}
use go_game_proxy.Socks.Serve.Associate.{
  Relaying, Arrival, from_client, client_ended, from_remote, remote_ended, conn_event,
  idle_too_long, close_all, send_on, take_request, packed_answer, arrival_turn, run_arrivals,
}

-- One of the elements of a list.
abbrev pub Among : {A : Type 0} → A → List A → Type 0
Among a [] = ⊥
Among a (x ∷ xs) = (a ≡ x) ⊎ Among a xs

-- The datagrams that come from the side of the client.
abbrev pub datagrams : List Arrival → List (Addr × Bytes)
datagrams [] = []
datagrams (from_client addr body sent ∷ arrivals) = (addr, body) ∷ datagrams arrivals
datagrams (client_ended ∷ arrivals) = datagrams arrivals
datagrams (from_remote addr body sent ∷ arrivals) = datagrams arrivals
datagrams (remote_ended ∷ arrivals) = datagrams arrivals
datagrams (conn_event ∷ arrivals) = datagrams arrivals
datagrams (idle_too_long ∷ arrivals) = datagrams arrivals

module _ (names : Names) (announced : Option Addr) (heard : List (Addr × Bytes)) where
  -- An address from which the client may send.
  abbrev pub IsLegal : Addr → Type 0
  IsLegal addr = legal_client_addr names announced addr ≡ ret true

  -- A datagram that went out is the body of a whole request for this address, which was heard from an
  -- address from which the client may send.
  abbrev pub IsRequested : Bytes × Addr → Type 0
  IsRequested (body, a) =
      (req : UdpRequest) × (from : Addr) × (packet : Bytes) × Among (from, packet) heard
      × IsLegal from
      × (parse_udp_request names.net packet ≡ ret (done req))
      × (req.frag ≡ 0)
      × (req.body ≡ body)
      × (names.resolve req.dst_host req.dst_port ≡ some a)

  abbrev pub Reaches : Bytes × Addr → Type 0
  Reaches (body, a) = IsLegal a

  -- All sockets are open while the loop runs, and all are closed behind it; only requests go out, and
  -- answers only to an address from which the client may send.
  pub record IsRelaying (s : Relaying) : Type 0 where
    pub conn_kept : s.conn_open ≡ s.running
    pub client_kept : s.client_open ≡ s.running
    pub forward_kept : s.forward_open ≡ s.running
    pub from_legal : IsLegal s.client_addr
    pub to_legal : All Reaches s.to_client
    pub requested : All IsRequested s.to_remote

  -- What the messages are asked for: they are among those heard and parsed without a panic, and the
  -- address that the client announced is not nil.
  abbrev pub IsHeard : Arrival → Type 0
  IsHeard (from_client addr body sent) =
      (legal : Bool) × (r : Result UdpRequest) × (legal_client_addr names announced addr
        ≡ ret legal)
      × (parse_udp_request names.net body ≡ ret r)
      × Among (addr, body) heard
  IsHeard client_ended = Unit
  IsHeard (from_remote addr body sent) = Unit
  IsHeard remote_ended = Unit
  IsHeard conn_event = Unit
  IsHeard idle_too_long = Unit

  close_all-IsRelaying : (s : Relaying) → IsRelaying s → IsRelaying (close_all s)
  unfolding close_all
  close_all-IsRelaying s k = record {
    conn_kept = refl;
    client_kept = refl;
    forward_kept = refl;
    from_legal = k.from_legal;
    to_legal = k.to_legal;
    requested = k.requested;
  }

  -- The sockets stay as they are.
  goes_out :
      (s : Relaying) (addr : Addr) (out back : List (Bytes × Addr))
      → IsRelaying s
      → IsLegal addr
      → All IsRequested out
      → All Reaches back
      → IsRelaying (record s { client_addr = addr; to_remote = out; to_client = back })
  goes_out s addr out back k legal o b = record {
    conn_kept = k.conn_kept;
    client_kept = k.client_kept;
    forward_kept = k.forward_kept;
    from_legal = legal;
    to_legal = b;
    requested = o;
  }

  send_on-IsRelaying :
      (s : Relaying) (addr : Addr) (packet : Bytes) (req : UdpRequest) (to : Option Addr)
      (sent : Bool)
      → IsRelaying s
      → IsLegal addr
      → Among (addr, packet) heard
      → parse_udp_request names.net packet ≡ ret (done req)
      → req.frag ≡ 0
      → names.resolve req.dst_host req.dst_port ≡ to
      → IsRelaying (send_on (record s { client_addr = addr }) req.body to sent)
  unfolding send_on
  send_on-IsRelaying s addr packet req none sent k legal w p f e =
      close_all-IsRelaying (record s { client_addr = addr })
        (goes_out s addr s.to_remote s.to_client k legal k.requested k.to_legal)
  send_on-IsRelaying s addr packet req (some a) sent k legal w p f e =
      let out = s.to_remote ++ ((req.body, a) ∷ []) in
      both_branches IsRelaying sent (record s { client_addr = addr; to_remote = out })
        (close_all (record s { client_addr = addr }))
        (goes_out s addr out s.to_client k legal
          (All-append IsRequested s.to_remote ((req.body, a) ∷ []) k.requested
            ((req, addr, packet, w, legal, p, f, refl, e), tt))
          k.to_legal)
        (close_all-IsRelaying (record s { client_addr = addr })
          (goes_out s addr s.to_remote s.to_client k legal k.requested k.to_legal))

  take_request-IsRelaying :
      (s : Relaying) (addr : Addr) (packet : Bytes) (r : Result UdpRequest) (sent : Bool)
      → IsRelaying s
      → IsLegal addr
      → Among (addr, packet) heard
      → parse_udp_request names.net packet ≡ ret r
      → IsRelaying (take_request names s addr r sent)
  unfolding take_request
  take_request-IsRelaying s addr packet (failed e) sent k legal w p = close_all-IsRelaying s k
  take_request-IsRelaying s addr packet (done req) sent k legal w p =
      elim (Bool-cases (req.frag == 0)) [
        | inl f ↦ rw f (
            send_on-IsRelaying s addr packet req (names.resolve req.dst_host req.dst_port) sent k
              legal w p ((==_iff req.frag 0).0 f) refl)
        | inr f ↦ rw f k
      ]

  -- A turn of the loop comes back and keeps all this.
  arrival_turn-IsRelaying :
      (a : Arrival) (s : Relaying)
      → IsRelaying s
      → IsHeard a
      → (s' : Relaying) × (arrival_turn names announced a s ≡ ret s') × IsRelaying s'
  unfolding arrival_turn
  arrival_turn-IsRelaying (from_client addr body sent) s k (true, r, l, p, w) = (
    take_request names s addr r sent,
    rw (l, p) refl,
    take_request-IsRelaying s addr body r sent k l w p,
  )
  arrival_turn-IsRelaying (from_client addr body sent) s k (false, r, l, p, w) = (s, rw l refl, k)
  arrival_turn-IsRelaying client_ended s k h = (close_all s, refl, close_all-IsRelaying s k)
  arrival_turn-IsRelaying (from_remote addr body sent) s k h =
      let back = s.to_client ++ ((packed_answer names addr body, s.client_addr) ∷ []) in
      (
        if sent then record s { to_client = back } else close_all s,
        refl,
        both_branches IsRelaying sent (record s { to_client = back }) (close_all s)
            (goes_out s s.client_addr s.to_remote back k k.from_legal k.requested (
              All-append Reaches s.to_client ((packed_answer names addr body, s.client_addr) ∷ [])
                k.to_legal (k.from_legal, tt)))
            (close_all-IsRelaying s k),
      )
  arrival_turn-IsRelaying remote_ended s k h = (close_all s, refl, close_all-IsRelaying s k)
  arrival_turn-IsRelaying conn_event s k h = (close_all s, refl, close_all-IsRelaying s k)
  arrival_turn-IsRelaying idle_too_long s k h = (close_all s, refl, close_all-IsRelaying s k)

  running_step :
      (a : Arrival) (arrivals : List Arrival) (s s1 : Relaying)
      → s.running ≡ true
      → arrival_turn names announced a s ≡ ret s1
      → run_arrivals names announced (a ∷ arrivals) s ≡ run_arrivals names announced arrivals s1
  unfolding run_arrivals
  running_step a arrivals s s1 r step = rw step (rw r refl)

  ended_step :
      (a : Arrival) (arrivals : List Arrival) (s : Relaying)
      → s.running ≡ false
      → run_arrivals names announced (a ∷ arrivals) s ≡ ret s
  unfolding run_arrivals
  ended_step a arrivals s r =
      ap
        (λ b.
          if b
          then (arrival_turn names announced a s >>= λ s'. run_arrivals names announced arrivals s')
          else ret s)
        r

  -- The relay comes back from all arrivals whose messages can be read. Its sockets are all open while
  -- it runs and all closed behind that; what went out are the bodies of whole requests that
  -- were heard, to the addresses that they name, and answers only went to addresses from which the client may send.
  pub run_arrivals-IsRelaying :
      (arrivals : List Arrival) (s : Relaying)
      → IsRelaying s
      → All IsHeard arrivals
      → (s' : Relaying) × (run_arrivals names announced arrivals s ≡ ret s') × IsRelaying s'
  unfolding run_arrivals
  run_arrivals-IsRelaying [] s k h = (s, refl, k)
  run_arrivals-IsRelaying (a ∷ arrivals) s k h = elim (Bool-cases s.running) [
    | inr r ↦ (s, ended_step a arrivals s r, k)
    | inl r ↦
        let (s1, step, k1) = arrival_turn-IsRelaying a s k h.0 in
        let (s2, more, k2) = run_arrivals-IsRelaying arrivals s1 k1 h.1 in
        (s2, running_step a arrivals s s1 r step ∙ more, k2)
  ]
