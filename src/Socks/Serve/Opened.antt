-- ===== src/Socks/Serve/Opened.antt =====
-- The UDP relay of the SOCKS server from the first packet of its client on.
use go_game_proxy.Prelude.{
  ◌≡◌, refl, subst, Bool, true, false, not, Option, none, some, List, [], ◌∷◌, ◌++◌, Bytes, ◌==◌,
  ==_iff, if◌then◌else◌, All, Bool-cases, inl, inr,
}
use go_game_proxy.Packet.Wire.{Go, ret, panic, hang, ◌>>=◌, OnReturn}
use go_game_proxy.Socks.{Result, done, failed, UdpRequest, parse_udp_request}
use go_game_proxy.Socks.Serve.{
  Addr, Names, legal_client_addr, First, first_failed, first_waits, first_packet, first_loop,
  first_of,
}
use go_game_proxy.Socks.Serve.Associate.{
  Relaying, Arrival, from_client, client_ended, from_remote, remote_ended, conn_event,
  idle_too_long, udp_associate_forwarding, start_forwarding,
}
use go_game_proxy.Socks.Serve.Forwarding.{
  Among, datagrams, IsHeard, IsRelaying, run_arrivals-IsRelaying,
}

-- The datagrams that are read before the relay starts.
abbrev pub read_in : List (Option (Addr × Bytes)) → List (Addr × Bytes)
read_in [] = []
read_in (none ∷ reads) = read_in reads
read_in (some packet ∷ reads) = packet ∷ read_in reads

Among-append_left : {A : Type 0} (a : A) (xs ys : List A) → Among a xs → Among a (xs ++ ys)
Among-append_left a [] ys h = absurd h
Among-append_left a (x ∷ xs) ys (inl e) = inl e
Among-append_left a (x ∷ xs) ys (inr h) = inr (Among-append_left a xs ys h)

Among-append_right : {A : Type 0} (a : A) (xs ys : List A) → Among a ys → Among a (xs ++ ys)
Among-append_right a [] ys h = h
Among-append_right a (x ∷ xs) ys h = inr (Among-append_right a xs ys h)

module _ (names : Names) (announced : Option Addr) where
  -- The packet that starts the relay: a whole request that was read from an address from which the
  -- client may send.
  abbrev pub IsFirst : List (Addr × Bytes) → First → Type 0
  IsFirst came first_failed = Unit
  IsFirst came first_waits = Unit
  IsFirst came (first_packet a req addr) =
      (a ≡ announced)
      × (req.frag ≡ 0)
      × (legal_client_addr names announced addr ≡ ret true)
      × (packet : Bytes) × Among (addr, packet) came
      × (parse_udp_request names.net packet ≡ ret (done req))

  later_first :
      (p : Addr × Bytes) (came : List (Addr × Bytes)) (f : First)
      → IsFirst came f
      → IsFirst (p ∷ came) f
  later_first p came first_failed h = tt
  later_first p came first_waits h = tt
  later_first p came (first_packet a req addr) (same, whole, legal, packet, w, parsed) =
      (same, whole, legal, packet, inr w, parsed)

  first_of-IsFirst :
      (r : Result UdpRequest) (addr : Addr) (body : Bytes) (came : List (Addr × Bytes))
      (rest : Go First)
      → legal_client_addr names announced addr ≡ ret true
      → parse_udp_request names.net body ≡ ret r
      → OnReturn (IsFirst ((addr, body) ∷ came)) rest
      → OnReturn (IsFirst ((addr, body) ∷ came)) (first_of r announced addr rest)
  unfolding first_of
  first_of-IsFirst (failed e) addr body came rest legal p h = tt
  first_of-IsFirst (done req) addr body came rest legal p h = elim (Bool-cases (req.frag == 0)) [
    | inl f ↦ rw f (refl, (==_iff req.frag 0).0 f, legal, body, inl refl, p)
    | inr f ↦ rw f h
  ]

  parsed_first :
      (g : Go (Result UdpRequest)) (addr : Addr) (body : Bytes) (came : List (Addr × Bytes))
      (rest : Go First)
      → legal_client_addr names announced addr ≡ ret true
      → parse_udp_request names.net body ≡ g
      → OnReturn (IsFirst ((addr, body) ∷ came)) rest
      → OnReturn (IsFirst ((addr, body) ∷ came)) (g >>= λ req. first_of req announced addr rest)
  parsed_first (ret r) addr body came rest legal p h =
      first_of-IsFirst r addr body came rest legal p h
  parsed_first panic addr body came rest legal p h = tt
  parsed_first hang addr body came rest legal p h = tt

  first_round :
      (g : Go Bool) (addr : Addr) (body : Bytes) (came : List (Addr × Bytes)) (rest : Go First)
      → legal_client_addr names announced addr ≡ g
      → OnReturn (IsFirst ((addr, body) ∷ came)) rest
      → OnReturn (IsFirst ((addr, body) ∷ came)) (
          g >>= λ legal.
          if not legal
          then rest
          else parse_udp_request names.net body >>= λ req. first_of req announced addr rest)
  first_round (ret true) addr body came rest e h =
      parsed_first (parse_udp_request names.net body) addr body came rest e refl h
  first_round (ret false) addr body came rest e h = h
  first_round panic addr body came rest e h = tt
  first_round hang addr body came rest e h = tt

  later_loop :
      (p : Addr × Bytes) (came : List (Addr × Bytes)) (g : Go First)
      → OnReturn (IsFirst came) g
      → OnReturn (IsFirst (p ∷ came)) g
  later_loop p came (ret f) h = later_first p came f h
  later_loop p came panic h = tt
  later_loop p came hang h = tt

  first_loop-IsFirst :
      (reads : List (Option (Addr × Bytes)))
      → OnReturn (IsFirst (read_in reads)) (first_loop names announced reads)
  unfolding first_loop
  first_loop-IsFirst [] = tt
  first_loop-IsFirst (none ∷ reads) = tt
  first_loop-IsFirst (some (addr, body) ∷ reads) =
      first_round (legal_client_addr names announced addr) addr body (read_in reads)
        (first_loop names announced reads) refl
        (later_loop (addr, body) (read_in reads) (first_loop names announced reads)
          (first_loop-IsFirst reads))

  -- What an arrival is asked for: its message is parsed without a panic, and the address that the
  -- client announced is not nil.
  abbrev pub IsReadable : Arrival → Type 0
  IsReadable (from_client addr body sent) =
      (legal : Bool) × (r : Result UdpRequest) × (legal_client_addr names announced addr
        ≡ ret legal)
      × (parse_udp_request names.net body ≡ ret r)
  IsReadable client_ended = Unit
  IsReadable (from_remote addr body sent) = Unit
  IsReadable remote_ended = Unit
  IsReadable conn_event = Unit
  IsReadable idle_too_long = Unit

  all-IsHeard :
      (arrivals : List Arrival) (heard : List (Addr × Bytes))
      → ((p : Addr × Bytes) → Among p (datagrams arrivals) → Among p heard)
      → All IsReadable arrivals
      → All (IsHeard names announced heard) arrivals
  all-IsHeard [] heard into h = tt
  all-IsHeard (from_client addr body sent ∷ arrivals) heard into ((legal, r, l, p), h) = (
    (legal, r, l, p, into (addr, body) (inl refl)),
    all-IsHeard arrivals heard (λ q w. into q (inr w)) h,
  )
  all-IsHeard (client_ended ∷ arrivals) heard into h = (tt, all-IsHeard arrivals heard into h.1)
  all-IsHeard (from_remote addr body sent ∷ arrivals) heard into h =
      (tt, all-IsHeard arrivals heard into h.1)
  all-IsHeard (remote_ended ∷ arrivals) heard into h = (tt, all-IsHeard arrivals heard into h.1)
  all-IsHeard (conn_event ∷ arrivals) heard into h = (tt, all-IsHeard arrivals heard into h.1)
  all-IsHeard (idle_too_long ∷ arrivals) heard into h = (tt, all-IsHeard arrivals heard into h.1)

  -- From a first packet that the client may send, whose address is found and that is written, the
  -- relay comes back from all arrivals whose messages are parsed without a panic. Its sockets are
  -- all open while it runs and all closed behind that. Every datagram that went out is the body of
  -- a whole request, to the address that it names, and the request is one of the datagrams that
  -- were read before the start or arrived later, from an address from which the client may send.
  -- Answers only went to addresses from which the client may send.
  pub udp_associate-IsRelaying :
      (reads : List (Option (Addr × Bytes))) (a : Option Addr) (req : UdpRequest) (client to : Addr)
      (arrivals : List Arrival)
      → first_loop names announced reads ≡ ret (first_packet a req client)
      → names.resolve req.dst_host req.dst_port ≡ some to
      → All IsReadable arrivals
      → (s' : Relaying) × (udp_associate_forwarding names announced req client true true arrivals
          ≡ ret s')
        × IsRelaying names announced (read_in reads ++ datagrams arrivals) s'
  unfolding udp_associate_forwarding start_forwarding
  udp_associate-IsRelaying reads a req client to arrivals e r h =
      let heard = read_in reads ++ datagrams arrivals in
      let (same, whole, legal, packet, w, parsed) =
        subst (OnReturn (IsFirst (read_in reads))) e (first_loop-IsFirst reads) in
      let s : Relaying = start_forwarding req client (some to) true true in
      let from = Among-append_left (client, packet) (read_in reads) (datagrams arrivals) w in
      let k : IsRelaying names announced heard s = record {
        conn_kept = refl;
        client_kept = refl;
        forward_kept = refl;
        from_legal = legal;
        to_legal = tt;
        requested = ((req, client, packet, from, legal, parsed, whole, refl, r), tt);
      } in
      let (s', run, k') = run_arrivals-IsRelaying names announced heard arrivals s k (
        all-IsHeard arrivals heard (λ p. Among-append_right p (read_in reads) (datagrams arrivals))
          h) in
      (s', rw r run, k')
