-- ===== src/Tun/Associate/Runs.antt =====
-- A UDP connection from the dial of its relay to the end of its loop.
use go_game_proxy.Prelude.{
  ◌≡◌, ap, if◌then◌else◌, refl, sym, ◌∙◌, subst, Bool, true, false, ◌&&◌, ◌||◌, Option, none, some,
  List, [], ◌∷◌, Bytes, ◌==◌, ==_iff, Bool-cases, inl, inr, All, arith,
}
use go_game_proxy.Packet.Wire.{ret, ◌>>=◌, close_chan}
use go_game_proxy.Socks.{Result, done, failed, Common, read_common, write_common}
use go_game_proxy.Tun.Associate.{
  Env, Assoc, Opening, RelayEvent, run_events, relay_turn, open_relay, read_reply, write_request,
  give_up, associate_request,
}
use go_game_proxy.Tun.Associate.Lifecycle.{IsKept, ends, IsServed, relay_turn-IsKept, unchanged}
use go_game_proxy.Tun.Dns.{Msg}

module _ {Rest : Type 0} where
  -- A connection that has just been put into the map.
  pub record IsFresh (s : Assoc Rest) : Type 0 where
    pub not_running : s.running ≡ false
    pub socks_shut : s.socks_open ≡ false
    pub bind_shut : s.bind_open ≡ false
    pub socks_unclosed : s.socks_closed ≡ false
    pub self_unclosed : s.quit_by_self ≡ false
    pub udp_unclosed : s.quit_udp ≡ false
    pub in_map : s.registered ≡ true
    pub nothing_sent : s.to_tun ≡ []

  -- What is left of a connection that could not be opened: both channels of its end are closed, and
  -- no datagram has been taken.
  pub record IsGivenUp (bound : Bool) (s : Assoc Rest) : Type 0 where
    pub not_running : s.running ≡ false
    pub socks_shut : s.socks_open ≡ false
    pub left_map : s.registered ≡ false
    pub socks_ended : s.socks_closed ≡ true
    pub self_closed : s.quit_by_self ≡ true
    pub udp_unclosed : s.quit_udp ≡ false
    pub bind_left : s.bind_open ≡ bound
    pub nothing_sent : s.to_tun ≡ []

-- The request could be sent on a connection with a bound socket, and the reply grants it.
pub record IsGranted (o : Opening) (req : Result Bytes) (reply : Result Common) (c : Common)
    : Type 0 where
  pub is_dialled : (o.first_dial || o.second_dial) ≡ true
  pub is_bound : o.bound ≡ true
  pub is_packed : (b : Bytes) × (req ≡ done b)
  pub is_sent : o.request_sent ≡ true
  pub is_read : reply ≡ done c
  pub is_success : c.flag ≡ 0

-- The two ways in which the opening ends: with a loop that runs towards the relay that the reply
-- names, exactly if the request was granted, or given up.
abbrev pub Settled :
    {Rest : Type 0}
    → Env
    → Opening
    → Result Bytes
    → Result Common
    → Assoc Rest × Option Bytes
    → Type 0
Settled env o req reply (s, none) =
    IsGivenUp ((o.first_dial || o.second_dial) && o.bound) s
    × ((c : Common) → ¬ IsGranted o req reply c)
Settled env o req reply (s, some relay) =
    IsKept s
    × (s.running ≡ true)
    × (c : Common) × IsGranted o req reply c
    × (relay ≡ env.relay_string c.host c.port)

module _ {Rest : Type 0} (env : Env) (unpack : Bytes → Option (Msg Rest)) where
  running_step :
      (relay : Bytes) (e : RelayEvent) (events : List RelayEvent) (s s1 : Assoc Rest)
      → s.running ≡ true
      → relay_turn env unpack relay s e ≡ ret s1
      → run_events env unpack relay s (e ∷ events) ≡ run_events env unpack relay s1 events
  unfolding run_events
  running_step relay e events s s1 r step = rw step (rw r refl)

  ended_step :
      (relay : Bytes) (e : RelayEvent) (events : List RelayEvent) (s : Assoc Rest)
      → s.running ≡ false
      → run_events env unpack relay s (e ∷ events) ≡ ret s
  unfolding run_events
  ended_step relay e events s r =
      ap
        (λ b.
          if b
          then (relay_turn env unpack relay s e >>= λ s'. run_events env unpack relay s' events)
          else ret s)
        r

  -- The loop comes back from every sequence of events whose answers can be served, and closes no
  -- channel twice. While it runs both sockets are open; when it has ended, both are closed, and a
  -- name server's connection has sent one answer at most.
  pub run_events-IsKept :
      (relay : Bytes) (events : List RelayEvent) (s : Assoc Rest)
      → IsKept s
      → All (IsServed env (ends s)) events
      → (s' : Assoc Rest) × (run_events env unpack relay s events ≡ ret s')
        × IsKept s'
        × (ends s' ≡ ends s)
  unfolding run_events
  run_events-IsKept relay [] s k h = unchanged s k
  run_events-IsKept relay (e ∷ events) s k h = elim (Bool-cases s.running) [
    | inr r ↦ (s, ended_step relay e events s r, k, refl)
    | inl r ↦
        let (s1, step, k1, same) = relay_turn-IsKept env unpack s k r relay e h.0 in
        let (s2, more, k2, same2) =
          run_events-IsKept relay events s1 k1
            (subst (λ es. All (IsServed env es) events) (sym same) h.1) in
        (s2, running_step relay e events s s1 r step ∙ more, k2, same2 ∙ same)
  ]

  give_up-IsGivenUp :
      (s : Assoc Rest) (bound : Bool)
      → s.socks_closed ≡ false
      → s.quit_by_self ≡ false
      → s.quit_udp ≡ false
      → s.to_tun ≡ []
      → s.bind_open ≡ bound
      → (s' : Assoc Rest) × (give_up s ≡ ret s') × IsGivenUp bound s'
  unfolding give_up close_chan
  give_up-IsGivenUp s bound c q u t b = (
    record s {
      running = false;
      registered = false;
      socks_open = false;
      socks_closed = true;
      quit_by_self = true;
    },
    rw (c, q) refl,
    record {
      not_running = refl;
      socks_shut = refl;
      left_map = refl;
      socks_ended = refl;
      self_closed = refl;
      udp_unclosed = u;
      bind_left = b;
      nothing_sent = t;
    },
  )

  module _ (s : Assoc Rest) (f : IsFresh s) (o : Opening) (req : Result Bytes)
      (reply : Result Common) where
    abbrev up : Bool
    up = (o.first_dial || o.second_dial) && o.bound

    -- A connection that is given up with these two sockets.
    gives_up :
        (socks bind : Bool)
        → bind ≡ up
        → ((c : Common) → ¬ IsGranted o req reply c)
        → (r : Assoc Rest × Option Bytes) × ((give_up
                (record s { socks_open = socks; bind_open = bind })
              >>= λ s'. ret (s', none))
            ≡ ret r)
          × Settled env o req reply r
    gives_up socks bind b n =
        let (s', e, g) =
          give_up-IsGivenUp (record s { socks_open = socks; bind_open = bind }) up f.socks_unclosed
            f.self_unclosed f.udp_unclosed f.nothing_sent b in
        ((s', none), rw e refl, (g, n))

    abbrev bound_with : Assoc Rest
    bound_with = record s { socks_open = true; bind_open = true }

    module _ (d : (o.first_dial || o.second_dial) ≡ true) (b : o.bound ≡ true) where
      is_up : true ≡ up
      is_up = rw (d, b) refl

      read_reply-Settles :
          (rep : Result Common)
          → reply ≡ rep
          → (bs : Bytes) × (req ≡ done bs)
          → o.request_sent ≡ true
          → (r : Assoc Rest × Option Bytes) × (read_reply env unpack bound_with rep ≡ ret r)
            × Settled env o req reply r
      unfolding read_reply
      read_reply-Settles (failed e) p q t =
          gives_up true true is_up (λ c g. let z = sym p ∙ g.is_read in cc)
      read_reply-Settles (done c) p q t = elim (Bool-cases (c.flag == 0)) [
        | inr z ↦
            rw z (
              gives_up true true is_up
                (λ c' g. not_granted c c' z (sym p ∙ g.is_read) g.is_success))
        | inl z ↦ rw z (
          (record bound_with { running = true }, some (env.relay_string c.host c.port)),
          refl,
          (
            record {
              sockets_open = λ h. (refl, refl);
              nothing_closed = λ h. (f.self_unclosed, f.udp_unclosed, f.in_map);
              all_closed = λ h. absurd (ground arith);
              none_before_end = λ d h. rw f.nothing_sent refl;
              once = λ d. rw f.nothing_sent (omega arith);
            },
            refl,
            c,
            record {
              is_dialled = d;
              is_bound = b;
              is_packed = q;
              is_sent = t;
              is_read = p;
              is_success = (==_iff c.flag 0).0 z;
            },
            refl,
          ),
        )
      ]
        where
          not_granted : (c c' : Common) → (c.flag == 0) ≡ false → done c ≡ done c' → c'.flag ≡ 0 → ⊥
          not_granted c c' z e g = ground (arith, z, e, g)

      unsent :
          (bs : Bytes)
          → o.request_sent ≡ false
          → write_request env unpack bound_with o (done bs)
            ≡ give_up bound_with >>= λ s'. ret (s', none)
      unfolding write_request
      unsent bs z = rw z refl

      write_request-Settles :
          (rq : Result Bytes)
          → req ≡ rq
          → read_common env.net o.reply ≡ ret reply
          → (r : Assoc Rest × Option Bytes) × (write_request env unpack bound_with o rq ≡ ret r)
            × Settled env o req reply r
      unfolding write_request
      write_request-Settles (failed x) p e =
          gives_up true true is_up (λ c g. let z = sym p ∙ g.is_packed.1 in cc)
      write_request-Settles (done bs) p e = elim (Bool-cases o.request_sent) [
        | inr z ↦
            let (r, g, k) = gives_up true true is_up (λ c g. let y = sym z ∙ g.is_sent in cc) in
            (r, unsent bs z ∙ g, k)
        | inl z ↦ let (r, g, k) = read_reply-Settles reply refl (bs, p) z in (r, rw z (rw e g), k)
      ]

    -- The opening comes back, if the request is written and the reply read without a panic. It ends
    -- with a loop that runs towards the relay that the reply names, both sockets open, exactly if
    -- one of the dials succeeded, the UDP socket was bound, the request packed and sent, and the
    -- reply read with the flag of success. Otherwise the connection is given up, out of the map,
    -- with `socksClosed` and `quitBySelf` closed and nothing sent, and the UDP socket is still open
    -- if it had been bound.
    pub open_relay-Settles :
        write_common env.net associate_request ≡ ret req
        → read_common env.net o.reply ≡ ret reply
        → (r : Assoc Rest × Option Bytes) × (open_relay env unpack s o ≡ ret r)
          × Settled env o req reply r
    unfolding open_relay write_request
    open_relay-Settles w e = elim (Bool-cases (o.first_dial || o.second_dial)) [
      | inr d ↦
          let (r, g, k) =
            gives_up s.socks_open s.bind_open (f.bind_shut ∙ sym (rw d refl))
              (λ c g. let y = sym d ∙ g.is_dialled in cc) in
          (r, rw d g, k)
      | inl d ↦ elim (Bool-cases o.bound) [
        | inr b ↦
            let (r, g, k) =
              gives_up true s.bind_open (f.bind_shut ∙ sym (rw (d, b) refl))
                (λ c g. let y = sym b ∙ g.is_bound in cc) in
            (r, rw d (rw b g), k)
        | inl b ↦
            let (r, g, k) = write_request-Settles d b req refl e in (r, rw d (rw b (rw w g)), k)
      ]
    ]
