-- ===== src/Tun/Conn/Dispatch.antt =====
-- Which packets open a connection, and what a reset says.
use go_game_proxy.Prelude.{
  ℕ, ◌+◌, ◌<◌, max, Bool, true, false, Option, none, some, List, [], ◌∷◌, Bytes, u32, ◌≡◌, refl,
  sym, ap, subst, ◌∙◌, ◌⊎◌, inl, inr, All, length, Bool-cases, if◌then◌else◌, arith,
}
use go_game_proxy.Packet.Wire.{Go, ret}
use go_game_proxy.Packet.Ip4.{Ip4}
use go_game_proxy.Packet.Tcp.{Tcp, Names}
use go_game_proxy.Tun.Pack.{TcpPacket}
use go_game_proxy.Tun.Conn.{closed, Conn, ProxyServer, max_recv_window, rst_headers}
use go_game_proxy.Tun.Conn.Handlers.{World, Proxies, choose_proxy}
use go_game_proxy.Tun.Conn.Track.{
  ConnId, same_id, get_track, live_track, Dispatch, dropped, reset, delivered, opened, copy_packet,
  create_track, new_conn, open_track, without_track, with_track, dispatch,
}
use go_game_proxy.Tun.Conn.Track.Keys.{same_id_refl, same_id→≡}

chosen_first {ℓ} : {A : Type ℓ} (b : Bool) (x y : A) → b ≡ true → (if b then x else y) ≡ x
chosen_first b x y e = rw e refl

chosen_second {ℓ} : {A : Type ℓ} (b : Bool) (x y : A) → b ≡ false → (if b then x else y) ≡ y
chosen_second b x y e = rw e refl

-- A reset goes back to where the segment came from. It acknowledges the payload, or one number
-- where there is none, modulo 2 ^ 32, and starts at the number that the segment acknowledged.
pub rst_headers-answers :
    (id : ℕ) (src_ip dst_ip : Bytes) (src_port dst_port seq ack len : ℕ)
    → seq < 4294967296
    → len < 4294967296
    → let r = rst_headers id src_ip dst_ip src_port dst_port seq ack len in
      (r.0.src_ip ≡ dst_ip)
      × (r.0.dst_ip ≡ src_ip)
      × (r.1.src_port ≡ dst_port)
      × (r.1.dst_port ≡ src_port)
      × (r.1.rst ≡ true)
      × (r.1.ack_flag ≡ true)
      × (r.1.seq ≡ ack)
      × (r.1.ack ≡ u32 (seq + max 1 len))
unfolding rst_headers
rst_headers-answers id src_ip dst_ip src_port dst_port seq ack len h k = ground arith

-- The entry of an identification in the map: the first one whose four parts are those.
pub data IsEntry (id : ConnId) (c : Conn) : List (ConnId × Conn) → Type 0 where
  entry_here :
      {key : ConnId} {rest : List (ConnId × Conn)} → key ≡ id → IsEntry id c ((key, c) ∷ rest)
  entry_later :
      {key : ConnId} {other : Conn} {rest : List (ConnId × Conn)}
      → ¬ (id ≡ key)
      → IsEntry id c rest
      → IsEntry id c ((key, other) ∷ rest)

-- No connection of the identification that is not on its way out.
abbrev pub NoneLive : ConnId → List (ConnId × Conn) → Type 0
NoneLive id tracks =
    All (λ e. ¬ (id ≡ e.0)) tracks ⊎ ((c : Conn) × IsEntry id c tracks × (c.destroyed ≡ true))

abbrev Entered : ConnId → List (ConnId × Conn) → Option Conn → Type 0
Entered id tracks none = All (λ e. ¬ (id ≡ e.0)) tracks
Entered id tracks (some c) = IsEntry id c tracks

Entered-cons :
    (id key : ConnId) (other : Conn) (rest : List (ConnId × Conn)) (o : Option Conn)
    → ¬ (id ≡ key)
    → Entered id rest o
    → Entered id ((key, other) ∷ rest) o
Entered-cons id key other rest none n h = (n, h)
Entered-cons id key other rest (some c) n h = entry_later n h

get_track-cons :
    (id key : ConnId) (c : Conn) (rest : List (ConnId × Conn)) (b : Bool)
    → same_id id key ≡ b
    → get_track id ((key, c) ∷ rest) ≡ (if b then some c else get_track id rest)
unfolding get_track
get_track-cons id key c rest true e = rw (e, get_track) refl
get_track-cons id key c rest false e = rw (e, get_track) refl

get_track-Entered :
    (id : ConnId) (tracks : List (ConnId × Conn)) → Entered id tracks (get_track id tracks)
unfolding get_track
get_track-Entered id [] = tt
get_track-Entered id ((key, c) ∷ rest) = elim (Bool-cases (same_id id key)) [
  | inl e ↦
      subst (Entered id ((key, c) ∷ rest)) (sym (get_track-cons id key c rest true e))
        (entry_here (sym (same_id→≡ id key e)))
  | inr e ↦
      subst (Entered id ((key, c) ∷ rest)) (sym (get_track-cons id key c rest false e))
        (Entered-cons id key c rest (get_track id rest) (differ e) (get_track-Entered id rest))
]
  where
    differ : same_id id key ≡ false → ¬ (id ≡ key)
    differ e q = let t = subst (λ k. same_id id k ≡ true) q (same_id_refl id) in cc

module _ (w : World) (t2s : Proxies) (names : Names) (tracks : List (ConnId × Conn))
    (old raw : Bytes) (ip : Ip4) (tcp : Tcp) (pkt : TcpPacket) (p : ProxyServer) where
  -- The identification of a packet: its two addresses and its two ports.
  abbrev pub id_of : ConnId
  id_of = record {
    src_ip = ip.src_ip;
    src_port = tcp.src_port;
    dst_ip = ip.dst_ip;
    dst_port = tcp.dst_port;
  }

  abbrev pub result : Go Dispatch
  result = dispatch w t2s names tracks old raw ip tcp

  -- A connection as it is opened for a packet.
  pub record IsNew (c : Conn) : Type 0 where
    pub in_closed : c.state ≡ closed
    pub full_window : c.recv_window ≡ max_recv_window
    pub not_destroyed : c.destroyed ≡ false
    pub from_ip : c.local_ip ≡ ip.src_ip
    pub to_ip : c.remote_ip ≡ ip.dst_ip
    pub from_port : c.local_port ≡ tcp.src_port
    pub to_port : c.remote_port ≡ tcp.dst_port
    pub of_proxy : c.proxy_server ≡ p

  -- What becomes of a packet for which there is no live connection.
  pub data Unmatched : Type 0 where
    is_dropped : tcp.rst ≡ true → result ≡ ret dropped → Unmatched
    is_opened :
        (c : Conn)
        → tcp.rst ≡ false
        → tcp.syn ≡ true
        → IsNew c
        → result ≡ ret (opened id_of c pkt)
        → Unmatched
    is_reset :
        tcp.rst ≡ false
        → tcp.syn ≡ false
        → (let r =
              rst_headers w.ip_id ip.src_ip ip.dst_ip tcp.src_port tcp.dst_port tcp.seq tcp.ack
                (u32 (length tcp.payload)) in
            result ≡ ret (reset r.0 r.1))
        → Unmatched

  -- What `tcp` does with a packet.
  abbrev pub Routes : Type 0
  Routes =
      ((c : Conn) × IsEntry id_of c tracks
        × (c.destroyed ≡ false)
        × (result ≡ ret (delivered id_of pkt)))
      ⊎ (NoneLive id_of tracks × Unmatched)

  create_track-IsNew :
      choose_proxy (t2s.proxy_of w.found_uid) t2s.default_proxy ≡ ret p
      → (c : Conn) × (create_track w t2s ip tcp ≡ ret c) × IsNew c
  unfolding create_track
  create_track-IsNew e = (
    new_conn w ip tcp p,
    rw e refl,
    record {
      in_closed = refl;
      full_window = refl;
      not_destroyed = refl;
      from_ip = refl;
      to_ip = refl;
      from_port = refl;
      to_port = refl;
      of_proxy = refl;
    },
  )

  module _ (copied : copy_packet names old raw ≡ ret pkt)
      (chosen : choose_proxy (t2s.proxy_of w.found_uid) t2s.default_proxy ≡ ret p) where
    unmatched : result ≡ without_track w t2s names old raw ip tcp → Unmatched
    unfolding without_track open_track
    unmatched e = elim (Bool-cases tcp.rst) [
      | inl r ↦ is_dropped r (e ∙ chosen_first tcp.rst _ _ r)
      | inr r ↦ elim (Bool-cases tcp.syn) [
        | inl s ↦
            let (c, created, new) = create_track-IsNew chosen in
            is_opened c r s new (
              e
              ∙ (chosen_second tcp.rst _ _ r
                  ∙ (chosen_first tcp.syn _ _ s ∙ rw copied (rw created refl))))
        | inr s ↦ is_reset r s (e ∙ (chosen_second tcp.rst _ _ r ∙ chosen_second tcp.syn _ _ s))
      ]
    ]

    by_entry :
        (o : Option Conn)
        → Entered id_of tracks o
        → result ≡ with_track (live_track o) w t2s names old raw ip tcp
        → Routes
    unfolding live_track with_track
    by_entry none h e = inr (inl h, unmatched e)
    by_entry (some c) h e = elim (Bool-cases c.destroyed) [
      | inl d ↦ inr (
        inr (c, h, d),
        unmatched (
            e ∙ ap (λ t. with_track t w t2s names old raw ip tcp) (chosen_first c.destroyed _ _ d)),
      )
      | inr d ↦ inl (
        c,
        h,
        d,
        e
            ∙ (ap (λ t. with_track t w t2s names old raw ip tcp) (chosen_second c.destroyed _ _ d)
                ∙ rw copied refl),
      )
    ]

    -- A packet whose copy is parsed without a panic, and for whose application there is a proxy, goes to the connection of its addresses and
    -- ports, if the map has one that is not on its way out. If it has none, the packet is dropped
    -- with RST; with SYN and no RST it opens a connection, which is CLOSED with a full window and
    -- the ends of the packet and that proxy, and gets its copy; and without both it is answered with a reset.
    pub dispatch-Routes : Routes
    unfolding dispatch
    dispatch-Routes = by_entry (get_track id_of tracks) (get_track-Entered id_of tracks) refl
