-- ===== src/Tun/Conn/Relay/Writes.antt =====
-- A move of the writer of tcpSocks2Tun.
use go_game_proxy.Prelude.{
  ◌≡◌, refl, sym, ap, ap₂, ◌∙◌, subst, Bool, true, false, ◌&&◌, ◌||◌, List, [], ◌∷◌, ◌++◌, Bytes,
  map, append-nil, append_assoc, All, Bool-cases, inl, inr, both_branches, length, if◌then◌else◌,
  not,
}
use go_game_proxy.Packet.Wire.{ret}
use go_game_proxy.Tun.Pack.{TcpPacket}
use go_game_proxy.Socks.{Net}
use go_game_proxy.Tun.Conn.{ProxyServer, connect_sent}
use go_game_proxy.Tun.Conn.Handlers.{is_not_sent}
use go_game_proxy.Tun.Conn.Run.{written, interfere}
use go_game_proxy.Tun.Conn.Relay.{
  WriterAt, writer_idle, writer_holds, writer_waits, writer_writes, writer_gone, Relay, is_http,
}
use go_game_proxy.Tun.Conn.Relay.Moves.{
  connect_bytes, name_host, outgoing, take_pending, writer_select, writer_move, is_open,
}
use go_game_proxy.Tun.Conn.Relay.Carried.{
  IsDue, IsCarried, IsCarried-agree, Renders, request_for, is_nil,
}

module _ (net : Net) (dst : Bytes) (p : ProxyServer) (opening : Bool)
    (render : TcpPacket → Bytes) where
  abbrev Carries : List TcpPacket → Relay → Type 0
  Carries = IsCarried net dst p opening render

  abbrev CanRender : TcpPacket → Type 0
  CanRender = Renders net dst p opening render

  abbrev request_bytes : Bool → List TcpPacket → List Bytes
  request_bytes = request_for net dst p opening render

  -- One more packet behind those that were taken.
  request_for-append :
      (o : Bool) (taken : List TcpPacket) (pkt : TcpPacket)
      → (o && is_nil taken) ≡ false
      → request_bytes o (taken ++ (pkt ∷ [])) ≡ request_bytes o taken
  request_for-append false taken pkt h = refl
  request_for-append true [] pkt h = cc
  request_for-append true (x ∷ taken) pkt h = refl

  first_taken :
      (o : Bool) (taken : List TcpPacket) → (o && is_nil taken) ≡ true → (o ≡ true) × (taken ≡ [])
  first_taken false taken h = cc
  first_taken true [] h = (refl, refl)
  first_taken true (x ∷ taken) h = cc

  is_nil-append : (taken : List TcpPacket) (pkt : TcpPacket) → is_nil (taken ++ (pkt ∷ [])) ≡ false
  is_nil-append [] pkt = refl
  is_nil-append (x ∷ taken) pkt = refl

  and_false : (b : Bool) → (b && false) ≡ false
  and_false true = refl
  and_false false = refl

  map-append_one :
      (taken : List TcpPacket) (pkt : TcpPacket)
      → map render (taken ++ (pkt ∷ [])) ≡ map render taken ++ (render pkt ∷ [])
  map-append_one [] pkt = refl
  map-append_one (x ∷ xs) pkt = ap (◌∷◌ (render x)) (map-append_one xs pkt)

  module _ (handed : List TcpPacket) (pkt : TcpPacket) (rest : List TcpPacket) (s : Relay)
      (k : Carries handed s) (idle : s.writer ≡ writer_idle) (inc : s.incoming ≡ pkt ∷ rest) where
    none_due : k.due ≡ []
    none_due = subst (λ w. IsDue p w k.due) idle k.is_due

    moved : (k.taken ++ (pkt ∷ [])) ++ rest ≡ handed
    moved = append_assoc k.taken (pkt ∷ []) rest ∙ (ap (◌++◌ k.taken) (sym inc) ∙ k.all_handed)

    renders : CanRender pkt × All CanRender rest
    renders = subst (All CanRender) inc k.can_render

    written_so_far : s.written ≡ request_bytes opening k.taken ++ map render k.taken
    written_so_far = sym (append-nil s.written) ∙ (ap (◌++◌ s.written) (sym none_due) ∙ k.in_order)

    take_next :
        is_not_sent s.conn.connect_state ≡ false
        → Carries handed (record s { incoming = rest; writer = writer_holds pkt })
    take_next f = record {
      taken = k.taken ++ (pkt ∷ []);
      due = render pkt ∷ [];
      all_handed = moved;
      is_due = (render pkt, renders.0.0, refl);
      in_order =
          rw
            (
              written_so_far,
              request_for-append opening k.taken pkt (sym k.not_sent ∙ f),
              map-append_one k.taken pkt,
            )
            (append_assoc (request_bytes opening k.taken) (map render k.taken) (render pkt ∷ []));
      not_sent = f ∙ sym (ap (◌&&◌ opening) (is_nil-append k.taken pkt) ∙ and_false opening);
      same_proxy = k.same_proxy;
      same_ip = k.same_ip;
      can_render = renders.1;
    }

    abbrev request_from : Bytes → ProxyServer → Bytes
    request_from ip q = connect_bytes (name_host net ip pkt).tcp.hostname q.auth_header

    same_request : request_from s.conn.remote_ip s.conn.proxy_server ≡ request_from dst p
    same_request = ap₂ request_from k.same_ip k.same_proxy

    first_in_order :
        opening ≡ true
        → k.taken ≡ []
        → (s.written ++ (request_from s.conn.remote_ip s.conn.proxy_server ∷ []))
            ++ (render pkt ∷ [])
          ≡ request_bytes opening (k.taken ++ (pkt ∷ [])) ++ map render (k.taken ++ (pkt ∷ []))
    first_in_order o empty = rw (written_so_far, empty, o, same_request) refl

    take_first :
        is_not_sent s.conn.connect_state ≡ true
        → Carries handed (record s {
          conn = record s.conn { connect_state = connect_sent };
          incoming = rest;
          written = s.written ++ (request_from s.conn.remote_ip s.conn.proxy_server ∷ []);
          writer = writer_holds (name_host net s.conn.remote_ip pkt);
        })
    unfolding is_not_sent
    take_first f =
        let (o, empty) = first_taken opening k.taken (sym k.not_sent ∙ f) in
        record {
          taken = k.taken ++ (pkt ∷ []);
          due = render pkt ∷ [];
          all_handed = moved;
          is_due = (
            render pkt,
            subst (λ ip. outgoing p (name_host net ip pkt) ≡ ret (render pkt)) (sym k.same_ip)
                (renders.0.1 o),
            refl,
          );
          in_order = first_in_order o empty;
          not_sent = sym (ap (◌&&◌ opening) (is_nil-append k.taken pkt) ∙ and_false opening);
          same_proxy = k.same_proxy;
          same_ip = k.same_ip;
          can_render = renders.1;
        }

  take_pending-IsCarried :
      (handed : List TcpPacket) (pkt : TcpPacket) (rest : List TcpPacket) (s : Relay)
      → Carries handed s
      → s.writer ≡ writer_idle
      → s.incoming ≡ pkt ∷ rest
      → Carries handed (take_pending net pkt rest s)
  unfolding take_pending
  take_pending-IsCarried handed pkt rest s k idle inc =
      elim (Bool-cases (is_not_sent s.conn.connect_state)) [
        | inl f ↦ rw f (take_first handed pkt rest s k idle inc f)
        | inr f ↦ rw f (take_next handed pkt rest s k idle inc f)
      ]

  gone-IsCarried :
      (handed : List TcpPacket) (s : Relay)
      → Carries handed s
      → s.writer ≡ writer_idle
      → Carries handed (record s { writer = writer_gone })
  gone-IsCarried handed s k idle =
      IsCarried-agree net dst p opening render handed s (record s { writer = writer_gone }) k refl
        refl refl refl refl (λ due h. subst (λ w. IsDue p w due) idle h)

  writer_select-IsCarried :
      (handed : List TcpPacket) (prefers : Bool) (pkts : List TcpPacket) (s : Relay)
      → Carries handed s
      → s.writer ≡ writer_idle
      → s.incoming ≡ pkts
      → Carries handed (writer_select net prefers pkts s)
  unfolding writer_select
  writer_select-IsCarried handed prefers [] s k idle inc =
      both_branches (Carries handed) (s.close_closed || (s.stopped || s.conn.destroyed))
        (record s { writer = writer_gone }) s (gone-IsCarried handed s k idle) k
  writer_select-IsCarried handed prefers (pkt ∷ rest) s k idle inc =
      both_branches (Carries handed) (s.close_closed && prefers) (record s { writer = writer_gone })
        (take_pending net pkt rest s) (gone-IsCarried handed s k idle)
        (take_pending-IsCarried handed pkt rest s k idle inc)

  -- The packet that it holds is written, and is no longer due.
  writes-IsCarried :
      (handed : List TcpPacket) (pkt : TcpPacket) (s : Relay) (bytes : Bytes)
      → Carries handed s
      → s.writer ≡ writer_writes pkt
      → outgoing p pkt ≡ ret bytes
      → Carries handed (record s {
        conn = interfere (written (length pkt.tcp.payload)) s.conn;
        written = s.written ++ (bytes ∷ []);
        writer = writer_idle;
      })
  unfolding interfere
  writes-IsCarried handed pkt s bytes k w e =
      let (b, same, due) = subst (λ w'. IsDue p w' k.due) w k.is_due in
      let now_due : k.due ≡ bytes ∷ [] = cc in
      record {
        taken = k.taken;
        due = [];
        all_handed = k.all_handed;
        is_due = refl;
        in_order =
            append-nil (s.written ++ (bytes ∷ []))
            ∙ (ap (◌++◌ s.written) (sym now_due) ∙ k.in_order);
        not_sent = k.not_sent;
        same_proxy = k.same_proxy;
        same_ip = k.same_ip;
        can_render = k.can_render;
      }

  -- A move of the writer comes back and keeps all this.
  pub writer_move-IsCarried :
      (handed : List TcpPacket) (prefers : Bool) (w : WriterAt) (s : Relay)
      → Carries handed s
      → s.writer ≡ w
      → (s' : Relay) × (writer_move net prefers w s ≡ ret s') × Carries handed s'
  unfolding writer_move
  writer_move-IsCarried handed prefers writer_idle s k e = (
    writer_select net prefers s.incoming s,
    refl,
    writer_select-IsCarried handed prefers s.incoming s k e refl,
  )
  writer_move-IsCarried handed prefers (writer_holds pkt) s k e =
      let b = is_http s.conn.proxy_server.proxy_type && not (is_open s.conn.connect_state) in
      let s' : Relay = record s { writer = if b then writer_waits pkt else writer_writes pkt } in
      (
        s',
        refl,
        IsCarried-agree net dst p opening render handed s s' k refl refl refl refl refl (λ due h.
            both_branches (λ w. IsDue p w due) b (writer_waits pkt) (writer_writes pkt)
              (subst (λ w. IsDue p w due) e h) (subst (λ w. IsDue p w due) e h)),
      )
  writer_move-IsCarried handed prefers (writer_waits pkt) s k e = (s, refl, k)
  writer_move-IsCarried handed prefers (writer_writes pkt) s k e =
      let (bytes, can, _) = subst (λ w. IsDue p w k.due) e k.is_due in
      (
        record s {
          conn = interfere (written (length pkt.tcp.payload)) s.conn;
          written = s.written ++ (bytes ∷ []);
          writer = writer_idle;
        },
        rw (ap (λ q. outgoing q pkt) k.same_proxy ∙ can) refl,
        writes-IsCarried handed pkt s bytes k e can,
      )
  writer_move-IsCarried handed prefers writer_gone s k e = (s, refl, k)
