-- ===== src/Tun/Conn/Returns.antt =====
-- When the loop of a connection comes back from every move.
use go_game_proxy.Prelude.{
  Bool, true, false, not, if◌then◌else◌, ◌&&◌, Option, none, some, List, [], ◌∷◌, All, ◌≡◌, refl,
  sym, subst, ℕ, arith,
}
use go_game_proxy.Packet.Wire.{Go, ret, ◌>>=◌}
use go_game_proxy.Tun.Pack.{TcpPacket}
use go_game_proxy.Tun.Conn.{
  TcpState, Conn, ProxyServer, closed, syn_rcvd, established, fin_wait_1, fin_wait_2, closing,
  last_ack, time_wait,
}
use go_game_proxy.Tun.Conn.Handlers.{
  World, Proxies, is_conn, dial_ok, choose_proxy, load_uid, load_proxy_config, is_proxied,
  find_proxy, connect, after_dial, route_of, sends_connect, state_closed,
}
use go_game_proxy.Tun.Conn.Run.{
  Loop, Turn, Event, input, ack_timeout, from_socks, socks_closed, timed_out, quit_by_other, Move,
  round, outside, handle, select_case, open_channels, turn, move, runs, update_send_window,
}

-- The dialer returns a connection, if only one that it has closed.
unfoldable pub has_conn : Move → Bool
has_conn (round w e) = is_conn w.dialled
has_conn (outside o) = true

abbrev Returns {ℓ} : {A : Type ℓ} → Go A → Type ℓ
Returns {A} m = (a : A) × (m ≡ ret a)

Returns-if {ℓ} :
    {A : Type ℓ} (b : Bool) (x y : Go A) → Returns x → Returns y → Returns (if b then x else y)
Returns-if true x y h k = h
Returns-if false x y h k = k

Returns-bind {ℓ κ} :
    {A : Type ℓ} {B : Type κ} (m : Go A) (f : A → Go B)
    → Returns m
    → ((a : A) → Returns (f a))
    → Returns (m >>= f)
Returns-bind m f (a, e) k = rw e (k a)

choose_proxy-Returns :
    (o : Option ProxyServer) (p : ProxyServer) → Returns (choose_proxy o (some p))
unfolding choose_proxy
choose_proxy-Returns none p = (p, refl)
choose_proxy-Returns (some q) p = (q, refl)

load_uid-Returns :
    (w : World) (t2s : Proxies) (o : Option ℕ) (c : Conn) (p : ProxyServer)
    → t2s.default_proxy ≡ some p
    → Returns (load_uid w t2s o c)
unfolding load_uid load_proxy_config
load_uid-Returns w t2s (some uid) c p d = (c, refl)
load_uid-Returns w t2s none c p d =
    Returns-bind (choose_proxy (t2s.proxy_of w.found_uid) t2s.default_proxy) _
      (subst (λ e. Returns (choose_proxy (t2s.proxy_of w.found_uid) e)) (sym d)
        (choose_proxy-Returns (t2s.proxy_of w.found_uid) p))
      (λ q. (_, refl))

connect-Returns :
    (w : World) (t2s : Proxies) (c : Conn) (p : ProxyServer)
    → t2s.default_proxy ≡ some p
    → Returns (connect w t2s c)
unfolding connect find_proxy
connect-Returns w t2s c p d =
    Returns-bind (find_proxy w t2s c) _
      (Returns-if (is_proxied c) _ _ (load_uid-Returns w t2s c.uid c p d) (c, refl))
      (λ x. (_, refl))

closed-Returns :
    (w : World) (t2s : Proxies) (p : ProxyServer) (c : Conn) (pkt : TcpPacket)
    → t2s.default_proxy ≡ some p
    → is_conn w.dialled ≡ true
    → Returns (state_closed w t2s c pkt)
unfolding state_closed after_dial
closed-Returns w t2s p c pkt d h =
    Returns-bind (connect w t2s c) _ (connect-Returns w t2s c p d) (λ x.
      let lands : (sends_connect (route_of x) x pkt && not (is_conn w.dialled)) ≡ false =
        ground arith in
      rw lands (Returns-if (not (dial_ok w.dialled)) _ _ (_, refl) (_, refl)))

handle-Returns :
    (st : TcpState) (w : World) (t2s : Proxies) (p : ProxyServer) (c : Conn) (pkt : TcpPacket)
    → t2s.default_proxy ≡ some p
    → is_conn w.dialled ≡ true
    → Returns (handle w t2s st c pkt)
unfolding handle
handle-Returns closed w t2s p c pkt d h = closed-Returns w t2s p c pkt d h
handle-Returns syn_rcvd w t2s p c pkt d h = (_, refl)
handle-Returns established w t2s p c pkt d h = (_, refl)
handle-Returns fin_wait_1 w t2s p c pkt d h = (_, refl)
handle-Returns fin_wait_2 w t2s p c pkt d h = (_, refl)
handle-Returns closing w t2s p c pkt d h = (_, refl)
handle-Returns last_ack w t2s p c pkt d h = (_, refl)
handle-Returns time_wait w t2s p c pkt d h = (_, refl)

select-Returns :
    (w : World) (t2s : Proxies) (p : ProxyServer) (e : Event) (l : Loop)
    → t2s.default_proxy ≡ some p
    → is_conn w.dialled ≡ true
    → Returns (select_case w t2s e l)
unfolding select_case
select-Returns w t2s p (input pkt) l d h =
    let c = update_send_window (record l.conn { last_packet_time = w.now }) pkt in
    Returns-bind (handle w t2s c.state c pkt) _ (handle-Returns c.state w t2s p c pkt d h)
      (λ o. (_, refl))
select-Returns w t2s p ack_timeout l d h = (_, refl)
select-Returns w t2s p (from_socks bytes) l d h = (_, refl)
select-Returns w t2s p socks_closed l d h = (_, refl)
select-Returns w t2s p timed_out l d h = (_, refl)
select-Returns w t2s p quit_by_other l d h = (_, refl)

move-Returns :
    (t2s : Proxies) (p : ProxyServer) (m : Move) (l : Loop)
    → t2s.default_proxy ≡ some p
    → has_conn m ≡ true
    → Returns (move t2s m l)
unfolding move turn has_conn
move-Returns t2s p (round w e) l d h =
    Returns-if (open_channels w.now l).conn.destroyed _ _ (_, refl)
      (select-Returns w t2s p e (open_channels w.now l) d h)
move-Returns t2s p (outside o) l d h = (_, refl)

-- A connection comes back from every sequence of moves in which no dial fails without a
-- connection, in a tunnel with a default proxy: `stateClosed` may write to the nil one.
pub runs-Returns :
    (t2s : Proxies) (p : ProxyServer) (ms : List Move) (l : Option Loop)
    → t2s.default_proxy ≡ some p
    → All (λ m. has_conn m ≡ true) ms
    → (u : Turn) × (runs t2s ms l ≡ ret u)
unfolding runs
runs-Returns t2s p [] l d h = (_, refl)
runs-Returns t2s p (m ∷ ms) none d h = (_, refl)
runs-Returns t2s p (m ∷ ms) (some l) d h =
    Returns-bind (move t2s m l) _ (move-Returns t2s p m l d h.0)
      λ t. Returns-bind (runs t2s ms t.next) _ (runs-Returns t2s p ms t.next d h.1) λ u. (_, refl)
