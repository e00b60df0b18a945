-- ===== src/Tun/Conn/Flood.antt =====
-- gotun2socks/tun2socks/tcp.go, run: the loop of a connection behind the end of its proxy. A closed
-- channel is always ready, and the loop keeps it.
use go_game_proxy.Prelude.{
  ℕ, zero, suc, ◌+◌, ◌%◌, ◌<◌, ◌≡◌, refl, ap, ◌∙◌, Bool, true, false, some, List, [], ◌∷◌, u32,
  length, replicate, arith, if◌then◌else◌,
}
use go_game_proxy.Packet.Wire.{ret}
use go_game_proxy.Packet.Ip4.{Ip4}
use go_game_proxy.Packet.Tcp.{Tcp}
use go_game_proxy.Tun.Conn.{fin_wait_1, Effect, segment, reply_ip, reply_tcp, send, fin_ack}
use go_game_proxy.Tun.Conn.Handlers.{World, Proxies}
use go_game_proxy.Tun.Conn.Run.{
  Loop, Turn, Move, round, socks_closed, is_established, open_channels, go_on, select_case, turn,
  move, runs,
}

-- The loop has seen the end of its proxy and waits for the other side.
pub record IsEnding (l : Loop) : Type 0 where
  pub is_opened : l.opened ≡ true
  pub is_alive : l.conn.destroyed ≡ false
  pub is_waiting : l.conn.state ≡ fin_wait_1
  pub in_range : l.conn.nxt_seq < 4294967296

-- A segment with FIN and this number.
abbrev pub IsFin : ℕ → Effect → Type 0
IsFin n e = (ip : Ip4) × (tcp : Tcp) × (e ≡ segment ip tcp) × (tcp.fin ≡ true) × (tcp.seq ≡ n)

-- Segments with FIN whose numbers follow one another from `n`, modulo 2 ^ 32.
abbrev pub AreFins : ℕ → List Effect → Type 0
AreFins n [] = Unit
AreFins n (e ∷ es) = IsFin n e × AreFins ((n + 1) % 4294967296) es

abbrev after_fin : Loop → Loop
after_fin l = record l {
  conn = record l.conn {
    acked = l.conn.rcv_nxt_seq;
    nxt_seq = u32 (l.conn.nxt_seq + 1);
    state = fin_wait_1;
  };
}

abbrev fin_of : World → Loop → Effect
fin_of w l = segment (reply_ip w.ip_id l.conn) (record (reply_tcp l.conn) { fin = true })

if_false {ℓ} : {A : Type ℓ} (b : Bool) (x y : A) → b ≡ false → (if b then x else y) ≡ y
if_false b x y e = rw e refl

if_true {ℓ} : {A : Type ℓ} (b : Bool) (x y : A) → b ≡ true → (if b then x else y) ≡ x
if_true b x y e = rw e refl

after_fin-IsEnding : (l : Loop) → IsEnding l → IsEnding (after_fin l)
after_fin-IsEnding l h = record {
  is_opened = h.is_opened;
  is_alive = h.is_alive;
  is_waiting = refl;
  in_range = omega arith;
}

open_channels-unchanged : (now : ℕ) (l : Loop) → IsEnding l → open_channels now l ≡ l
unfolding open_channels is_established
open_channels-unchanged now l h =
    if_false (is_established l.conn.state) _ l (ap is_established h.is_waiting)

closed_round :
    (w : World) (t2s : Proxies) (l : Loop)
    → IsEnding l
    → turn w t2s socks_closed l
      ≡ ret (record { effects = fin_of w l ∷ []; next = some (after_fin l) })
unfolding turn select_case go_on fin_ack send
closed_round w t2s l h = rw (open_channels-unchanged w.now l h) (
    if_false l.conn.destroyed _ (select_case w t2s socks_closed l) h.is_alive
    ∙ ap ret (if_true l.opened _ _ h.is_opened ∙ refl))

-- Rounds of the loop in which nothing but the closed channel is ready.
abbrev pub closed_rounds : World → ℕ → List Move
closed_rounds w k = replicate k (round w socks_closed)

next_number :
    (n k x : ℕ) → x ≡ ((n + 1) % 4294967296 + k) % 4294967296 → x ≡ (n + suc k) % 4294967296
next_number n k x e = omega (arith, e)

-- From a loop that has seen the end of its proxy, as long as nothing else is ready, every round sends
-- one segment, a FIN, whose numbers follow one another modulo 2 ^ 32 from the next number of the
-- connection, and leaves the loop waiting.
pub runs-floods :
    (w : World) (t2s : Proxies) (k : ℕ) (l : Loop)
    → IsEnding l
    → (u : Turn) × (l' : Loop) × (runs t2s (closed_rounds w k) (some l) ≡ ret u)
      × (length u.effects ≡ k)
      × AreFins l.conn.nxt_seq u.effects
      × (u.next ≡ some l')
      × IsEnding l'
      × (l'.conn.nxt_seq ≡ (l.conn.nxt_seq + k) % 4294967296)
unfolding runs move
runs-floods w t2s zero l h =
    (record { effects = []; next = some l }, l, refl, refl, tt, refl, h, omega (arith, h.in_range))
runs-floods w t2s (suc k) l h =
    let (u, l', run, count, fins, next, k', seq) =
      runs-floods w t2s k (after_fin l) (after_fin-IsEnding l h) in
    (
      record { effects = fin_of w l ∷ u.effects; next = u.next },
      l',
      rw (closed_round w t2s l h) (rw run refl),
      ap suc count,
      ((_, _, refl, refl, refl), fins),
      next,
      k',
      next_number l.conn.nxt_seq k l'.conn.nxt_seq seq,
    )
