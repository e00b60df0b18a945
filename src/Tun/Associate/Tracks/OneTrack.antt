-- ===== src/Tun/Associate/Tracks/OneTrack.antt =====
-- The map of the UDP connections: what a datagram finds in it, and what leaves it.
use go_game_proxy.Prelude.{
  ◌≡◌, refl, Bool, true, false, Option, none, some, ◌∷◌, ◌⊎◌, inl, inr, Option-cases, if◌then◌else◌,
}
use go_game_proxy.Packet.Ip4.{Ip4}
use go_game_proxy.Packet.Udp.{Udp}
use go_game_proxy.Tun.Associate.{Assoc}
use go_game_proxy.Tun.Associate.Lifecycle.{ends}
use go_game_proxy.Tun.Associate.Runs.{IsFresh}
use go_game_proxy.Tun.Associate.Tracks.{Tracks, find_track, new_track, get_udp_track, udp_conn_id}
use go_game_proxy.Tun.Conn.Track.{ConnId, same_id}
use go_game_proxy.Tun.Conn.Track.Keys.{same_id_refl, same_id-of_ne}
use go_game_proxy.Tun.Dns.{Storage}

module _ {Rest : Type 0} where
  found_at :
      (k id : ConnId) (a : Assoc Rest) (rest : Tracks Rest) (b : Bool)
      → same_id k id ≡ b
      → find_track k ((id, a) ∷ rest) ≡ (if b then some a else find_track k rest)
  unfolding find_track
  found_at k id a rest b e = rw e refl

  -- The connection of an identification after `getUDPConnTrack`: the one that was there, or a fresh
  -- one with the ends of the datagram.
  abbrev pub Found : Ip4 → Udp → Option (Assoc Rest) → Assoc Rest → Type 0
  Found ip u before a =
      (before ≡ some a)
      ⊎ ((before ≡ none) × IsFresh a × (ends a ≡ (ip.src_ip, ip.dst_ip, u.src_port, u.dst_port)))

  new_track-IsFresh :
      (cache : Option (Storage Rest)) (ip : Ip4) (u : Udp) → IsFresh (new_track cache ip u)
  new_track-IsFresh cache ip u = record {
    not_running = refl;
    socks_shut = refl;
    bind_shut = refl;
    socks_unclosed = refl;
    self_unclosed = refl;
    udp_unclosed = refl;
    in_map = refl;
    nothing_sent = refl;
  }

  module _ (cache : Option (Storage Rest)) (ip : Ip4) (u : Udp) (tracks : Tracks Rest) where
    -- The identification of a datagram: its two addresses and its two ports.
    abbrev pub key_of : ConnId
    key_of = record {
      src_ip = ip.src_ip;
      src_port = u.src_port;
      dst_ip = ip.dst_ip;
      dst_port = u.dst_port;
    }

    -- Behind `getUDPConnTrack` the map has a connection for the addresses and ports of the datagram,
    -- the one that it had for them or a fresh one with these ends, and for all other addresses and
    -- ports what it had before.
    pub get_udp_track-Found :
        ((a : Assoc Rest) × (find_track key_of (get_udp_track (udp_conn_id ip u) cache ip u tracks)
            ≡ some a)
          × Found ip u (find_track key_of tracks) a)
        × ((k : ConnId)
            → ¬ (k ≡ key_of)
            → find_track k (get_udp_track (udp_conn_id ip u) cache ip u tracks)
              ≡ find_track k tracks)
    unfolding get_udp_track
    get_udp_track-Found = elim (Option-cases (find_track key_of tracks)) [
      | inl e ↦ rw e (
        (new_track cache ip u, here, inr (refl, new_track-IsFresh cache ip u, refl)),
        λ k n. elsewhere k n,
      )
      | inr (a, e) ↦ rw e ((a, e, inl refl), λ k n. refl)
    ]
      where
        here :
            find_track key_of ((key_of, new_track cache ip u) ∷ tracks)
            ≡ some (new_track cache ip u)
        here = found_at key_of key_of _ tracks true (same_id_refl key_of)

        elsewhere :
            (k : ConnId)
            → ¬ (k ≡ key_of)
            → find_track k ((key_of, new_track cache ip u) ∷ tracks) ≡ find_track k tracks
        elsewhere k n = found_at k key_of _ tracks false (same_id-of_ne k key_of n)
