-- ===== src/Tun/Associate/Tracks.antt =====
-- gotun2socks/tun2socks/udp.go, udp: a datagram from the device is answered from the cache, or goes
-- to its connection, which is opened if there is none. `udpConnTrackMap` is an association list.
pub mod OneTrack
use go_game_proxy.Prelude.{
  ℕ, Bool, true, false, not, ◌&&◌, Option, none, some, List, [], ◌∷◌, Bytes, if◌then◌else◌,
}
use go_game_proxy.Packet.Ip4.{Ip4}
use go_game_proxy.Packet.Udp.{Udp}
use go_game_proxy.Packet.Wire.{Go, ret, ◌>>=◌}
use go_game_proxy.Tun.Associate.{Assoc}
use go_game_proxy.Tun.Conn.Track.{ConnId, same_id}
use go_game_proxy.Tun.Datagram.{UdpPacket, copy_udp_packet, response_packet}
use go_game_proxy.Tun.Dns.{Msg, Storage, query, is_dns}
use go_game_proxy.Tun.Fragments.{IpPacket}

-- `udpConnID`
abbrev pub udp_conn_id : Ip4 → Udp → ConnId
udp_conn_id ip udp = record {
  src_ip = ip.src_ip;
  src_port = udp.src_port;
  dst_ip = ip.dst_ip;
  dst_port = udp.dst_port;
}

-- The map of the connections.
abbrev pub Tracks : Type 0 → Type 0
Tracks Rest = List (ConnId × Assoc Rest)

-- What becomes of a datagram: it is answered, or handed to the connection of its addresses.
pub data Routed : Type 0 where
  replied : UdpPacket → List IpPacket → Routed
  handed : ConnId → UdpPacket → Routed

-- What a datagram meets: the clock, the next identification and the pooled buffers.
pub record Turn : Type 0 where
  pub now : ℕ
  pub id : ℕ
  pub copy_buffer : Bytes
  pub answer_buffer : Bytes
  pub pool : ℕ → Bytes

module _ {Rest : Type 0} where
  unfoldable pub find_track : ConnId → Tracks Rest → Option (Assoc Rest)
  find_track id [] = none
  find_track id ((key, a) ∷ rest) =
      let others = find_track id rest in if same_id id key then some a else others

  -- `clearUDPConnTrack`
  unfoldable pub clear_track : ConnId → Tracks Rest → Tracks Rest
  clear_track id [] = []
  clear_track id ((key, a) ∷ rest) =
      let others = clear_track id rest in if same_id id key then others else (key, a) ∷ others

  -- The connection that `getUDPConnTrack` makes, with the tunnel's cache as it stands.
  abbrev pub new_track : Option (Storage Rest) → Ip4 → Udp → Assoc Rest
  new_track cache ip udp = record {
    local_ip = ip.src_ip;
    remote_ip = ip.dst_ip;
    local_port = udp.src_port;
    remote_port = udp.dst_port;
    running = false;
    registered = true;
    socks_open = false;
    bind_open = false;
    socks_closed = false;
    quit_by_self = false;
    quit_udp = false;
    to_tun = [];
    to_relay = [];
    cache = cache;
  }

  abbrev opened_unless :
      Option (Assoc Rest) → ConnId → Option (Storage Rest) → Ip4 → Udp → Tracks Rest → Tracks Rest
  opened_unless (some a) id cache ip udp tracks = tracks
  opened_unless none id cache ip udp tracks = (id, new_track cache ip udp) ∷ tracks

  -- `getUDPConnTrack`: the map after it.
  unfoldable pub get_udp_track :
      ConnId → Option (Storage Rest) → Ip4 → Udp → Tracks Rest → Tracks Rest
  get_udp_track id cache ip udp tracks = opened_unless (find_track id tracks) id cache ip udp tracks

  module _ (unpack : Bytes → Option (Msg Rest)) (pack_buffer : Msg Rest → Option Bytes) where
    -- The answer of the cache, packed, and the cache after it.
    abbrev pub packed_of : Option (Msg Rest) → Option Bytes
    packed_of none = none
    packed_of (some msg) = pack_buffer msg

    unfoldable pub ask_cache :
        Option (Storage Rest) → Bool → Bytes → ℕ → Option (Storage Rest) × Option Bytes
    ask_cache none dns payload now = (none, none)
    ask_cache (some storage) dns payload now =
        let (storage', msg) = query unpack storage payload now in
        if dns then (some storage', packed_of msg) else (some storage, none)

    unfoldable pub route :
        Option (Storage Rest) × Option Bytes
        → Tracks Rest
        → Turn
        → Bytes
        → Ip4
        → Udp
        → Go (Option (Storage Rest) × Tracks Rest × Routed)
    route (cache, some bytes) tracks t raw ip udp =
        response_packet t.id ip.src_ip ip.dst_ip udp.src_port udp.dst_port bytes t.answer_buffer
          t.pool
        >>= λ (pkt, frags). ret (cache, tracks, replied pkt frags)
    route (cache, none) tracks t raw ip udp = copy_udp_packet t.copy_buffer raw >>= λ pkt.
        let id = udp_conn_id ip udp in
        ret (cache, get_udp_track id cache ip udp tracks, handed id pkt)

    -- `udp`
    unfoldable pub take_datagram :
        Option (Storage Rest)
        → Tracks Rest
        → Turn
        → Bytes
        → Ip4
        → Udp
        → Go (Option (Storage Rest) × Tracks Rest × Routed)
    take_datagram cache tracks t raw ip u =
        route (ask_cache cache (is_dns u.dst_port) u.payload t.now) tracks t raw ip u
