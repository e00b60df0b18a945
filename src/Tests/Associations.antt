-- ===== src/Tests/Associations.antt =====
-- gotun2socks/tun2socks, udpConnTrack, on a connection to a name server.
use go_game_proxy.Prelude.{
  ◌≡◌, refl, true, false, Option, none, some, List, [], ◌∷◌, Bytes, replicate, length-replicate,
  arith, ℕ,
}
use go_game_proxy.Packet.Wire.{ret}
use go_game_proxy.Socks.{
  done, Common, UdpRequest, read_common, read_message, write_common, write_packed, pack_host,
  or_invalid, read_full, read_host, read_ip_host, read_port, parse_udp_request,
}
use go_game_proxy.Tests.Datagrams.{client, server, blank_pool, blank_pool-full, unpack_plain}
use go_game_proxy.Tests.Messages.{plain_net}
use go_game_proxy.Tun.Associate.{
  Env, Assoc, Opening, RelayEvent, answer, timed_out, associate_request, open_relay, run_events,
}
use go_game_proxy.Tun.Associate.Lifecycle.{IsKept, IsServable, ends}
use go_game_proxy.Tun.Associate.Runs.{IsFresh, Settled, open_relay-Settles, run_events-IsKept}
use go_game_proxy.Tun.Associate.Tracks.{udp_conn_id, find_track, get_udp_track, Tracks}
use go_game_proxy.Tun.Associate.Tracks.OneTrack.{Found, key_of, get_udp_track-Found}
use go_game_proxy.Tun.Conn.Track.{ConnId}
use go_game_proxy.Packet.Ip4.{Ip4, new_ip4}
use go_game_proxy.Packet.Udp.{Udp, new_udp}
use go_game_proxy.Tun.Pack.{mtu}

abbrev env : Env
env = record { net = plain_net; relay_string = λ host port. host }

-- A connection that is about to be opened.
abbrev pub fresh : Assoc Bytes
fresh = record {
  local_ip = client;
  remote_ip = server;
  local_port = 4000;
  remote_port = 53;
  running = false;
  registered = true;
  socks_open = false;
  bind_open = false;
  socks_closed = false;
  quit_by_self = false;
  quit_udp = false;
  to_tun = [];
  to_relay = [];
  cache = some (λ k. none);
}

fresh-IsFresh : IsFresh fresh
fresh-IsFresh = record {
  not_running = refl;
  socks_shut = refl;
  bind_shut = refl;
  socks_unclosed = refl;
  self_unclosed = refl;
  udp_unclosed = refl;
  in_map = refl;
  nothing_sent = refl;
}

-- The second dial succeeds, and the relay is refused.
abbrev refusing : Opening
refusing = record {
  first_dial = false;
  second_dial = true;
  bound = true;
  request_sent = true;
  reply = 5 ∷ 1 ∷ 0 ∷ 1 ∷ 1 ∷ 2 ∷ 3 ∷ 4 ∷ 0 ∷ 80 ∷ [];
}

abbrev refusal : Common
refusal = record { flag = 1; host_type = 1; host = 1 ∷ 2 ∷ 3 ∷ 4 ∷ []; port = 80 }

abbrev relay_request : Bytes
relay_request = 5 ∷ 3 ∷ 0 ∷ 1 ∷ 48 ∷ 46 ∷ 48 ∷ 46 ∷ 48 ∷ 46 ∷ 48 ∷ 0 ∷ 0 ∷ []

asked_for_relay : write_common plain_net associate_request ≡ ret (done relay_request)
unfolding write_common write_packed pack_host or_invalid
asked_for_relay = refl

replied : read_common plain_net refusing.reply ≡ ret (done refusal)
unfolding read_common read_message read_full read_host read_ip_host read_port
replied = refl

open_relay-Settles_example :
    (r : Assoc Bytes × Option Bytes) × (open_relay env unpack_plain fresh refusing ≡ ret r)
    × Settled env refusing (done relay_request) (done refusal) r
open_relay-Settles_example =
    open_relay-Settles env unpack_plain fresh fresh-IsFresh refusing (done relay_request)
      (done refusal) asked_for_relay replied

abbrev live : Assoc Bytes
live = record fresh { running = true; socks_open = true; bind_open = true }

live-IsKept : IsKept live
live-IsKept = record {
  sockets_open = λ h. (refl, refl);
  nothing_closed = λ h. (refl, refl, refl);
  all_closed = λ h. absurd (ground arith);
  none_before_end = λ d h. refl;
  once = λ d. omega arith;
}

abbrev relay : Bytes
relay = 1 ∷ 2 ∷ 3 ∷ 4 ∷ []

abbrev datagram : Bytes
datagram = 0 ∷ 0 ∷ 0 ∷ 1 ∷ 8 ∷ 8 ∷ 8 ∷ 8 ∷ 0 ∷ 53 ∷ 1 ∷ 0 ∷ 9 ∷ 1 ∷ b'x' ∷ []

abbrev inside : UdpRequest
inside = record {
  frag = 0;
  host_type = 1;
  dst_host = server;
  dst_port = 53;
  body = 1 ∷ 0 ∷ 9 ∷ 1 ∷ b'x' ∷ [];
}

datagram_parsed : parse_udp_request plain_net datagram ≡ ret (done inside)
unfolding parse_udp_request read_full read_host read_ip_host read_port
datagram_parsed = refl

datagram-IsServable : IsServable env (ends live) datagram 7 (replicate mtu 0) blank_pool
datagram-IsServable = record {
  req = done inside;
  parsed = datagram_parsed;
  fits = record {
    id_fits = omega arith;
    local_length = refl;
    remote_length = refl;
    local_bytes = omega arith;
    remote_bytes = omega arith;
    l_port_fits = omega arith;
    r_port_fits = omega arith;
    payload_bytes = omega arith;
    fits = omega arith;
  };
  old_length = length-replicate {A = ℕ} mtu 0;
  pool_length = blank_pool-full;
}

-- The answer ends the connection; the timer is not waited for.
abbrev events : List RelayEvent
events = answer relay datagram 7 100 (replicate mtu 0) blank_pool ∷ timed_out ∷ []

run_events-IsKept_example :
    (s : Assoc Bytes) × (run_events env unpack_plain relay live events ≡ ret s)
    × IsKept s
    × (ends s ≡ ends live)
run_events-IsKept_example =
    run_events-IsKept env unpack_plain relay events live live-IsKept (datagram-IsServable, (tt, tt))

abbrev from_client : Ip4
from_client = record new_ip4 { src_ip = client; dst_ip = server }

abbrev to_server : Udp
to_server = record new_udp { src_port = 4000; dst_port = 53 }

-- Another connection of the same client.
abbrev taken : Tracks Bytes
taken = (record (udp_conn_id from_client to_server) { dst_port = 54 }, fresh) ∷ []

get_udp_track-Found_example :
    ((a : Assoc Bytes) × (find_track
          (key_of none from_client to_server taken)
          (get_udp_track (udp_conn_id from_client to_server) none from_client to_server taken)
        ≡ some a)
      × Found from_client to_server (find_track (key_of none from_client to_server taken) taken) a)
    × ((k : ConnId)
        → ¬ (k ≡ key_of none from_client to_server taken)
        → find_track k
            (get_udp_track (udp_conn_id from_client to_server) none from_client to_server taken)
          ≡ find_track k taken)
get_udp_track-Found_example = get_udp_track-Found none from_client to_server taken
