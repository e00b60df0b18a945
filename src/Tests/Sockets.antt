-- ===== src/Tests/Sockets.antt =====
-- gotun2socks/gosocks/server.go: the UDP relay with one client and one remote address.
use go_game_proxy.Prelude.{
  ◌≡◌, refl, inl, true, false, Option, some, List, [], ◌∷◌, ◌++◌, Bytes, arith,
}
use go_game_proxy.Prelude.Bytes.{same_bytes}
use go_game_proxy.Packet.Wire.{ret, ◌>>=◌}
use go_game_proxy.Packet.Ip4.{new_ip4}
use go_game_proxy.Socks.{
  Net, Common, done, failed, end_of_input, UdpRequest, parse_udp_request, pack_host, or_invalid,
  write_common, write_packed, read_common, read_message, read_host, read_ip_host, read_full,
  read_port,
}
use go_game_proxy.Socks.Serve.{
  Addr, Names, legal_client_addr, first_packet, first_loop, first_of, any_v6, reply_general_failure,
}
use go_game_proxy.Socks.Serve.Associate.{
  Relaying, Arrival, from_client, from_remote, conn_event, arrival_turn, packed_answer,
  udp_associate_forwarding, start_forwarding,
}
use go_game_proxy.Socks.Serve.Forwarding.{IsRelaying}
use go_game_proxy.Socks.Serve.Opened.{udp_associate-IsRelaying}
use go_game_proxy.Socks.Serve.Exchange.{env, forward-exchange}
use go_game_proxy.Tun.Associate.{answer, relay_turn, forward, send_answer, after_answer}
use go_game_proxy.Tun.Datagram.{UdpPacket}
use go_game_proxy.Tests.Messages.{plain_net, plain_net-IsNet}
use go_game_proxy.Tests.Datagrams.{client, server, blank_pool, unpack_plain}
use go_game_proxy.Tests.Associations.{fresh}

abbrev plain_names : Names
plain_names = record {
  net = plain_net;
  addr_string = λ a. a.port ∷ a.ip;
  resolve = λ host port. some (record { ip = host; port = port });
}

abbrev client_at : Addr
client_at = record { ip = client; port = 4000 }

abbrev stranger : Addr
stranger = record { ip = client; port = 4001 }

abbrev server_at : Addr
server_at = record { ip = server; port = 53 }

abbrev query : UdpPacket
query = record {
  ip = record new_ip4 { src_ip = client; dst_ip = server };
  udp = record {
    src_port = 4000;
    dst_port = 53;
    udp_length = 0;
    checksum_field = 0;
    payload = 1 ∷ 2 ∷ [];
  };
  wire = [];
}

abbrev datagram : Bytes
datagram = 0 ∷ 0 ∷ 0 ∷ 1 ∷ 8 ∷ 8 ∷ 8 ∷ 8 ∷ 0 ∷ 53 ∷ 1 ∷ 2 ∷ []

-- A datagram of another address is passed over.
abbrev first_reads : List (Option (Addr × Bytes))
first_reads = some (stranger, datagram) ∷ some (client_at, datagram) ∷ []

abbrev parsed : UdpRequest
parsed = record { frag = 0; host_type = 1; dst_host = server; dst_port = 53; body = 1 ∷ 2 ∷ [] }

datagram_parsed : parse_udp_request plain_net datagram ≡ ret (done parsed)
unfolding parse_udp_request read_host read_ip_host read_full read_port
datagram_parsed = refl

first_found :
    first_loop plain_names (some client_at) first_reads
    ≡ ret (first_packet (some client_at) parsed client_at)
unfolding first_loop legal_client_addr same_bytes first_of
first_found = rw datagram_parsed refl

abbrev later : List Arrival
later =
    from_client stranger datagram true
    ∷ from_client client_at datagram true
    ∷ from_remote server_at (9 ∷ []) true
    ∷ conn_event
    ∷ []

udp_associate-IsRelaying_example :
    (s : Relaying) × (udp_associate_forwarding plain_names
        (some client_at)
        parsed
        client_at
        true
        true
        later
      ≡ ret s)
    × IsRelaying plain_names
        (some client_at)
        ((stranger, datagram)
          ∷ (client_at, datagram)
          ∷ (stranger, datagram)
          ∷ (client_at, datagram)
          ∷ [])
        s
unfolding legal_client_addr same_bytes
udp_associate-IsRelaying_example =
    udp_associate-IsRelaying plain_names (some client_at) first_reads (some client_at) parsed
      client_at server_at later first_found refl
      (
        (false, done parsed, refl, datagram_parsed),
        ((true, done parsed, refl, datagram_parsed), (tt, (tt, tt))),
      )

abbrev relaying : Relaying
relaying = start_forwarding parsed client_at (some server_at) true true

forward-exchange_example :
    (sent : Bytes) × (forward
        (env plain_names plain_net-IsNet (λ host port. host) unpack_plain)
        unpack_plain
        fresh
        query
        true
      ≡ ret (record fresh { to_relay = sent ∷ [] }))
    × (arrival_turn plain_names (some client_at) (from_client client_at sent true) relaying
        ≡ ret (record relaying {
          client_addr = client_at;
          to_remote = relaying.to_remote ++ ((1 ∷ 2 ∷ [], server_at) ∷ []);
        }))
    × (arrival_turn plain_names (some client_at) (from_remote server_at (9 ∷ []) true) relaying
        ≡ ret (record relaying {
          to_client =
              relaying.to_client
              ++ ((packed_answer plain_names server_at (9 ∷ []), relaying.client_addr) ∷ []);
        }))
    × (relay_turn
          (env plain_names plain_net-IsNet (λ host port. host) unpack_plain)
          unpack_plain
          (7 ∷ [])
          fresh
          (answer (7 ∷ []) (packed_answer plain_names server_at (9 ∷ [])) 5 0 [] blank_pool)
        ≡ (send_answer fresh (9 ∷ []) 5 [] blank_pool >>= λ c.
            after_answer
              (env plain_names plain_net-IsNet (λ host port. host) unpack_plain)
              unpack_plain
              c
              (9 ∷ [])
              0))
unfolding legal_client_addr same_bytes
forward-exchange_example =
    forward-exchange plain_names plain_net-IsNet (λ host port. host) unpack_plain fresh relaying
      (some client_at) client_at server_at query (9 ∷ []) (7 ∷ []) 5 0 [] blank_pool refl refl
      (omega arith) refl (inl refl)

-- The failure reply to a request of version 6 has no address in it, and cannot be read.
abbrev v6_request : Common
v6_request = record { flag = 1; host_type = 4; host = any_v6; port = 80 }

-- As `ParseIP` and `To4` treat `::`.
abbrev v6_net : Net
v6_net = record plain_net { parse_to4 = λ s. some [] }

short_reply :
    (reply_general_failure v6_net v6_request ≡ ret (done (5 ∷ 1 ∷ 0 ∷ 1 ∷ 0 ∷ 0 ∷ [])))
    × (read_common v6_net (5 ∷ 1 ∷ 0 ∷ 1 ∷ 0 ∷ 0 ∷ []) ≡ ret (failed end_of_input))
unfolding reply_general_failure write_common write_packed pack_host or_invalid read_common
    read_message read_host read_ip_host read_full
short_reply = (refl, refl)
