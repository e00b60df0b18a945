-- ===== src/Socks/Serve/Associate.antt =====
-- gotun2socks/gosocks/server.go: UDPAssociateForwarding, and the commands that ServeSocks knows.
use go_game_proxy.Prelude.{
  Bool, false, not, ◌&&◌, Option, none, some, List, [], ◌∷◌, ◌++◌, Bytes, ◌==◌, if◌then◌else◌,
}
use go_game_proxy.Packet.Wire.{Go, ret, ◌>>=◌}
use go_game_proxy.Socks.{
  Result, done, failed, Common, UdpRequest, read_common, parse_udp_request, pack_udp_request,
}
use go_game_proxy.Socks.Serve.{
  Addr, Names, legal_client_addr, reply_with, Answered, First, first_failed, first_waits,
  first_packet, handle_cmd_connect, udp_associate_first_packet,
}

-- The loop of `UDPAssociateForwarding`: which of its three sockets are open, the client's address,
-- and what went out, in order.
pub record Relaying : Type 0 where
  pub running : Bool
  pub conn_open : Bool
  pub client_open : Bool
  pub forward_open : Bool
  pub client_addr : Addr
  pub to_remote : List (Bytes × Addr)
  pub to_client : List (Bytes × Addr)

-- A case of the `select`; the flag of a packet says that it could be written.
pub data Arrival : Type 0 where
  from_client : Addr → Bytes → Bool → Arrival
  client_ended : Arrival
  from_remote : Addr → Bytes → Bool → Arrival
  remote_ended : Arrival
  conn_event : Arrival
  idle_too_long : Arrival

-- What stands behind the loop.
unfoldable pub close_all : Relaying → Relaying
close_all s = record s {
  running = false;
  conn_open = false;
  client_open = false;
  forward_open = false;
}

-- A write to a nil address is an error.
unfoldable pub send_on : Relaying → Bytes → Option Addr → Bool → Relaying
send_on s body none sent = close_all s
send_on s body (some a) sent =
    if sent then record s { to_remote = s.to_remote ++ ((body, a) ∷ []) } else close_all s

unfoldable pub take_request : Names → Relaying → Addr → Result UdpRequest → Bool → Relaying
take_request names s addr (failed e) sent = close_all s
take_request names s addr (done req) sent =
    if not (req.frag == 0)
    then s
    else send_on (record s { client_addr = addr }) req.body
        (names.resolve req.dst_host req.dst_port) sent

-- The datagram for the client.
unfoldable pub packed_answer : Names → Addr → Bytes → Bytes
packed_answer names addr body =
    let from = reply_with 0 names addr in
    pack_udp_request names.net (record {
      frag = 0;
      host_type = from.host_type;
      dst_host = from.host;
      dst_port = from.port;
      body = body;
    })

-- A turn of the loop.
unfoldable pub arrival_turn : Names → Option Addr → Arrival → Relaying → Go Relaying
arrival_turn names announced (from_client addr body sent) s =
    legal_client_addr names announced addr >>= λ legal.
    if not legal
    then ret s
    else parse_udp_request names.net body >>= λ req. ret (take_request names s addr req sent)
arrival_turn names announced client_ended s = ret (close_all s)
arrival_turn names announced (from_remote addr body sent) s = ret (
    if sent
    then record s {
      to_client = s.to_client ++ ((packed_answer names addr body, s.client_addr) ∷ []);
    }
    else close_all s)
arrival_turn names announced remote_ended s = ret (close_all s)
arrival_turn names announced conn_event s = ret (close_all s)
arrival_turn names announced idle_too_long s = ret (close_all s)

unfoldable pub run_arrivals : Names → Option Addr → List Arrival → Relaying → Go Relaying
run_arrivals names announced [] s = ret s
run_arrivals names announced (a ∷ arrivals) s =
    let rest =
      arrival_turn names announced a s >>= λ s'. run_arrivals names announced arrivals s' in
    if s.running then rest else ret s

-- The start of `UDPAssociateForwarding`: the dial that finds the local address, and the first packet.
-- Where that cannot be written, the client's connection is left open.
unfoldable pub start_forwarding : UdpRequest → Addr → Option Addr → Bool → Bool → Relaying
start_forwarding req client none dialled sent = record {
  running = false;
  conn_open = false;
  client_open = false;
  forward_open = false;
  client_addr = client;
  to_remote = [];
  to_client = [];
}
start_forwarding req client (some a) dialled sent = record {
  running = dialled && sent;
  conn_open = dialled;
  client_open = dialled && sent;
  forward_open = dialled && sent;
  client_addr = client;
  to_remote = if dialled && sent then (req.body, a) ∷ [] else [];
  to_client = [];
}

unfoldable pub udp_associate_forwarding :
    Names → Option Addr → UdpRequest → Addr → Bool → Bool → List Arrival → Go Relaying
udp_associate_forwarding names announced req client dialled sent arrivals =
    run_arrivals names announced arrivals
      (start_forwarding req client (names.resolve req.dst_host req.dst_port) dialled sent)

-- What the world answers to a command: the addresses and results of its sockets.
pub record Sockets : Type 0 where
  pub local : Option Addr
  pub reply_sent : Bool
  pub reads : List (Option (Addr × Bytes))
  pub dialled : Bool
  pub first_sent : Bool
  pub arrivals : List Arrival

-- How `ServeSocks` leaves the client's connection.
pub data Served : Type 0 where
  left_open : Served
  closed_at_once : Served
  connected_to : Answered → Bool → Served
  associated : Answered → Served
  forwarded : Answered → Relaying → Served

unfoldable pub after_first : Names → Sockets → Answered → First → Go Served
after_first names k a first_failed = ret (associated a)
after_first names k a first_waits = ret (associated a)
after_first names k a (first_packet announced req addr) =
    udp_associate_forwarding names announced req addr k.dialled k.first_sent k.arrivals >>= λ s.
    ret (forwarded a s)

-- `ServeSocks` behind the request; a command that is not known leaves the connection as it is.
unfoldable pub serve_command : Names → Sockets → Common → Go Served
serve_command names k req =
    if req.flag == 1
    then (handle_cmd_connect names req k.local k.reply_sent >>= λ (a, copies).
        ret (connected_to a copies))
    else if req.flag == 3
    then (udp_associate_first_packet names req k.local k.reply_sent k.reads >>= λ (a, f).
        after_first names k a f)
    else if req.flag == 2
    then ret closed_at_once
    else ret left_open

unfoldable pub serve_request : Names → Sockets → Result Common → Go Served
serve_request names k (failed e) = ret left_open
serve_request names k (done req) = serve_command names k req

-- `ServeSocks` on the bytes of a client.
unfoldable pub serve_socks : Names → Sockets → Bytes → Go Served
serve_socks names k bytes = read_common names.net bytes >>= λ req. serve_request names k req
