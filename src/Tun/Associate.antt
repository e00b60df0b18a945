-- ===== src/Tun/Associate.antt =====
-- gotun2socks/tun2socks/udp.go, udpConnTrack.run: datagrams of one pair of ends go through the UDP
-- relay of a SOCKS server. The sockets are what the events say of them.
pub mod Lifecycle
pub mod Runs
pub mod Tracks
use go_game_proxy.Prelude.{
  ℕ, Bool, true, false, not, ◌||◌, Option, none, some, List, [], ◌∷◌, ◌++◌, Bytes, ◌==◌,
  if◌then◌else◌,
}
use go_game_proxy.Prelude.Bytes.{same_bytes}
use go_game_proxy.Packet.Wire.{Go, ret, ◌>>=◌, close_chan}
use go_game_proxy.Socks.{
  Net, Result, done, failed, Common, UdpRequest, ipv4_host, read_common, write_common,
  parse_udp_request, pack_udp_request,
}
use go_game_proxy.Tun.Datagram.{UdpPacket, response_packet}
use go_game_proxy.Tun.Dns.{Msg, Storage, store, is_dns}
use go_game_proxy.Tun.Fragments.{IpPacket}

-- Package net as this code uses it: that of the messages, and `SocksAddrToNetAddr` with `String`.
pub record Env : Type 0 where
  pub net : Net
  pub relay_string : Bytes → ℕ → Bytes

-- `udpConnTrack`, with its sockets and channels: open or not, closed or not. `registered` says that
-- it is in `udpConnTrackMap`, what it sent stands in the order it was sent, and `cache` is the
-- tunnel's, as its turn finds it.
pub record Assoc (Rest : Type 0) : Type 0 where
  pub local_ip : Bytes
  pub remote_ip : Bytes
  pub local_port : ℕ
  pub remote_port : ℕ
  pub running : Bool
  pub registered : Bool
  pub socks_open : Bool
  pub bind_open : Bool
  pub socks_closed : Bool
  pub quit_by_self : Bool
  pub quit_udp : Bool
  pub to_tun : List (UdpPacket × List IpPacket)
  pub to_relay : List Bytes
  pub cache : Option (Storage Rest)

-- What happens while the relay is asked for: the two dials, the bind, the write, and the reply.
pub record Opening : Type 0 where
  pub first_dial : Bool
  pub second_dial : Bool
  pub bound : Bool
  pub request_sent : Bool
  pub reply : Bytes

-- A case of the `select`; `answer` has the identification, the buffers and the clock of its turn.
pub data RelayEvent : Type 0 where
  relay_ended : RelayEvent
  answer : (addr body : Bytes) (id now : ℕ) (old : Bytes) (pool : ℕ → Bytes) → RelayEvent
  request : UdpPacket → Bool → RelayEvent
  socks_ended : RelayEvent
  timed_out : RelayEvent
  quit_by_other : RelayEvent

-- The request for a relay: UDP ASSOCIATE for 0.0.0.0:0.
abbrev pub associate_request : Common
associate_request = record {
  flag = 3;
  host_type = ipv4_host;
  host = 48 ∷ 46 ∷ 48 ∷ 46 ∷ 48 ∷ 46 ∷ 48 ∷ [];
  port = 0;
}

module _ {Rest : Type 0} where
  -- The end of every failure to open. The UDP socket is left as it is.
  unfoldable pub give_up : Assoc Rest → Go (Assoc Rest)
  give_up s = close_chan s.socks_closed >>= λ c1. close_chan s.quit_by_self >>= λ c2.
      ret (record s {
        running = false;
        registered = false;
        socks_open = false;
        socks_closed = c1;
        quit_by_self = c2;
      })

  -- The end of the loop, but for `quitByOther`.
  unfoldable pub end_loop : Assoc Rest → Go (Assoc Rest)
  end_loop s = close_chan s.quit_by_self >>= λ c1. close_chan s.quit_udp >>= λ c2. ret (record s {
    running = false;
    registered = false;
    socks_open = false;
    bind_open = false;
    quit_by_self = c1;
    quit_udp = c2;
  })

  -- The end of the loop where the tunnel stops.
  unfoldable pub leave : Assoc Rest → Go (Assoc Rest)
  leave s = close_chan s.quit_udp >>= λ c.
      ret (record s { running = false; socks_open = false; bind_open = false; quit_udp = c })

  -- `send_answer`
  unfoldable pub send_answer : Assoc Rest → Bytes → ℕ → Bytes → (ℕ → Bytes) → Go (Assoc Rest)
  send_answer s body id old pool =
      response_packet id s.local_ip s.remote_ip s.local_port s.remote_port body old pool >>= λ sent.
      ret (record s { to_tun = s.to_tun ++ (sent ∷ []) })

  module _ (env : Env) (unpack : Bytes → Option (Msg Rest)) where
    -- What the loop starts with: the address of the relay.
    unfoldable pub read_reply : Assoc Rest → Result Common → Go (Assoc Rest × Option Bytes)
    read_reply s (failed e) = give_up s >>= λ s'. ret (s', none)
    read_reply s (done reply) =
        if not (reply.flag == 0)
        then (give_up s >>= λ s'. ret (s', none))
        else ret (record s { running = true }, some (env.relay_string reply.host reply.port))

    unfoldable pub write_request :
        Assoc Rest → Opening → Result Bytes → Go (Assoc Rest × Option Bytes)
    write_request s o (failed e) = give_up s >>= λ s'. ret (s', none)
    write_request s o (done req) =
        if not o.request_sent
        then (give_up s >>= λ s'. ret (s', none))
        else (read_common env.net o.reply >>= λ reply. read_reply s reply)

    -- `run` up to its loop.
    unfoldable pub open_relay : Assoc Rest → Opening → Go (Assoc Rest × Option Bytes)
    open_relay s o =
        if not (o.first_dial || o.second_dial)
        then (give_up s >>= λ s'. ret (s', none))
        else if not o.bound
        then (give_up (record s { socks_open = true }) >>= λ s'. ret (s', none))
        else (write_common env.net associate_request >>= λ req.
            write_request (record s { socks_open = true; bind_open = true }) o req)

    abbrev pub stored_in : Option (Storage Rest) → Bytes → ℕ → Option (Storage Rest)
    stored_in none body now = none
    stored_in (some storage) body now = some (store unpack storage body now)

    -- After an answer has been sent: one from a name server is the last.
    unfoldable pub after_answer : Assoc Rest → Bytes → ℕ → Go (Assoc Rest)
    after_answer s body now =
        if is_dns s.remote_port
        then end_loop (record s { cache = stored_in s.cache body now })
        else ret s

    unfoldable pub take_answer :
        Assoc Rest → Result UdpRequest → ℕ → ℕ → Bytes → (ℕ → Bytes) → Go (Assoc Rest)
    take_answer s (failed e) id now old pool = ret s
    take_answer s (done req) id now old pool =
        if not (req.frag == 0)
        then ret s
        else (send_answer s req.body id old pool >>= λ s'. after_answer s' req.body now)

    unfoldable pub forward : Assoc Rest → UdpPacket → Bool → Go (Assoc Rest)
    forward s pkt written =
        let datagram = pack_udp_request env.net (record {
          frag = 0;
          host_type = ipv4_host;
          dst_host = env.net.ip_string pkt.ip.dst_ip;
          dst_port = pkt.udp.dst_port;
          body = pkt.udp.payload;
        }) in
        if written then ret (record s { to_relay = s.to_relay ++ (datagram ∷ []) }) else end_loop s

    -- A turn of the loop of `run`.
    unfoldable pub relay_turn : Bytes → Assoc Rest → RelayEvent → Go (Assoc Rest)
    relay_turn relay s relay_ended = end_loop s
    relay_turn relay s (answer addr body id now old pool) =
        if not (same_bytes addr relay)
        then ret s
        else (parse_udp_request env.net body >>= λ req. take_answer s req id now old pool)
    relay_turn relay s (request pkt written) = forward s pkt written
    relay_turn relay s socks_ended = end_loop (record s { socks_closed = true })
    relay_turn relay s timed_out = end_loop s
    relay_turn relay s quit_by_other = leave s

    -- The loop: what happens after its return is not seen.
    unfoldable pub run_events : Bytes → Assoc Rest → List RelayEvent → Go (Assoc Rest)
    run_events relay s [] = ret s
    run_events relay s (e ∷ events) =
        let rest = relay_turn relay s e >>= λ s'. run_events relay s' events in
        if s.running then rest else ret s
