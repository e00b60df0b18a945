-- ===== src/Tun/Conn/Handlers.antt =====
-- gotun2socks/tun2socks/tcp.go: the handlers of a packet, one for each state.
use go_game_proxy.Prelude.{
  ℕ, ◌+◌, ◌/◌, Bool, true, false, not, ◌||◌, ◌&&◌, Option, none, some, List, [], ◌∷◌, ◌++◌, Bytes,
  ◌==◌, if◌then◌else◌, u32, length, ltb,
}
use go_game_proxy.Packet.Wire.{Go, ret, panic, ◌>>=◌}
use go_game_proxy.Tun.Pack.{TcpPacket}
use go_game_proxy.Tun.Conn.{
  TcpState, closed, syn_rcvd, established, fin_wait_2, closing, last_ack, time_wait, ConnectState,
  connect_not_sent, connect_sent, connect_established, ProxyType, proxy_none, proxy_socks,
  proxy_http, ProxyServer, Conn, Route, via_socks, via_http, direct, Effect, segment, raw_bytes,
  dial, connect_request, start_relay, close_socks, rst_by_packet, change_state, valid_ack,
  valid_seq, relay_payload, syn_ack, fin_ack, send_ack,
}

-- What `Dial` returns: a connection, nil and an error, or a closed connection and an error.
pub data Dialled : Type 0 where
  connected : Dialled
  not_connected : Dialled
  not_authenticated : Dialled

unfoldable pub dial_ok : Dialled → Bool
dial_ok connected = true
dial_ok not_connected = false
dial_ok not_authenticated = false

unfoldable pub is_conn : Dialled → Bool
is_conn connected = true
is_conn not_connected = false
is_conn not_authenticated = true

-- What a turn learns from the outside: the results of `IPID`, `time.Now`, `FindAppUid` and the
-- dialer, and whether the `select` of `relayPayload` hands the packet on.
pub record World : Type 0 where
  pub ip_id : ℕ
  pub now : ℕ
  pub found_uid : Option ℕ
  pub dialled : Dialled
  pub accepted : Bool

-- The proxies of `Tun2Socks`; the default is nil until `SetDefaultProxy` is called.
pub record Proxies : Type 0 where
  pub proxy_of : Option ℕ → Option ProxyServer
  pub default_proxy : Option ProxyServer

-- The connection after a handler, what it did, and its two results.
pub record Outcome : Type 0 where
  pub conn : Conn
  pub effects : List Effect
  pub continu : Bool
  pub release : Bool

-- `isPrivate` of tun2socks.go on the four bytes of an address.
unfoldable pub is_private : Bytes → Bool
is_private [] = false
is_private (a ∷ []) = false
is_private (a ∷ b ∷ []) = false
is_private (a ∷ b ∷ c ∷ rest) =
    ((a == 10) && ((b == 0) && (c == 0)))
    || (((a == 172) && ((b == 16) && (c / 16 == 0))) || ((a == 192) && (b == 168)))

-- The proxy of an application, or the default one, whose address is read through its pointer.
unfoldable pub choose_proxy : Option ProxyServer → Option ProxyServer → Go ProxyServer
choose_proxy (some p) default = ret p
choose_proxy none (some p) = ret p
choose_proxy none none = panic

-- `loadProxyConfig`
unfoldable pub load_proxy_config : Proxies → Conn → Go Conn
load_proxy_config t2s c =
    choose_proxy (t2s.proxy_of c.uid) t2s.default_proxy >>= λ p. ret (record c { proxy_server = p })

-- The lookup at the head of `stateClosed`.
unfoldable pub load_uid : World → Proxies → Option ℕ → Conn → Go Conn
load_uid w t2s none c = load_proxy_config t2s (record c { uid = w.found_uid })
load_uid w t2s (some uid) c = ret c

unfoldable pub is_proxied : Conn → Bool
is_proxied c = not (is_private c.remote_ip) && ((c.remote_port == 80) || (c.remote_port == 443))

unfoldable pub find_proxy : World → Proxies → Conn → Go Conn
find_proxy w t2s c = if is_proxied c then load_uid w t2s c.uid c else ret c

unfoldable pub route_by : ProxyType → Conn → Route
route_by proxy_none c = direct c.remote_ip c.remote_port
route_by proxy_socks c = via_socks c.proxy_server
route_by proxy_http c = via_http c.proxy_server

unfoldable pub route_of : Conn → Route
route_of c =
    if is_proxied c then route_by c.proxy_server.proxy_type c else direct c.remote_ip c.remote_port

-- Whether `stateClosed` calls `callHttpProxyConnect`.
unfoldable pub sends_connect : Route → Conn → TcpPacket → Bool
sends_connect (via_socks p) c syn = false
sends_connect (direct ip port) c syn = false
sends_connect (via_http p) c syn = ltb 0 (length syn.tcp.hostname) && (c.remote_port == 443)

unfoldable pub is_not_sent : ConnectState → Bool
is_not_sent connect_not_sent = true
is_not_sent connect_sent = false
is_not_sent connect_established = false

-- The end of `stateClosed`, where the proxy is connected.
unfoldable pub answer_syn : World → Conn → TcpPacket → List Effect → Outcome
answer_syn w c syn before =
    if not (is_not_sent c.connect_state)
    then (let (ip, tcp) = rst_by_packet w.ip_id syn in
        record {
          conn = c;
          effects = before ++ (raw_bytes ip tcp ∷ []);
          continu = false;
          release = true;
        })
    else (let (c1, out) =
          syn_ack w.ip_id (record c { rcv_nxt_seq = u32 (syn.tcp.seq + 1); nxt_seq = 1 }) in
        record {
          conn = change_state c1 syn_rcvd;
          effects = before ++ out;
          continu = true;
          release = true;
        })

-- `stateClosed` up to the dialer, which is called with the route of this connection.
unfoldable pub connect : World → Proxies → Conn → Go Conn
connect w t2s c = find_proxy w t2s c >>= λ c1. ret (record c1 { has_socks = is_conn w.dialled })

-- The calls of the dialer and of `callHttpProxyConnect`.
unfoldable pub dial_effects : Conn → TcpPacket → List Effect
dial_effects c syn =
    dial (route_of c)
    ∷ (if sends_connect (route_of c) c syn
        then connect_request syn.tcp.hostname c.proxy_server.auth_header ∷ []
        else [])

-- `stateClosed` behind the dialer. `callHttpProxyConnect` writes to the connection before the error of the dialer is
-- looked at, and panics on the nil one.
unfoldable pub after_dial : World → Conn → TcpPacket → Go Outcome
after_dial w c syn =
    if sends_connect (route_of c) c syn && not (is_conn w.dialled)
    then panic
    else if not (dial_ok w.dialled)
    then ret (record { conn = c; effects = dial_effects c syn; continu = false; release = false })
    else ret (answer_syn w c syn (dial_effects c syn))

-- `stateClosed`
unfoldable pub state_closed : World → Proxies → Conn → TcpPacket → Go Outcome
state_closed w t2s c0 syn = connect w t2s c0 >>= λ c. after_dial w c syn

-- Hand the payload on, if there is one: the packet is then no longer the loop's to release.
unfoldable pub relay : World → Conn → TcpPacket → Conn × List Effect × Bool
relay w c pkt =
    if length pkt.tcp.payload == 0 then (c, [], false) else relay_payload w.accepted c pkt

-- `stateSynRcvd`
unfoldable pub state_syn_rcvd : World → Conn → TcpPacket → Outcome
state_syn_rcvd w c pkt =
    if not (valid_seq c pkt && valid_ack c pkt)
    then (let (ip, tcp) = rst_by_packet w.ip_id pkt in
        record {
          conn = c;
          effects = if pkt.tcp.rst then [] else segment ip tcp ∷ [];
          continu = true;
          release = true;
        })
    else if pkt.tcp.rst
    then record {
      conn = record c { destroyed = true };
      effects = [];
      continu = false;
      release = true;
    }
    else if not pkt.tcp.ack_flag
    then record { conn = c; effects = []; continu = true; release = true }
    else (let (c1, out, handed) = relay w (change_state c established) pkt in
        record { conn = c1; effects = start_relay ∷ out; continu = true; release = not handed })

-- `stateEstablished`
unfoldable pub state_established : World → Conn → TcpPacket → Outcome
state_established w c pkt =
    if not (valid_seq c pkt)
    then (let (c1, out) = send_ack w.ip_id c in
        record { conn = c1; effects = out; continu = true; release = true })
    else if pkt.tcp.rst
    then record { conn = c; effects = []; continu = false; release = true }
    else if not pkt.tcp.ack_flag
    then record { conn = c; effects = []; continu = true; release = true }
    else (let (c1, out, handed) = relay w c pkt in
        if pkt.tcp.fin
        then (let (c2, sent) =
              fin_ack w.ip_id (record c1 { rcv_nxt_seq = u32 (c1.rcv_nxt_seq + 1) }) in
            record {
              conn = change_state c2 last_ack;
              effects = out ++ (sent ++ (close_socks ∷ []));
              continu = true;
              release = not handed;
            })
        else record { conn = c1; effects = out; continu = true; release = not handed })

-- A handler that returns `false, true` and does nothing else.
abbrev pub stop : Conn → Outcome
stop c = record { conn = c; effects = []; continu = false; release = true }

-- A handler that returns `true, true` and does nothing else.
abbrev pub ignore : Conn → Outcome
ignore c = record { conn = c; effects = []; continu = true; release = true }

-- The acknowledgement of a FIN, and the last change of state.
unfoldable pub ack_fin : World → Conn → TcpState → Outcome
ack_fin w c nxt =
    let (c1, out) = send_ack w.ip_id (record c { rcv_nxt_seq = u32 (c.rcv_nxt_seq + 1) }) in
    record { conn = change_state c1 nxt; effects = out; continu = false; release = true }

-- `stateFinWait1`
unfoldable pub state_fin_wait_1 : World → Conn → TcpPacket → Outcome
state_fin_wait_1 w c pkt =
    if not (valid_seq c pkt)
    then stop c
    else if pkt.tcp.rst
    then stop c
    else if not pkt.tcp.ack_flag
    then stop c
    else if pkt.tcp.fin
    then ack_fin w c (if pkt.tcp.ack_flag && valid_ack c pkt then time_wait else closing)
    else stop (change_state c fin_wait_2)

-- `stateFinWait2`
unfoldable pub state_fin_wait_2 : World → Conn → TcpPacket → Outcome
state_fin_wait_2 w c pkt =
    if not (valid_seq c pkt && valid_ack c pkt)
    then stop c
    else if pkt.tcp.rst
    then stop c
    else if not pkt.tcp.ack_flag || not pkt.tcp.fin
    then stop c
    else ack_fin w c time_wait

-- `stateClosing`
unfoldable pub state_closing : Conn → TcpPacket → Outcome
state_closing c pkt =
    if not (valid_seq c pkt && valid_ack c pkt)
    then ignore c
    else if pkt.tcp.rst
    then stop c
    else if not pkt.tcp.ack_flag
    then ignore c
    else stop (change_state c time_wait)

-- `stateLastAck`
unfoldable pub state_last_ack : Conn → TcpPacket → Outcome
state_last_ack c pkt =
    if not (valid_seq c pkt && valid_ack c pkt)
    then ignore c
    else if not pkt.tcp.ack_flag
    then ignore c
    else stop (change_state c closed)
