-- ===== src/Socks/Serve/Exchange.antt =====
-- A UDP connection of the tunnel in front of the UDP relay of this server.
use go_game_proxy.Prelude.{
  ℕ, ◌≤◌, ◌<◌, ◌≡◌, refl, ◌⊎◌, inl, inr, true, Option, some, [], ◌∷◌, ◌++◌, Bytes, length, u16,
  ◌==◌, length-append, arith, if◌then◌else◌,
}
use go_game_proxy.Prelude.Bytes.{same_bytes_refl}
use go_game_proxy.Packet.Wire.{ret, ◌>>=◌}
use go_game_proxy.Socks.{
  Net, done, UdpRequest, ipv4_host, ipv6_host, pack_udp_request, parse_udp_request, pack_host,
  or_invalid, htons,
}
use go_game_proxy.Socks.RoundTrip.{IsNet, is_ip4, is_ip6, parse_udp_request-pack_udp_request}
use go_game_proxy.Socks.Serve.{Addr, Names, legal_client_addr, reply_with}
use go_game_proxy.Socks.Serve.Associate.{
  Relaying, from_client, from_remote, arrival_turn, take_request, send_on, packed_answer,
}
use go_game_proxy.Tun.Associate.{
  Env, Assoc, answer, relay_turn, forward, take_answer, send_answer, after_answer,
}
use go_game_proxy.Tun.Datagram.{UdpPacket}
use go_game_proxy.Tun.Dns.{Msg}

-- What the tunnel sends to its relay for a packet.
abbrev pub request_for : Net → UdpPacket → UdpRequest
request_for net pkt = record {
  frag = 0;
  host_type = ipv4_host;
  dst_host = net.ip_string pkt.ip.dst_ip;
  dst_port = pkt.udp.dst_port;
  body = pkt.udp.payload;
}

-- A datagram with an address in it is long enough to be parsed.
long_datagram :
    (net : Net) (r : UdpRequest) (h : Bytes)
    → pack_host net r.host_type r.dst_host ≡ done h
    → 4 ≤ length h
    → 8 < length (pack_udp_request net r)
unfolding pack_udp_request
long_datagram net r h e l = rw e (omega (arith, length-append h (htons r.dst_port ++ r.body), l))

module _ (net : Net) (n : IsNet net) where
  -- A datagram for an address of this type.
  abbrev datagram_at : ℕ → Bytes → ℕ → Bytes → UdpRequest
  datagram_at t b port body = record {
    frag = 0;
    host_type = t;
    dst_host = net.ip_string b;
    dst_port = port;
    body = body;
  }

  parse-datagram_v4 :
      (b : Bytes) (port : ℕ) (body : Bytes)
      → length b ≡ 4
      → port < 65536
      → parse_udp_request net (pack_udp_request net (datagram_at ipv4_host b port body))
        ≡ ret (done (datagram_at ipv4_host b port body))
  unfolding pack_host or_invalid
  parse-datagram_v4 b port body l p =
      let r = datagram_at ipv4_host b port body in
      let packed : pack_host net ipv4_host (net.ip_string b) ≡ done b = rw (n.round4 b l) refl in
      parse_udp_request-pack_udp_request net r n (is_ip4 b l) p
        (long_datagram net r b packed (omega (arith, l)))

  parse-datagram_v6 :
      (b : Bytes) (port : ℕ) (body : Bytes)
      → length b ≡ 16
      → port < 65536
      → parse_udp_request net (pack_udp_request net (datagram_at ipv6_host b port body))
        ≡ ret (done (datagram_at ipv6_host b port body))
  unfolding pack_host or_invalid
  parse-datagram_v6 b port body l p =
      let r = datagram_at ipv6_host b port body in
      let packed : pack_host net ipv6_host (net.ip_string b) ≡ done b = rw (n.round16 b l) refl in
      parse_udp_request-pack_udp_request net r n (is_ip6 b l) p
        (long_datagram net r b packed (omega (arith, l)))

  abbrev pub IsAddress : Addr → Type 0
  IsAddress a = (length a.ip ≡ 4) ⊎ (length a.ip ≡ 16)

  abbrev type_of : Addr → ℕ
  type_of a = if length a.ip == 16 then ipv6_host else ipv4_host

  parse-answer :
      (a : Addr) (body : Bytes)
      → IsAddress a
      → parse_udp_request net
          (pack_udp_request net (datagram_at (type_of a) a.ip (u16 a.port) body))
        ≡ ret (done (datagram_at (type_of a) a.ip (u16 a.port) body))
  parse-answer a body (inl l) = rw l (parse-datagram_v4 a.ip (u16 a.port) body l (omega arith))
  parse-answer a body (inr l) = rw l (parse-datagram_v6 a.ip (u16 a.port) body l (omega arith))

module _ {Rest : Type 0} (names : Names) (n : IsNet names.net) (relay_string : Bytes → ℕ → Bytes)
    (unpack : Bytes → Option (Msg Rest)) where
  abbrev pub env : Env
  env = record { net = names.net; relay_string = relay_string }

  -- The datagram that the tunnel sends for a packet is taken by the relay from an address from which
  -- its client may send, and its payload goes to the address that the relay finds for the packet's. A
  -- datagram from there goes to the client, and the tunnel takes it for an answer with that body.
  pub forward-exchange :
      (c : Assoc Rest) (s : Relaying) (announced : Option Addr) (client to : Addr) (pkt : UdpPacket)
      (body : Bytes) (relay : Bytes) (id now : ℕ) (old : Bytes) (pool : ℕ → Bytes)
      → legal_client_addr names announced client ≡ ret true
      → length pkt.ip.dst_ip ≡ 4
      → pkt.udp.dst_port < 65536
      → names.resolve (names.net.ip_string pkt.ip.dst_ip) pkt.udp.dst_port ≡ some to
      → IsAddress names.net n to
      → (datagram : Bytes) × (forward env unpack c pkt true
          ≡ ret (record c { to_relay = c.to_relay ++ (datagram ∷ []) }))
        × (arrival_turn names announced (from_client client datagram true) s
            ≡ ret (record s {
              client_addr = client;
              to_remote = s.to_remote ++ ((pkt.udp.payload, to) ∷ []);
            }))
        × (arrival_turn names announced (from_remote to body true) s
            ≡ ret (record s {
              to_client = s.to_client ++ ((packed_answer names to body, s.client_addr) ∷ []);
            }))
        × (relay_turn env unpack relay c
              (answer relay (packed_answer names to body) id now old pool)
            ≡ (send_answer c body id old pool >>= λ c'. after_answer env unpack c' body now))
  unfolding forward arrival_turn take_request send_on packed_answer reply_with relay_turn
      take_answer
  forward-exchange c s announced client to pkt body relay id now old pool legal l p found v = (
    pack_udp_request names.net (request_for names.net pkt),
    refl,
    rw (legal, parse-datagram_v4 names.net n pkt.ip.dst_ip pkt.udp.dst_port pkt.udp.payload l p)
        (rw found refl),
    refl,
    rw (same_bytes_refl relay, parse-answer names.net n to body v) refl,
  )
