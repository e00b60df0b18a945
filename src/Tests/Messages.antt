-- ===== src/Tests/Messages.antt =====
-- gotun2socks/gosocks and shadowsocks, and the search of packet/http.go, on concrete messages.
use go_game_proxy.Prelude.{
  ◌≡◌, ◌/◌, ◌%◌, refl, true, false, none, some, [], ◌∷◌, ◌++◌, Bytes, arith,
}
use go_game_proxy.Packet.Wire.{ret}
use go_game_proxy.Socks.{
  Net, done, pack_host, or_invalid, Common, UdpRequest, read_common, write_common,
  parse_udp_request, pack_udp_request,
}
use go_game_proxy.Socks.RoundTrip.{
  IsNet, is_domain, is_ip4, read_common-write_common, parse_udp_request-pack_udp_request,
}
use go_game_proxy.Shadow.{read_addr, split_addr}
use go_game_proxy.Shadow.Laws.{Agrees, read_addr-split_addr}
use go_game_proxy.Shadow.Handshake.{Texts, to_connect, succeeded, handshake, addr_text}
use go_game_proxy.Shadow.Handshake.Agreement.{handshake-write_common}
use go_game_proxy.Socks.Auth.{client_hello}
use go_game_proxy.Packet.Http.{find_string, find_rounds, starts_with, crlf}
use go_game_proxy.Packet.Http.Search.{IsFirst, find_string-IsFirst}

-- Addresses that print as their bytes.
abbrev pub plain_net : Net
plain_net = record { ip_string = λ b. b; parse_to4 = λ s. some s; parse_to16 = λ s. some s }

pub plain_net-IsNet : IsNet plain_net
plain_net-IsNet = record { round4 = λ b l. refl; round16 = λ b l. refl }

abbrev pub to_example : Common
to_example = record { flag = 1; host_type = 3; host = b'a' ∷ b'.' ∷ b'b' ∷ []; port = 443 }

read_common-write_common_example :
    (message : Bytes) × (write_common plain_net to_example ≡ ret (done message))
    × (read_common plain_net (message ++ (7 ∷ [])) ≡ ret (done to_example))
read_common-write_common_example =
    read_common-write_common plain_net to_example (7 ∷ []) plain_net-IsNet
      (is_domain (b'a' ∷ b'.' ∷ b'b' ∷ []) (omega arith)) (omega arith)

abbrev dns_request : UdpRequest
dns_request = record {
  frag = 0;
  host_type = 1;
  dst_host = 8 ∷ 8 ∷ 8 ∷ 8 ∷ [];
  dst_port = 53;
  body = 1 ∷ 2 ∷ [];
}

parse_udp_request-pack_udp_request_example :
    parse_udp_request plain_net (pack_udp_request plain_net dns_request) ≡ ret (done dns_request)
unfolding pack_udp_request pack_host or_invalid
parse_udp_request-pack_udp_request_example =
    parse_udp_request-pack_udp_request plain_net dns_request plain_net-IsNet
      (is_ip4 (8 ∷ 8 ∷ 8 ∷ 8 ∷ []) refl) (omega arith) (omega arith)

abbrev loopback : Bytes
loopback = 1 ∷ 127 ∷ 0 ∷ 0 ∷ 1 ∷ 0 ∷ 80 ∷ 9 ∷ []

read_addr-split_addr_example : Agrees (split_addr loopback) (read_addr loopback) loopback
read_addr-split_addr_example = read_addr-split_addr loopback

abbrev two_lines : Bytes
two_lines = b'a' ∷ b'\r' ∷ b'\n' ∷ b'\r' ∷ b'\n' ∷ []

found : find_string two_lines crlf 0 ≡ some 1
unfolding find_string find_rounds starts_with
found = refl

find_string-IsFirst_example : IsFirst two_lines crlf 0 3 (find_string two_lines crlf 0)
find_string-IsFirst_example = find_string-IsFirst two_lines crlf 0

abbrev plain_texts : Texts
plain_texts = record {
  ip_string = λ b. b;
  itoa = λ n. n / 256 ∷ n % 256 ∷ [];
  join_host_port = λ host port. host ++ (b':' ∷ port);
  split_host_port = λ s. some (s, []);
  parse_ip = λ s. none;
  parse_port = λ s. some 80;
}

handshake-write_common_example :
    (message addr : Bytes) × (write_common plain_net to_example ≡ ret (done message))
    × (handshake plain_texts false [] true true (client_hello 0 ++ (message ++ (7 ∷ [])))
        ≡ ret (done (5 ∷ 0 ∷ [], to_connect addr succeeded), 7 ∷ []))
    × (addr_text plain_texts addr ≡ ret (b'a' ∷ b'.' ∷ b'b' ∷ b':' ∷ 1 ∷ 187 ∷ []))
handshake-write_common_example =
    handshake-write_common plain_net plain_texts (λ b. refl) 0 false [] (7 ∷ []) to_example
      plain_net-IsNet (is_domain (b'a' ∷ b'.' ∷ b'b' ∷ []) (omega arith)) refl (omega arith)
