-- ===== src/Tests/Packets.antt =====
-- gotun2socks/packet and packTCP on concrete packets.
use go_game_proxy.Prelude.{
  length-replicate, ℕ, ◌-◌, ◌≡◌, refl, inr, true, none, [], ◌∷◌, ◌++◌, Bytes, replicate, arith,
}
use go_game_proxy.Prelude.Bytes.{joined}
use go_game_proxy.Packet.Wire.{ret}
use go_game_proxy.Packet.Wire.Ends.{Ends, Ends-ret}
use go_game_proxy.Packet.Checksum.{checksum}
use go_game_proxy.Packet.Checksum.Laws.{word_sum, ones_sum, checksum-ones_sum}
use go_game_proxy.Packet.Ip4.{Ip4, new_ip4, parse_ip4, serialize_ip4, protocol_tcp}
use go_game_proxy.Packet.Ip4.Written.{
  IsPlain as IsPlainIp, header_with, header_sum, sized, serialize_ip4-header_with,
}
use go_game_proxy.Packet.Ip4.RoundTrip.{received, parse_ip4-header_with}
use go_game_proxy.Packet.Ip4.Ends.{Ends-parse_ip4}
use go_game_proxy.Packet.Tcp.{Tcp, Names, new_tcp, parse_tcp}
use go_game_proxy.Packet.Tcp.Written.{IsPlain as IsPlainTcp, segment_with}
use go_game_proxy.Packet.Tcp.RoundTrip.{received as received_tcp, parse_tcp-segment_with}
use go_game_proxy.Packet.Tcp.Ends.{Ends-parse_tcp}
use go_game_proxy.Packet.Udp.{Udp, new_udp, parse_udp}
use go_game_proxy.Packet.Udp.RoundTrip.{datagram_with, parse_udp-datagram_with}
use go_game_proxy.Tun.Pack.{mtu, pack_tcp}
use go_game_proxy.Tun.Pack.Laws.{IsSendable, sent, pack_tcp-wire_of}

abbrev pub sample_ip : Ip4
sample_ip = record new_ip4 {
  version = 4;
  id = 7;
  ttl = 64;
  protocol = protocol_tcp;
  src_ip = 93 ∷ 184 ∷ 216 ∷ 34 ∷ [];
  dst_ip = 10 ∷ 0 ∷ 0 ∷ 2 ∷ [];
}

pub sample_ip-IsPlain : IsPlainIp sample_ip
sample_ip-IsPlain = ground arith

abbrev pub sample_tcp : Tcp
sample_tcp = record new_tcp {
  src_port = 443;
  dst_port = 50000;
  seq = 1;
  ack = 1001;
  ack_flag = true;
  psh = true;
  window = 65535;
  payload = 104 ∷ 105 ∷ 33 ∷ [];
}

pub sample_tcp-IsPlain : IsPlainTcp sample_tcp
sample_tcp-IsPlain = ground arith

sample-IsSendable : IsSendable sample_ip sample_tcp
sample-IsSendable = record {
  ip_plain = sample_ip-IsPlain;
  tcp_plain = sample_tcp-IsPlain;
  payload_bytes = omega arith;
  fits = omega arith;
}

-- The buffer of the pool, full of an old packet.
abbrev old_buffer : Bytes
old_buffer = replicate mtu 255

pack_tcp-wire_of_example :
    pack_tcp sample_ip sample_tcp old_buffer ≡ ret (sent sample_ip sample_tcp sample-IsSendable)
pack_tcp-wire_of_example =
    pack_tcp-wire_of sample_ip sample_tcp sample-IsSendable old_buffer
      (length-replicate {A = ℕ} mtu 255)

parse_ip4-header_with_example :
    parse_ip4
      (record { elems = header_with sample_ip 23 99 ++ (1 ∷ 2 ∷ 3 ∷ []); spare = [] })
      new_ip4
    ≡ ret (received sample_ip 23 99 (1 ∷ 2 ∷ 3 ∷ []) [], none)
parse_ip4-header_with_example =
    parse_ip4-header_with sample_ip 23 99 (1 ∷ 2 ∷ 3 ∷ []) [] sample_ip-IsPlain (omega arith)
      (omega arith) (omega arith)

serialize_ip4-header_with_example :
    serialize_ip4 sample_ip (replicate 20 255) 3
    ≡ ret (
      header_with sample_ip 23 (header_sum sample_ip 23),
      record (sized sample_ip 3) { checksum_field = header_sum sample_ip 23 },
      none,
    )
serialize_ip4-header_with_example =
    serialize_ip4-header_with sample_ip (replicate 20 255) 3 sample_ip-IsPlain refl

checksum-ones_sum_example :
    checksum ((1 ∷ 2 ∷ []) ∷ (3 ∷ []) ∷ [])
    ≡ ret (65535 - ones_sum (word_sum (joined ((1 ∷ 2 ∷ []) ∷ (3 ∷ []) ∷ []))))
checksum-ones_sum_example =
    checksum-ones_sum ((1 ∷ 2 ∷ []) ∷ (3 ∷ []) ∷ []) (refl, tt) (omega arith)

Ends-parse_ip4_example : Ends (parse_ip4 (record { elems = 70 ∷ 0 ∷ []; spare = [] }) new_ip4)
Ends-parse_ip4_example = Ends-parse_ip4 (record { elems = 70 ∷ 0 ∷ []; spare = [] }) new_ip4

abbrev no_names : Names
no_names = record { tls_hostname = λ _. ret none; trim_space = λ bytes. bytes }

Ends-parse_tcp_example :
    Ends (parse_tcp no_names (record { elems = segment_with sample_tcp 5; spare = [] }) new_tcp)
Ends-parse_tcp_example =
    Ends-parse_tcp no_names (record { elems = segment_with sample_tcp 5; spare = [] }) new_tcp
      (λ bytes. Ends-ret none)

parse_tcp-segment_with_example :
    parse_tcp no_names
      (record { elems = segment_with sample_tcp 5 ++ (1 ∷ 2 ∷ []); spare = [] })
      new_tcp
    ≡ ret (received_tcp sample_tcp 5 (1 ∷ 2 ∷ []) [], none)
parse_tcp-segment_with_example =
    parse_tcp-segment_with no_names sample_tcp 5 (1 ∷ 2 ∷ []) [] [] sample_tcp-IsPlain (omega arith)
      (inr (inr ((λ e. absurd (omega arith)), (λ e. absurd (omega arith)), refl)))

abbrev sample_udp : Udp
sample_udp = record new_udp { src_port = 53; dst_port = 40000; payload = 1 ∷ 2 ∷ [] }

parse_udp-datagram_with_example :
    parse_udp
      (record { elems = datagram_with sample_udp 10 77 ++ (1 ∷ 2 ∷ []); spare = [] })
      new_udp
    ≡ ret (record sample_udp { udp_length = 10; checksum_field = 77; payload = 1 ∷ 2 ∷ [] }, none)
parse_udp-datagram_with_example =
    parse_udp-datagram_with sample_udp 10 77 (1 ∷ 2 ∷ []) [] (omega arith) (omega arith)
      (omega arith)
