-- ===== src/Tests/Datagrams.antt =====
-- gotun2socks/tun2socks: answers, fragments and the cache, on concrete packets.
use go_game_proxy.Prelude.{
  ℕ, zero, suc, ◌<◌, ◌≡◌, refl, ◌⊎◌, Option, none, some, List, [], ◌∷◌, ◌++◌, Bytes, length, take,
  replicate, length-replicate, All, arith,
}
use go_game_proxy.Packet.Checksum.Laws.{IsByte}
use go_game_proxy.Packet.Ip4.{Ip4, new_ip4}
use go_game_proxy.Packet.Wire.{ret}
use go_game_proxy.Tun.Datagram.{response_packet}
use go_game_proxy.Tun.Datagram.Delivered.{IsAnswer, answer_packet, response_packet-delivers}
use go_game_proxy.Tun.Dns.{Msg}
use go_game_proxy.Tun.Dns.History.{Call, asked, answered, run_cache}
use go_game_proxy.Tun.Dns.History.Responses.{told_all, run_cache-history}
use go_game_proxy.Tun.Fragments.{IpPacket, gen_fragments}
use go_game_proxy.Tun.Fragments.Written.{IsSource, AreFragments, payloads, gen_fragments-delivers}
use go_game_proxy.Tun.Pack.{mtu}

abbrev pub client : Bytes
client = 10 ∷ 0 ∷ 0 ∷ 2 ∷ []

abbrev pub server : Bytes
server = 8 ∷ 8 ∷ 8 ∷ 8 ∷ []

abbrev first_header : Ip4
first_header = record new_ip4 {
  version = 4;
  id = 7;
  ttl = 64;
  protocol = 17;
  src_ip = server;
  dst_ip = client;
}

first_header-IsSource : IsSource first_header
first_header-IsSource = record {
  id_fits = omega arith;
  ttl_fits = omega arith;
  protocol_fits = omega arith;
  src_ip_length = refl;
  dst_ip_length = refl;
  src_ip_bytes = omega arith;
  dst_ip_bytes = omega arith;
}

abbrev pub blank_pool : ℕ → Bytes
blank_pool i = replicate mtu i

pub blank_pool-full : (i : ℕ) → length (blank_pool i) ≡ mtu
blank_pool-full i = length-replicate mtu i

-- Bytes that do not fit one fragment.
abbrev long_body : Bytes
long_body = replicate 15000 7

length-long_body : length long_body ≡ 15000
length-long_body = length-replicate {A = ℕ} 15000 7

gen_fragments-delivers_example :
    (pkts : List IpPacket) × (gen_fragments 15001 first_header blank_pool 1872 long_body ≡ ret pkts)
    × (payloads pkts ≡ long_body)
    × AreFragments first_header 1872 pkts
gen_fragments-delivers_example =
    gen_fragments-delivers first_header first_header-IsSource blank_pool blank_pool-full 15001 1872
      long_body (omega (arith, length-long_body)) (omega (arith, length-long_body))

replicate-IsByte : (n b : ℕ) → b < 256 → All IsByte (replicate n b)
replicate-IsByte zero b h = tt
replicate-IsByte (suc n) b h = (h, replicate-IsByte n b h)

long_body-IsAnswer : IsAnswer 7 client server 4000 53 long_body
long_body-IsAnswer = record {
  id_fits = omega arith;
  local_length = refl;
  remote_length = refl;
  local_bytes = omega arith;
  remote_bytes = omega arith;
  l_port_fits = omega arith;
  r_port_fits = omega arith;
  payload_bytes = replicate-IsByte 15000 7 (omega arith);
  fits = omega (arith, length-long_body);
}

response_packet-delivers_example :
    (frags : List IpPacket) × (response_packet 7 client server 4000 53 long_body
        (replicate mtu 1)
        blank_pool
      ≡ ret (answer_packet 7 client server 4000 53 long_body long_body-IsAnswer, frags))
    × (take 14972 long_body ++ payloads frags ≡ long_body)
    × ((frags ≡ [])
        ⊎ AreFragments
            (answer_packet 7 client server 4000 53 long_body long_body-IsAnswer).ip
            1872
            frags)
response_packet-delivers_example =
    response_packet-delivers 7 client server 4000 53 long_body long_body-IsAnswer (replicate mtu 1)
      (length-replicate {A = ℕ} mtu 1) blank_pool blank_pool-full

-- Messages of four bytes and a name: identification, code, time to live, type.
abbrev pub unpack_plain : Bytes → Option (Msg Bytes)
unpack_plain (id ∷ code ∷ ttl ∷ qtype ∷ name) = some (record {
  id = id;
  rcode = code;
  question = record { name = name; qtype = qtype } ∷ [];
  answer_ttls = ttl ∷ [];
  rest = name;
})
unpack_plain (a ∷ b ∷ c ∷ []) = none
unpack_plain (a ∷ b ∷ []) = none
unpack_plain (a ∷ []) = none
unpack_plain [] = none

-- Asked, answered for two seconds, asked again, and once more when that is over.
abbrev calls : List Call
calls =
    asked (1 ∷ 0 ∷ 0 ∷ 1 ∷ b'x' ∷ []) 10
    ∷ answered (1 ∷ 0 ∷ 2 ∷ 1 ∷ b'x' ∷ []) 20
    ∷ asked (5 ∷ 0 ∷ 0 ∷ 1 ∷ b'x' ∷ []) 2000000020
    ∷ asked (6 ∷ 0 ∷ 0 ∷ 1 ∷ b'x' ∷ []) 2000000021
    ∷ []

run_cache-history_example :
    run_cache unpack_plain (λ k. none) calls ≡ told_all unpack_plain [] calls
run_cache-history_example = run_cache-history unpack_plain calls 0 (omega arith)
