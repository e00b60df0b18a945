-- ===== src/Kcp/Service/Halves.antt =====
-- What the halves make of a SOCKS request of gosocks.
use go_game_proxy.Prelude.{
  ℕ, suc, ◌/◌, ◌+◌, ◌-◌, ◌*◌, ◌≤◌, ◌<◌, ◌≡◌, refl, ◌∙◌, ap, true, false, some, [], ◌∷◌, ◌++◌, Bytes,
  ltb, u8, length, get_elem?, length-append, arith, for_length, All,
}
use go_game_proxy.Packet.Wire.{ret}
use go_game_proxy.Socks.{
  Net, Common, done, htons, write_common, write_packed, pack_host, or_invalid,
}
use go_game_proxy.Socks.RoundTrip.{IsNet, IsHost, is_ip4, is_ip6, is_domain}
use go_game_proxy.Tun.Pack.Window.{cut_at-append}
use go_game_proxy.Kcp.Little.{Cipher, encrypt, decrypt, new_cipher, IsPassword, decrypt-encrypt}
use go_game_proxy.Kcp.Service.{
  Text, to5_connect, request_host, parse_socks5_request, client_side, handshake_socks, parse_socks,
}

get_elem?-append : (xs ys : Bytes) (i : ℕ) → get_elem? (xs ++ ys) (length xs + i) ≡ get_elem? ys i
get_elem?-append [] ys i = ap (get_elem? ys) (let q : 0 + i ≡ i = omega arith in q)
get_elem?-append (x ∷ xs) ys i =
    ap (get_elem? (x ∷ (xs ++ ys)))
      (let q : suc (length xs) + i ≡ suc (length xs + i) = omega arith in q)
    ∙ get_elem?-append xs ys i

-- The two bytes of a port at the end of a message.
port_at_end :
    (front : Bytes) (port i : ℕ)
    → i ≤ 2
    → get_elem? (front ++ htons port) (length (front ++ htons port) - (2 - i))
      ≡ get_elem? (htons port) i
port_at_end front port i h =
    ap (get_elem? (front ++ htons port)) (
      let q : length (front ++ htons port) - (2 - i) ≡ length front + i =
        omega (arith, length-append front (htons port), h) in
      q)
    ∙ get_elem?-append front (htons port) i

module _ (net : Net) (itoa : ℕ → Bytes) where
  abbrev pub text_of : Text
  text_of = record { ip_string = net.ip_string; itoa = itoa }

  -- A request to connect, once its host has been cut out of it.
  parse_at :
      (t port : ℕ) (h host : Bytes)
      → port < 65536
      → request_host text_of t (5 ∷ 1 ∷ 0 ∷ t ∷ (h ++ htons port)) ≡ ret host
      → parse_socks5_request text_of (5 ∷ 1 ∷ 0 ∷ t ∷ (h ++ htons port))
        ≡ ret (to5_connect host (itoa port), true)
  unfolding parse_socks5_request
  parse_at t port h host p e =
      let front = 5 ∷ 1 ∷ 0 ∷ t ∷ h in
      let value : u8 (port / 256) * 256 + u8 port ≡ port = omega (arith, p) in
      rw (e, port_at_end front port 0 (omega arith), port_at_end front port 1 (omega arith))
        (rw value refl)

  domain_at :
      (port x : ℕ) (name : Bytes)
      → request_host text_of 3 (5 ∷ 1 ∷ 0 ∷ 3 ∷ ((x ∷ name) ++ htons port)) ≡ ret name
  unfolding request_host
  domain_at port x name =
      rw
        (cut_at-append 5 (length (5 ∷ 1 ∷ 0 ∷ 3 ∷ x ∷ (name ++ htons port)) - 2)
          (5 ∷ 1 ∷ 0 ∷ 3 ∷ x ∷ []) name (htons port) refl
          (omega (arith, length-append name (htons port))))
        refl

  ip4_at :
      (port : ℕ) (b : Bytes)
      → length b ≡ 4
      → request_host text_of 1 (5 ∷ 1 ∷ 0 ∷ 1 ∷ (b ++ htons port)) ≡ ret (net.ip_string b)
  unfolding request_host
  ip4_at port b l =
      for_length 4
        (λ a. request_host text_of 1 (5 ∷ 1 ∷ 0 ∷ 1 ∷ (a ++ htons port)) ≡ ret (net.ip_string a))
        (λ b0 b1 b2 b3. refl) b l

  ip6_at :
      (port : ℕ) (b : Bytes)
      → length b ≡ 16
      → request_host text_of 4 (5 ∷ 1 ∷ 0 ∷ 4 ∷ (b ++ htons port)) ≡ ret (net.ip_string b)
  unfolding request_host
  ip6_at port b l =
      for_length 16
        (λ a. request_host text_of 4 (5 ∷ 1 ∷ 0 ∷ 4 ∷ (a ++ htons port)) ≡ ret (net.ip_string a))
        (λ b0 b1 b2 b3 b4 b5 b6 b7 b8 b9 b10 b11 b12 b13 b14 b15. refl) b l

  -- The message of a request to connect, and its host as this parser cuts it out.
  abbrev Cut : ℕ → Bytes → ℕ → Type 0
  Cut t host port =
      (h : Bytes) × (pack_host net t host ≡ done h)
      × (length h ≤ 255)
      × (request_host text_of t (5 ∷ 1 ∷ 0 ∷ t ∷ (h ++ htons port)) ≡ ret host)

  pack_host-Cut : (t port : ℕ) (host : Bytes) → IsNet net → IsHost net t host → Cut t host port
  unfolding pack_host or_invalid
  pack_host-Cut t port host n (is_ip4 b l) =
      (b, rw (n.round4 b l) refl, omega (arith, l), ip4_at port b l)
  pack_host-Cut t port host n (is_ip6 b l) =
      (b, rw (n.round16 b l) refl, omega (arith, l), ip6_at port b l)
  pack_host-Cut t port host n (is_domain name l) =
      (u8 (length name) ∷ name, refl, omega (arith, l), domain_at port (u8 (length name)) name)

  -- A request to connect that gosocks writes is understood by the client half, whatever kind of
  -- host it names: the other half is told that host and that port.
  pub parse_socks5_request-write_common :
      (d : Common)
      → IsNet net
      → IsHost net d.host_type d.host
      → d.flag ≡ 1
      → d.port < 65536
      → (rest : Bytes) × (write_common net d ≡ ret (done (5 ∷ rest)))
        × (parse_socks5_request text_of (5 ∷ rest) ≡ ret (to5_connect d.host (itoa d.port), true))
  unfolding write_common write_packed
  parse_socks5_request-write_common d n v f p =
      let (h, packed, small, cut_out) = pack_host-Cut d.host_type d.port d.host n v in
      let fits : ltb 512 (4 + length h + 2) ≡ false = ground (arith, small) in
      (
        1 ∷ 0 ∷ d.host_type ∷ (h ++ htons d.port),
        rw (packed, fits, f) refl,
        parse_at d.host_type d.port h d.host p cut_out,
      )

  told :
      (c : Cipher) (greeting rest to5 : Bytes)
      → parse_socks5_request text_of (5 ∷ rest) ≡ ret (to5, true)
      → client_side text_of c (some (5 ∷ greeting)) true (some (5 ∷ rest))
        ≡ ret (5 ∷ 0 ∷ [], some (encrypt c to5))
  unfolding client_side handshake_socks parse_socks
  told c greeting rest to5 e = rw e refl

  -- A client of gosocks that greets the client half and asks it for a connection is told to go on,
  -- and the other half decrypts the host and the port that the client named.
  pub client_side-write_common :
      (password greeting : Bytes) (d : Common)
      → IsPassword password
      → All (λ v. v < 256) (to5_connect d.host (itoa d.port))
      → IsNet net
      → IsHost net d.host_type d.host
      → d.flag ≡ 1
      → d.port < 65536
      → (message sent : Bytes) × (write_common net d ≡ ret (done message))
        × (client_side text_of (new_cipher password) (some (5 ∷ greeting)) true (some message)
            ≡ ret (5 ∷ 0 ∷ [], some sent))
        × (decrypt (new_cipher password) sent ≡ to5_connect d.host (itoa d.port))
  client_side-write_common password greeting d q b n v f p =
      let (rest, written, parsed) = parse_socks5_request-write_common d n v f p in
      let to5 = to5_connect d.host (itoa d.port) in
      (
        5 ∷ rest,
        encrypt (new_cipher password) to5,
        written,
        told (new_cipher password) greeting rest to5 parsed,
        decrypt-encrypt password to5 q b,
      )
