-- ===== src/Shadow/Handshake/Agreement.antt =====
-- A client of gosocks in front of the handshake of shadowsocks.
use go_game_proxy.Prelude.{
  some, ℕ, ◌+◌, ◌*◌, ◌/◌, ◌≤◌, ◌<◌, ◌≡◌, refl, sym, ap, ◌∙◌, Bool, true, false, [], ◌∷◌, ◌++◌,
  Bytes, ltb, length, u8, get_elem?, append_assoc, length-append, arith,
}
use go_game_proxy.Packet.Wire.{ret}
use go_game_proxy.Socks.{
  Net, done, Common, htons, write_common, write_packed, pack_host, or_invalid,
}
use go_game_proxy.Socks.Auth.{client_hello}
use go_game_proxy.Socks.RoundTrip.{IsNet, IsHost, is_ip4, is_ip6, is_domain, read_full-append}
use go_game_proxy.Tun.Pack.Window.{cut_at-append}
use go_game_proxy.Shadow.{read_addr, read_part}
use go_game_proxy.Shadow.Handshake.{
  Texts, addr_text, ip_text, domain_text, port_text, to_connect, succeeded, answer_command,
  read_greeting, read_request, handshake,
}

module _ (net : Net) (texts : Texts)
    (same : (b : Bytes) → texts.ip_string b ≡ net.ip_string b) where
  -- The host in a message: the address that is read of it, and its text.
  abbrev Reads : ℕ → Bytes → ℕ → Bytes → Type 0
  Reads t host port rest =
      (h : Bytes) × (pack_host net t host ≡ done h)
      × (length h ≤ 255)
      × (read_addr (t ∷ ((h ++ htons port) ++ rest)) ≡ ret (done (t ∷ (h ++ htons port)), rest))
      × (addr_text texts (t ∷ (h ++ htons port))
          ≡ ret (texts.join_host_port host (texts.itoa port)))

  read_part-append :
      (before part rest : Bytes) (n : ℕ)
      → length part ≡ n
      → read_part before n (part ++ rest) ≡ ret (done (before ++ part), rest)
  unfolding read_part
  read_part-append before part rest n l = rw (sym l) (rw (read_full-append part rest) refl)

  get_elem?-append :
      (xs ys : Bytes) (y i : ℕ) → i ≡ length xs → get_elem? (xs ++ (y ∷ ys)) i ≡ some y
  get_elem?-append [] ys y i e = rw e refl
  get_elem?-append (x ∷ xs) ys y i e = rw e (get_elem?-append xs ys y (length xs) refl)

  port_value : (port : ℕ) → port < 65536 → u8 (port / 256) * 256 + u8 port ≡ port
  port_value port p = omega (arith, p)

  -- The port behind what stands before it.
  port_text-append :
      (before : Bytes) (i port : ℕ)
      → i ≡ length before
      → port < 65536
      → port_text texts (before ++ htons port) i ≡ ret (texts.itoa port)
  unfolding port_text
  port_text-append before i port e p =
      let hi = get_elem?-append before (u8 port ∷ []) (u8 (port / 256)) i e in
      let lo =
        get_elem?-append (before ++ (u8 (port / 256) ∷ [])) [] (u8 port) (i + 1)
          (omega (arith, e, length-append before (u8 (port / 256) ∷ []))) in
      let at : get_elem? (before ++ htons port) (i + 1) ≡ some (u8 port) =
        ap (λ a. get_elem? a (i + 1))
          (sym (append_assoc before (u8 (port / 256) ∷ []) (u8 port ∷ [])))
        ∙ lo in
      rw hi (rw at (rw (port_value port p) refl))

  ip_text-append :
      (t n port : ℕ) (b : Bytes)
      → length b ≡ n
      → port < 65536
      → ip_text texts (t ∷ (b ++ htons port)) n
        ≡ ret (texts.join_host_port (net.ip_string b) (texts.itoa port))
  unfolding ip_text
  ip_text-append t n port b l p =
      rw (cut_at-append 1 (1 + n) (t ∷ []) b (htons port) refl (omega (arith, l)))
        (rw (port_text-append (t ∷ b) (1 + n) port (omega (arith, l)) p) (rw (same b) refl))

  ip_host-Reads :
      (t n port : ℕ) (b rest : Bytes)
      → length b ≡ n
      → read_part (t ∷ []) (n + 2) ((b ++ htons port) ++ rest)
        ≡ ret (done (t ∷ (b ++ htons port)), rest)
  ip_host-Reads t n port b rest l =
      read_part-append (t ∷ []) (b ++ htons port) rest (n + 2)
        (omega (arith, length-append b (htons port), l))

  -- A name with its length in front, which is that byte.
  domain_text-append :
      (x port : ℕ) (name : Bytes)
      → x ≡ length name
      → port < 65536
      → domain_text texts (3 ∷ x ∷ (name ++ htons port))
        ≡ ret (texts.join_host_port name (texts.itoa port))
  unfolding domain_text
  domain_text-append x port name e p =
      rw (cut_at-append 2 (2 + x) (3 ∷ x ∷ []) name (htons port) refl (omega (arith, e)))
        (rw (port_text-append (3 ∷ x ∷ name) (2 + x) port (omega (arith, e)) p) refl)

  domain-Reads :
      (x port : ℕ) (name rest : Bytes)
      → x ≡ length name
      → read_addr (3 ∷ x ∷ ((name ++ htons port) ++ rest))
        ≡ ret (done (3 ∷ x ∷ (name ++ htons port)), rest)
  unfolding read_addr
  domain-Reads x port name rest e =
      rw (read_full-append (3 ∷ []) (x ∷ ((name ++ htons port) ++ rest))) (
        rw (read_full-append (x ∷ []) ((name ++ htons port) ++ rest)) (
          read_part-append (3 ∷ x ∷ []) (name ++ htons port) rest (x + 2)
            (omega (arith, length-append name (htons port), e))))

  pack_host-Reads :
      (t port : ℕ) (host rest : Bytes)
      → IsNet net
      → port < 65536
      → IsHost net t host
      → Reads t host port rest
  unfolding pack_host or_invalid read_addr addr_text
  pack_host-Reads t port host rest n p (is_ip4 b l) = (
    b,
    rw (n.round4 b l) refl,
    omega (arith, l),
    rw (read_full-append (1 ∷ []) ((b ++ htons port) ++ rest)) (ip_host-Reads 1 4 port b rest l),
    ip_text-append 1 4 port b l p,
  )
  pack_host-Reads t port host rest n p (is_ip6 b l) = (
    b,
    rw (n.round16 b l) refl,
    omega (arith, l),
    rw (read_full-append (4 ∷ []) ((b ++ htons port) ++ rest)) (ip_host-Reads 4 16 port b rest l),
    ip_text-append 4 16 port b l p,
  )
  pack_host-Reads t port host rest n p (is_domain name l) = (
    u8 (length name) ∷ name,
    refl,
    omega (arith, l),
    domain-Reads (u8 (length name)) port name rest (omega (arith, l)),
    domain_text-append (u8 (length name)) port name (omega (arith, l)) p,
  )

  greeted :
      (method : ℕ) (after : Bytes)
      → read_greeting true (client_hello method ++ after) ≡ ret (done (5 ∷ 0 ∷ []), after)
  unfolding read_greeting
  greeted method after =
      rw (read_full-append (5 ∷ 1 ∷ []) (method ∷ after))
        (rw (read_full-append (method ∷ []) after) refl)

  asked :
      (udp_enabled : Bool) (local after addr rest : Bytes)
      → read_addr after ≡ ret (done addr, rest)
      → read_request texts udp_enabled local true (5 ∷ 1 ∷ 0 ∷ after)
        ≡ ret (done (to_connect addr succeeded), rest)
  unfolding read_request answer_command
  asked udp_enabled local after addr rest e =
      rw (read_full-append (5 ∷ 1 ∷ 0 ∷ []) after) (rw e refl)

  -- The hello of a client that offers one method is answered, its request to connect is read with
  -- nothing left of it and answered as one that succeeded, and the text of the address is that of
  -- the host and the port that the client named.
  pub handshake-write_common :
      (method : ℕ) (udp_enabled : Bool) (local rest : Bytes) (d : Common)
      → IsNet net
      → IsHost net d.host_type d.host
      → d.flag ≡ 1
      → d.port < 65536
      → (message addr : Bytes) × (write_common net d ≡ ret (done message))
        × (handshake texts udp_enabled local true true (client_hello method ++ (message ++ rest))
            ≡ ret (done (5 ∷ 0 ∷ [], to_connect addr succeeded), rest))
        × (addr_text texts addr ≡ ret (texts.join_host_port d.host (texts.itoa d.port)))
  unfolding write_common write_packed handshake
  handshake-write_common method udp_enabled local rest d n v f p =
      let (h, packed, small, reads, text) = pack_host-Reads d.host_type d.port d.host rest n p v in
      let fits : ltb 512 (4 + length h + 2) ≡ false = ground (arith, small) in
      (
        5 ∷ 1 ∷ 0 ∷ d.host_type ∷ (h ++ htons d.port),
        d.host_type ∷ (h ++ htons d.port),
        rw (packed, fits, f) refl,
        rw (greeted method (5 ∷ 1 ∷ 0 ∷ d.host_type ∷ ((h ++ htons d.port) ++ rest))) (
            rw
              (asked udp_enabled local (d.host_type ∷ ((h ++ htons d.port) ++ rest))
                (d.host_type ∷ (h ++ htons d.port)) rest reads)
              refl),
        text,
      )
