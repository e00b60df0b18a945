-- ===== src/Server.antt =====
-- socks/server/Server.go: Socks5Auth and Socks5Connect. The client is the bytes that it has sent,
-- and `fmt.Sprintf` of an address is a parameter.
pub mod Gosocks
use go_game_proxy.Prelude.{
  ℕ, ◌+◌, ◌*◌, Bool, true, false, not, ◌||◌, Option, none, some, [], ◌∷◌, ◌++◌, Bytes, ◌==◌,
  if◌then◌else◌, get_or,
}
use go_game_proxy.Packet.Wire.{Go, ret, ◌>>=◌}
use go_game_proxy.Socks.{
  Failure, end_of_input, unknown_address_type, unsupported_version, invalid_host, too_short, Result,
  done, failed, Reading, then_read, read_full, ntohs,
}

-- `%d.%d.%d.%d` of four bytes, `%s:%d` of a host and a port, and the dialer.
pub record Outside : Type 0 where
  pub dotted : Bytes → Bytes
  pub host_port : Bytes → ℕ → Bytes
  pub dials : Bytes → Bool

-- `Socks5Auth`: the bytes that it writes.
unfoldable pub socks5_auth : Bool → Bytes → Reading Bytes
socks5_auth written bytes = then_read (read_full 2 bytes) (λ h rest.
    if not (get_or h 0 0 == 5)
    then ret (failed (unsupported_version (get_or h 0 0)), rest)
    else then_read (read_full (get_or h 1 0) rest) (λ methods rest2.
      if written then ret (done (5 ∷ 0 ∷ []), rest2) else ret (failed end_of_input, rest2)))

-- The `switch` on the type of the address.
unfoldable pub read_addr_of : Outside → ℕ → Bytes → Reading Bytes
read_addr_of out atyp bytes =
    let ip4 = then_read (read_full 4 bytes) (λ b rest. ret (done (out.dotted b), rest)) in
    let domain = then_read (read_full 1 bytes) (λ b rest. read_full (get_or b 0 0) rest) in
    if atyp == 1
    then ip4
    else if atyp == 3
    then domain
    else ret (failed (unknown_address_type atyp), bytes)

-- The dial, and the reply: where it went and what the client is told.
unfoldable pub dial_to : Outside → Bytes → Bool → Result (Bytes × Bytes)
dial_to out addr written =
    if not (out.dials addr)
    then failed invalid_host
    else if not written
    then failed end_of_input
    else done (addr, 5 ∷ 0 ∷ 0 ∷ 1 ∷ 0 ∷ 0 ∷ 0 ∷ 0 ∷ 0 ∷ 0 ∷ [])

-- `Socks5Connect`
unfoldable pub socks5_connect : Outside → Bool → Bytes → Reading (Bytes × Bytes)
socks5_connect out written bytes = then_read (read_full 4 bytes) (λ h rest.
    if not (get_or h 0 0 == 5) || not (get_or h 1 0 == 1)
    then ret (failed too_short, rest)
    else then_read (read_addr_of out (get_or h 3 0) rest) (λ addr rest2.
      then_read (read_full 2 rest2)
        (λ p rest3. ret (dial_to out (out.host_port addr (ntohs p)) written, rest3))))
