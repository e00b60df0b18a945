-- ===== src/Packet/Tcp/RoundTrip.antt =====
-- The parser of the TCP header on what the serializer writes.
use go_game_proxy.Prelude.{
  ℕ, ◌<◌, ◌≡◌, ◌≢◌, ◌⊎◌, inl, inr, refl, ap, Option, none, some, [], ◌++◌, Bytes, ◌==◌, ==_iff,
  true, false, arith,
}
use go_game_proxy.Packet.Wire.{ret}
use go_game_proxy.Packet.Tcp.{
  Tcp, Names, new_tcp, parse_fixed, parse_variable, parse_options, parse_tcp, find_hostname,
  keep_hostname,
}
use go_game_proxy.Packet.Http.{get_hostname_plain}
use go_game_proxy.Packet.Tcp.Flags.{low_flags_test, ns_test, value_ns-le}
use go_game_proxy.Packet.Tcp.Written.{IsPlain, segment_with}

-- The header that is read back: the fields of `t`, with the data offset, the checksum and the
-- payload of the packet.
abbrev pub received : Tcp → ℕ → Bytes → Bytes → Tcp
received t sum body name = record t {
  data_offset = 5;
  checksum_field = sum;
  options = [];
  padding = [];
  payload = body;
  hostname = name;
  header_len = 20;
}

abbrev before_payload : Tcp → ℕ → Tcp
before_payload t sum = record (received t sum [] []) { header_len = 0 }

parse_fixed-plain :
    (t : Tcp) (sum : ℕ) (body spare : Bytes)
    → IsPlain t
    → sum < 65536
    → parse_fixed (record { elems = segment_with t sum ++ body; spare = spare }) new_tcp
      ≡ ret (before_payload t sum)
unfolding parse_fixed
parse_fixed-plain t sum body spare p hs =
    let (e0, e1, e2, e3, e4, e5, e6, e7) = low_flags_test t in
    rw (e0, e1, e2, e3, e4, e5, e6, e7, ns_test t 5)
      (ground (
        arith,
        p.src_port_fits,
        p.dst_port_fits,
        p.seq_fits,
        p.ack_fits,
        p.window_fits,
        p.urgent_fits,
        value_ns-le t,
      ))

abbrev pub or_empty : Option Bytes → Bytes
or_empty none = []
or_empty (some host) = host

-- The host name that is found in the payload `body` of a segment for this port: with port 443 that
-- of TLS, with port 80 that of plain HTTP, empty where the search fails and for other ports.
abbrev pub IsHostOf : Names → ℕ → Bytes → Bytes → Type 0
IsHostOf names port body host =
    ((port ≡ 443) × (o : Option Bytes) × (names.tls_hostname body ≡ ret o) × (host ≡ or_empty o))
    ⊎ ((port ≡ 80)
        × (o : Option Bytes) × (get_hostname_plain names.trim_space body ≡ ret o)
        × (host ≡ or_empty o))
    ⊎ ((port ≢ 443) × (port ≢ 80) × (host ≡ []))

keep_hostname-or_empty :
    (t : Tcp) (sum : ℕ) (body : Bytes) (o : Option Bytes)
    → keep_hostname (record (before_payload t sum) { payload = body }) o
      ≡ record (received t sum body (or_empty o)) { header_len = 0 }
keep_hostname-or_empty t sum body none = refl
keep_hostname-or_empty t sum body (some host) = refl

find_hostname-IsHostOf :
    (names : Names) (t : Tcp) (sum : ℕ) (body host : Bytes)
    → IsHostOf names t.dst_port body host
    → find_hostname names (record (before_payload t sum) { payload = body })
      ≡ ret (record (received t sum body host) { header_len = 0 })
unfolding find_hostname
find_hostname-IsHostOf names t sum body host (inl (p, o, f, h)) =
    let c : (t.dst_port == 443) ≡ true = (==_iff t.dst_port 443).1 p in
    rw (c, f, h) (ap ret (keep_hostname-or_empty t sum body o))
find_hostname-IsHostOf names t sum body host (inr (inl (p, o, f, h))) =
    let c : (t.dst_port == 443) ≡ false = ground (arith, p) in
    let d : (t.dst_port == 80) ≡ true = (==_iff t.dst_port 80).1 p in
    rw (c, d, f, h) (ap ret (keep_hostname-or_empty t sum body o))
find_hostname-IsHostOf names t sum body host (inr (inr (p, q, h))) =
    let c : (t.dst_port == 443) ≡ false = ground (arith, p) in
    let d : (t.dst_port == 80) ≡ false = ground (arith, q) in rw (c, d, h) refl

parse_variable-plain :
    (names : Names) (t : Tcp) (sum : ℕ) (body spare host : Bytes)
    → IsHostOf names t.dst_port body host
    → parse_variable names
        (record { elems = segment_with t sum ++ body; spare = spare })
        (before_payload t sum)
      ≡ ret (received t sum body host, none)
unfolding parse_variable parse_options
parse_variable-plain names t sum body spare host h =
    rw (find_hostname-IsHostOf names t sum body host h) refl

-- A segment without options, for any port and with any payload, is read back as it was written, with
-- all bytes behind the header for its payload and no error, if the search for the host name that
-- its port asks for returns. Its host name is the one that this search finds, or empty.
pub parse_tcp-segment_with :
    (names : Names) (t : Tcp) (sum : ℕ) (body spare host : Bytes)
    → IsPlain t
    → sum < 65536
    → IsHostOf names t.dst_port body host
    → parse_tcp names (record { elems = segment_with t sum ++ body; spare = spare }) new_tcp
      ≡ ret (received t sum body host, none)
unfolding parse_tcp
parse_tcp-segment_with names t sum body spare host p s h =
    rw (parse_fixed-plain t sum body spare p s)
      (rw (parse_variable-plain names t sum body spare host h) (ground arith))
