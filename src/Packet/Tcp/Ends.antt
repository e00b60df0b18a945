-- ===== src/Packet/Tcp/Ends.antt =====
-- The option loop of the TCP parser ends, and what it may panic on.
use go_game_proxy.Prelude.{
  ℕ, zero, suc, ◌+◌, ◌*◌, ◌<◌, ◌≡◌, ap, ◌∙◌, length, arith, ◌==◌, ltb, Bytes, Option, none,
}
use go_game_proxy.Packet.Http.{get_hostname_plain, find_string, host_header, crlf}
use go_game_proxy.Packet.Wire.{ret, Slice, slice_from, index, slice, uint16_at, uint32_at, Error}
use go_game_proxy.Packet.Wire.{cut}
use go_game_proxy.Packet.Wire.Ends.{
  Ends, Ends-ret, Ends-panic, Ends-or_panic, Ends-bind, Ends-if, Ends-slice, Ends-slice_from,
  Ends-uint16_at, Ends-uint32_at, Ends-cut_bytes, Ends-elim, slice_from-length,
}
use go_game_proxy.Packet.Tcp.{
  Tcp, Names, parse_fixed, find_hostname, parse_option, parse_options, parse_variable, parse_tcp,
}

-- An option without an error takes at least one byte.
parse_option-pos :
    (rest : Slice) (tcp : Tcp) {l : ℕ} {tcp' : Tcp}
    → parse_option rest tcp ≡ ret (l, tcp', none)
    → 0 < l
unfolding parse_option
parse_option-pos rest tcp h = ground arith

option_pos :
    (rest : Slice) (tcp : Tcp) {r : ℕ × Tcp × Option Error}
    → parse_option rest tcp ≡ ret r
    → r.2 ≡ none
    → 0 < r.0
option_pos rest tcp {r} eq clear =
    parse_option-pos rest tcp (eq ∙ ap ret (λ i. (r.0, r.1, clear i)))

Ends-parse_option : (rest : Slice) (tcp : Tcp) → Ends (parse_option rest tcp)
unfolding parse_option
Ends-parse_option rest tcp = Ends-bind (index rest 0) _ (Ends-or_panic _) λ t _.
    Ends-if (t == 0) _ _
      (λ _. Ends-bind (slice_from rest 1) _ (Ends-slice_from rest 1) (λ _ _. Ends-ret _))
      λ _.
        Ends-if (t == 1) _ _ (λ _. Ends-ret _)
          λ _. Ends-bind (index rest 1) _ (Ends-or_panic _) λ l _.
            Ends-if (ltb l 2) _ _ (λ _. Ends-ret _)
              λ _.
                Ends-if (ltb (length rest.elems) l) _ _ (λ _. Ends-ret _)
                  λ _. Ends-bind (slice rest 2 l) _ (Ends-slice rest 2 l) (λ _ _. Ends-ret _)

Ends-parse_options :
    (fuel : ℕ) (rest : Slice) (tcp : Tcp)
    → length rest.elems < fuel
    → Ends (parse_options fuel rest tcp)
unfolding parse_options
Ends-parse_options zero rest tcp h = absurd (omega arith)
Ends-parse_options (suc fuel) rest tcp h =
    Ends-if (length rest.elems == 0) _ _ (λ _. Ends-ret _)
      λ _. Ends-bind (parse_option rest tcp) _ (Ends-parse_option rest tcp) λ r eq.
        Ends-elim r.2 _ _
          (λ clear. Ends-bind (slice_from rest r.0) _ (Ends-slice_from rest r.0) λ rest' e.
            Ends-parse_options fuel rest' r.1
              (omega (arith, option_pos rest tcp eq clear, slice_from-length rest r.0 e)))
          λ _ _. Ends-ret _

Ends-get_hostname_plain :
    (trim : Bytes → Bytes) (bytes : Bytes) → Ends (get_hostname_plain trim bytes)
unfolding get_hostname_plain
Ends-get_hostname_plain trim bytes =
    Ends-if (ltb (length bytes) 7) _ _ (λ _. Ends-ret _)
      λ _.
        Ends-elim (find_string bytes host_header 0) _ _ (λ _. Ends-ret _)
          λ start _.
            Ends-elim (find_string bytes crlf (start + length host_header)) _ _ (λ _. Ends-panic)
              λ end _.
                Ends-bind (cut bytes (start + length host_header) end) _
                  (Ends-cut_bytes bytes (start + length host_header) end) λ _ _. Ends-ret _

-- The search for a TLS host name always ends.
abbrev pub TlsEnds : Names → Type 0
TlsEnds names = (bytes : Bytes) → Ends (names.tls_hostname bytes)

Ends-find_hostname : (names : Names) (tcp : Tcp) → TlsEnds names → Ends (find_hostname names tcp)
unfolding find_hostname
Ends-find_hostname names tcp h =
    Ends-if (tcp.dst_port == 443) _ _
      (λ _. Ends-bind (names.tls_hostname tcp.payload) _ (h tcp.payload) (λ _ _. Ends-ret _))
      λ _.
        Ends-if (tcp.dst_port == 80) _ _
          (λ _.
            Ends-bind (get_hostname_plain names.trim_space tcp.payload) _
              (Ends-get_hostname_plain _ _) (λ _ _. Ends-ret _))
          λ _. Ends-ret _

Ends-parse_fixed : (pkt : Slice) (tcp : Tcp) → Ends (parse_fixed pkt tcp)
unfolding parse_fixed
Ends-parse_fixed pkt tcp = Ends-bind (uint16_at pkt 0) _ (Ends-uint16_at pkt 0) λ _ _.
    Ends-bind (uint16_at pkt 2) _ (Ends-uint16_at pkt 2) λ _ _.
      Ends-bind (uint32_at pkt 4) _ (Ends-uint32_at pkt 4) λ _ _.
        Ends-bind (uint32_at pkt 8) _ (Ends-uint32_at pkt 8) λ _ _.
          Ends-bind (index pkt 12) _ (Ends-or_panic _) λ _ _.
            Ends-bind (index pkt 13) _ (Ends-or_panic _) λ _ _.
              Ends-bind (uint16_at pkt 14) _ (Ends-uint16_at pkt 14) λ _ _.
                Ends-bind (uint16_at pkt 16) _ (Ends-uint16_at pkt 16)
                  λ _ _. Ends-bind (uint16_at pkt 18) _ (Ends-uint16_at pkt 18) λ _ _. Ends-ret _

Ends-parse_variable :
    (names : Names) (pkt : Slice) (tcp : Tcp) → TlsEnds names → Ends (parse_variable names pkt tcp)
unfolding parse_variable
Ends-parse_variable names pkt tcp h =
    Ends-bind (slice_from pkt (tcp.data_offset * 4)) _ (Ends-slice_from pkt (tcp.data_offset * 4))
      λ payload _.
        Ends-bind (find_hostname names (record tcp { payload = payload.elems })) _
          (Ends-find_hostname names _ h)
          λ named _.
            Ends-bind (slice pkt 20 (tcp.data_offset * 4)) _
              (Ends-slice pkt 20 (tcp.data_offset * 4))
              λ rest _. Ends-parse_options (suc (length rest.elems)) rest named (omega arith)

-- If the search for a TLS host name ends on every payload, the parser ends on every buffer.
pub Ends-parse_tcp :
    (names : Names) (pkt : Slice) (tcp : Tcp) → TlsEnds names → Ends (parse_tcp names pkt tcp)
unfolding parse_tcp
Ends-parse_tcp names pkt tcp h =
    Ends-if (ltb (length pkt.elems) 20) _ _ (λ _. Ends-ret _)
      λ _. Ends-bind (parse_fixed pkt tcp) _ (Ends-parse_fixed pkt tcp) λ tcp' _.
        Ends-if (ltb tcp'.data_offset 5) _ _ (λ _. Ends-ret _)
          λ _.
            Ends-if (ltb (tcp'.data_offset * 4) 20) _ _ (λ _. Ends-ret _)
              λ _.
                Ends-if (ltb (length pkt.elems) (tcp'.data_offset * 4)) _ _ (λ _. Ends-ret _)
                  λ _. Ends-parse_variable names pkt tcp' h
