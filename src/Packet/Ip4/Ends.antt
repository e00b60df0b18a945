-- ===== src/Packet/Ip4/Ends.antt =====
-- The option loop of the IPv4 parser ends.
use go_game_proxy.Prelude.{ltb, u8, ℕ, zero, suc, ◌*◌, ◌<◌, ◌≡◌, length, arith, ◌==◌, leb, u8}
use go_game_proxy.Packet.Wire.{ret, Slice, slice_from, index, slice, uint16_at}
use go_game_proxy.Packet.Wire.Ends.{
  Ends, Ends-ret, Ends-or_panic, Ends-bind, Ends-if, Ends-slice, Ends-slice_from, Ends-uint16_at,
  slice_from-length,
}
use go_game_proxy.Packet.Ip4.{
  Ip4, Ip4Option, append_option, parse_option, parse_fixed, parse_variable, parse_options,
  parse_ip4,
}

-- The switch gives an option of at least one byte, if it gives one.
parse_option-pos :
    (rest : Slice) (ip : Ip4) {opt : Ip4Option} {ip' : Ip4}
    → parse_option rest ip ≡ ret (opt, ip')
    → 0 < opt.option_length
unfolding parse_option
parse_option-pos rest ip h = ground arith

Ends-parse_option : (rest : Slice) (ip : Ip4) → Ends (parse_option rest ip)
unfolding parse_option
Ends-parse_option rest ip = Ends-bind (index rest 0) _ (Ends-or_panic _) λ t _.
    Ends-if (t == 0) _ _
      (λ _. Ends-bind (slice_from rest 1) _ (Ends-slice_from rest 1) (λ _ _. Ends-ret _))
      λ _.
        Ends-if (t == 1) _ _ (λ _. Ends-ret _)
          λ _.
            Ends-bind (index rest 1) _ (Ends-or_panic _)
              λ l _. Ends-bind (slice rest 2 l) _ (Ends-slice rest 2 l) (λ _ _. Ends-ret _)

Ends-parse_options :
    (fuel : ℕ) (rest : Slice) (ip : Ip4)
    → length rest.elems < fuel
    → Ends (parse_options fuel rest ip)
unfolding parse_options
Ends-parse_options zero rest ip h = absurd (omega arith)
Ends-parse_options (suc fuel) rest ip h =
    Ends-if (length rest.elems == 0) _ _ (λ _. Ends-ret _)
      λ _. Ends-bind (parse_option rest ip) _ (Ends-parse_option rest ip) λ step eq.
        Ends-if (leb step.0.option_length (length rest.elems)) _ _
          (λ _.
            Ends-bind (slice_from rest step.0.option_length) _ (Ends-slice_from rest _) λ rest' e.
              Ends-parse_options fuel rest' (append_option step.1 step.0) (
                omega (
                  arith,
                  parse_option-pos rest ip eq,
                  slice_from-length rest step.0.option_length e,
                )))
          λ _. Ends-ret _

Ends-parse_fixed : (pkt : Slice) (ip : Ip4) → Ends (parse_fixed pkt ip)
unfolding parse_fixed
Ends-parse_fixed pkt ip = Ends-bind (uint16_at pkt 6) _ (Ends-uint16_at pkt 6) λ _ _.
    Ends-bind (index pkt 0) _ (Ends-or_panic _) λ _ _.
      Ends-bind (index pkt 1) _ (Ends-or_panic _) λ _ _.
        Ends-bind (uint16_at pkt 2) _ (Ends-uint16_at pkt 2) λ _ _.
          Ends-bind (uint16_at pkt 4) _ (Ends-uint16_at pkt 4) λ _ _.
            Ends-bind (index pkt 8) _ (Ends-or_panic _) λ _ _.
              Ends-bind (index pkt 9) _ (Ends-or_panic _) λ _ _.
                Ends-bind (uint16_at pkt 10) _ (Ends-uint16_at pkt 10) λ _ _.
                  Ends-bind (slice pkt 12 16) _ (Ends-slice pkt 12 16)
                    λ _ _. Ends-bind (slice pkt 16 20) _ (Ends-slice pkt 16 20) λ _ _. Ends-ret _

Ends-parse_variable : (pkt : Slice) (ip : Ip4) → Ends (parse_variable pkt ip)
unfolding parse_variable
Ends-parse_variable pkt ip =
    Ends-bind (slice_from pkt (u8 (ip.ihl * 4))) _ (Ends-slice_from pkt (u8 (ip.ihl * 4)))
      λ payload _.
        Ends-bind (slice pkt 20 (u8 (ip.ihl * 4))) _ (Ends-slice pkt 20 (u8 (ip.ihl * 4))) λ rest _.
          Ends-parse_options (suc (length rest.elems)) rest (record ip { payload = payload })
            (omega arith)

-- On every buffer and every old header the parser ends: its option loop, whatever the options
-- are, never runs out of the fuel that the number of option bytes gives it.
pub Ends-parse_ip4 : (pkt : Slice) (ip : Ip4) → Ends (parse_ip4 pkt ip)
unfolding parse_ip4
Ends-parse_ip4 pkt ip = Ends-bind (parse_fixed pkt ip) _ (Ends-parse_fixed pkt ip) λ ip' _.
    Ends-if (ltb ip'.total_length 20) _ _ (λ _. Ends-ret _)
      λ _.
        Ends-if (ltb ip'.ihl 5) _ _ (λ _. Ends-ret _)
          λ _.
            Ends-if (ltb ip'.total_length (u8 (ip'.ihl * 4))) _ _ (λ _. Ends-ret _)
              λ _.
                Ends-if (ltb (length pkt.elems) (ip'.ihl * 4)) _ _ (λ _. Ends-ret _)
                  λ _. Ends-parse_variable pkt ip'
