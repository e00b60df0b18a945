-- ===== src/Tests/Programs.antt =====
-- Client.go, atest/Server.go and socks/server/Server.go, on concrete messages.
use go_game_proxy.Prelude.{◌≡◌, true, [], ◌∷◌, ◌++◌, Bytes, arith}
use go_game_proxy.Packet.Wire.{ret}
use go_game_proxy.Salt.{salt_byte, de_salt_byte, de_salt_byte-salt_byte}
use go_game_proxy.Server.{Outside}

-- The 2 is lost: the second buffer held a 9 in its place.
de_salt_byte-salt_byte_example :
    (hidden : Bytes) × (salt_byte (7 ∷ 7 ∷ 7 ∷ []) (1 ∷ 2 ∷ []) ≡ ret (hidden ++ (7 ∷ [])))
    × (de_salt_byte (9 ∷ 9 ∷ 9 ∷ []) hidden ≡ ret (1 ∷ 9 ∷ 9 ∷ []))
de_salt_byte-salt_byte_example =
    de_salt_byte-salt_byte (7 ∷ 7 ∷ 7 ∷ []) (9 ∷ 9 ∷ 9 ∷ []) (1 ∷ 2 ∷ []) (omega arith)
      (omega arith)

abbrev outside : Outside
outside = record {
  dotted = λ b. b;
  host_port = λ host port. host ++ (58 ∷ port ∷ []);
  dials = λ addr. true;
}
