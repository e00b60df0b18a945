-- ===== src/Tests/Halves.antt =====
-- kcp/service on a request of gosocks.
use go_game_proxy.Prelude.{ℕ, ◌+◌, ◌/◌, ◌%◌, true, some, [], ◌∷◌, Bytes}
use go_game_proxy.Kcp.Service.Remote.{Web, request_line}
use go_game_proxy.Tests.Ciphers.{count_down}

-- Three digits.
abbrev itoa_plain : ℕ → Bytes
itoa_plain n = (48 + n / 100 % 10) ∷ (48 + n / 10 % 10) ∷ (48 + n % 10) ∷ []

abbrev web : Web
web = record {
  read_request = λ bytes. some (request_line (b'a' ∷ b'.' ∷ b'b' ∷ []) (itoa_plain 443));
  dials = λ address. true;
}

abbrev password : Bytes
password = count_down 256
