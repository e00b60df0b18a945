-- ===== src/Tests/Ciphers.antt =====
-- kcp/cipher and the greetings of gotun2socks/gosocks, on concrete keys and messages.
use go_game_proxy.Prelude.{
  ℕ, zero, suc, ◌≤◌, ◌<◌, ◌≡◌, ◌≢◌, refl, ap, true, [], ◌∷◌, ◌++◌, Bytes, length, All, arith,
}
use go_game_proxy.Packet.Wire.{ret}
use go_game_proxy.Socks.{socks_version, done}
use go_game_proxy.Socks.Auth.{served, server_anonymous, client_password, accepted}
use go_game_proxy.Socks.Auth.Credentials.{client_password-exchange}
use go_game_proxy.Socks.Auth.Agreement.{server_anonymous-accepts}
use go_game_proxy.Kcp.Little
use go_game_proxy.Kcp.Little.{new_cipher, IsDistinct, IsPassword, decrypt-encrypt}
use go_game_proxy.Kcp.Oor
use go_game_proxy.Kcp.Oor.{
  XorCipher, IsKeyed, update_max_len, update_max_len-IsKeyed, decrypt-encrypt_keyed,
}

-- The bytes from `n` down, none of which stands at its own index if `n` is even.
abbrev pub count_down : ℕ → Bytes
count_down zero = []
count_down (suc n) = n ∷ count_down n

count_down-below : (n m : ℕ) → n ≤ m → All (λ v. v < m) (count_down n)
count_down-below zero m h = tt
count_down-below (suc n) m h = (omega (arith, h), count_down-below n m (omega (arith, h)))

count_down-above : (n m : ℕ) → n ≤ m → All (λ v. m ≢ v) (count_down n)
count_down-above zero m h = tt
count_down-above (suc n) m h =
    ((λ e. absurd (omega (arith, e, h))), count_down-above n m (omega (arith, h)))

count_down-IsDistinct : (n : ℕ) → IsDistinct (count_down n)
count_down-IsDistinct zero = tt
count_down-IsDistinct (suc n) = (count_down-above n n (omega arith), count_down-IsDistinct n)

length-count_down : (n : ℕ) → length (count_down n) ≡ n
length-count_down zero = refl
length-count_down (suc n) = ap suc (length-count_down n)

pub reversed-IsPassword : IsPassword (count_down 256)
reversed-IsPassword = record {
  whole = length-count_down 256;
  bytes = count_down-below 256 256 (omega arith);
  distinct = count_down-IsDistinct 256;
}

decrypt-encrypt_example :
    Little.decrypt
      (new_cipher (count_down 256))
      (Little.encrypt (new_cipher (count_down 256)) (1 ∷ 200 ∷ []))
    ≡ 1 ∷ 200 ∷ []
decrypt-encrypt_example =
    decrypt-encrypt (count_down 256) (1 ∷ 200 ∷ []) reversed-IsPassword (omega arith)

abbrev blank_cipher : XorCipher
blank_cipher = record {
  password = 97 ∷ 98 ∷ 99 ∷ 100 ∷ [];
  pwd_max_index = 3;
  remainder = [];
  max_len = 0;
}

abbrev keyed : XorCipher
keyed = update_max_len blank_cipher 8192

decrypt-encrypt_keyed_example :
    (c' : XorCipher) × (out : Bytes) × (Oor.encrypt keyed (1 ∷ 2 ∷ 3 ∷ []) ≡ ret (c', out))
    × (Oor.decrypt keyed out ≡ ret (c', 1 ∷ 2 ∷ 3 ∷ []))
    × (Oor.decrypt c' out ≡ ret (c', 1 ∷ 2 ∷ 3 ∷ []))
    × IsKeyed c'
decrypt-encrypt_keyed_example =
    decrypt-encrypt_keyed keyed (1 ∷ 2 ∷ 3 ∷ [])
      (update_max_len-IsKeyed blank_cipher 8192 (omega arith))

-- A greeting that offers a password only.
server_anonymous-accepts_example :
    server_anonymous true (socks_version ∷ 1 ∷ ((2 ∷ []) ++ (9 ∷ [])))
    ≡ ret (done (5 ∷ 0 ∷ [], served))
server_anonymous-accepts_example = server_anonymous-accepts (2 ∷ []) (9 ∷ []) (omega arith)

-- "ab" with the password "c", which the server takes.
client_password-exchange_example :
    client_password (97 ∷ 98 ∷ []) (99 ∷ []) true true (5 ∷ 2 ∷ []) (1 ∷ 0 ∷ [])
    ≡ ret (5 ∷ 1 ∷ 2 ∷ 1 ∷ 2 ∷ 97 ∷ 98 ∷ 1 ∷ 99 ∷ [], accepted)
client_password-exchange_example =
    client_password-exchange (97 ∷ 98 ∷ []) (99 ∷ []) (omega arith) (omega arith) (omega arith) 0 []
      []
