-- ===== src/Socks/Auth/Credentials.antt =====
-- The user name and the password on the wire: the message of RFC 1929.
use go_game_proxy.Prelude.{
  ◌==◌, true, ℕ, zero, suc, ◌+◌, ◌-◌, ◌≤◌, ◌<◌, ◌≡◌, refl, sym, ◌∙◌, ap, false, Option, some, none,
  [], ◌∷◌, ◌++◌, Bytes, ltb, if◌then◌else◌, u8, length, take, drop, get_elem?, set, replicate,
  length-replicate, length-append, length-take, length-drop, take-append-drop, take-append,
  append_assoc, append-nil, arith,
}
use go_game_proxy.Packet.Wire.{Go, ret, panic, ◌>>=◌, copy, copy_at, put}
use go_game_proxy.Socks.{done}
use go_game_proxy.Socks.RoundTrip.{read_full-append}
use go_game_proxy.Socks.Auth.{
  client_hello, username_password, pack_credentials, check_answer, accepted, refused, client_greets,
  client_password, send_credentials, when_accepted,
}
use go_game_proxy.Tun.Pack.Window.{cut_at-append}

copy-drop : (b s : Bytes) → length s ≤ length b → copy b s ≡ s ++ drop (length s) b
copy-drop [] [] h = refl
copy-drop [] (x ∷ s) h = absurd (omega arith)
copy-drop (y ∷ b) [] h = refl
copy-drop (y ∷ b) (x ∷ s) h = ap (◌∷◌ x) (copy-drop b s (omega arith))

-- A write between two parts of a buffer that are not touched.
copy_at-between :
    (i j : ℕ) (a w c s : Bytes)
    → length a ≡ i
    → i + length w ≡ j
    → length s ≤ length w
    → copy_at (a ++ (w ++ c)) i j s ≡ ret (a ++ ((s ++ drop (length s) w) ++ c))
copy_at-between i j a w c s e f l = rw (cut_at-append i j a w c e f, copy-drop w s l) refl

get_elem?-behind : (a : Bytes) (x : ℕ) (c : Bytes) → get_elem? (a ++ (x ∷ c)) (length a) ≡ some x
get_elem?-behind [] x c = refl
get_elem?-behind (y ∷ a) x c = get_elem?-behind a x c

set-behind : (a : Bytes) (x v : ℕ) (c : Bytes) → set (a ++ (x ∷ c)) (length a) v ≡ a ++ (v ∷ c)
set-behind [] x v c = refl
set-behind (y ∷ a) x v c = ap (◌∷◌ y) (set-behind a x v c)

put-behind :
    (a : Bytes) (i x v : ℕ) (c : Bytes) → length a ≡ i → put (a ++ (x ∷ c)) i v ≡ ret (a ++ (v ∷ c))
put-behind a i x v c e =
    let buf = a ++ (x ∷ c) in
    ap (λ j. put buf j v) (sym e)
    ∙ ap (λ (o : Option ℕ). elim o [ none ↦ panic | some _ ↦ ret (set buf (length a) v) ])
        (get_elem?-behind a x c)
    ∙ ap ret (set-behind a x v c)

drop_all : (n : ℕ) (xs : Bytes) → length xs ≤ n → drop n xs ≡ []
drop_all zero [] h = refl
drop_all zero (x ∷ xs) h = absurd (omega arith)
drop_all (suc n) [] h = refl
drop_all (suc n) (x ∷ xs) h = drop_all n xs (omega arith)

nonempty : (xs : Bytes) → 0 < length xs → (x : ℕ) × (w : Bytes) × (xs ≡ x ∷ w)
nonempty [] h = absurd (omega arith)
nonempty (x ∷ xs) h = (x, xs, refl)

check_answer-method : check_answer 5 2 (done (5 ∷ 2 ∷ [])) ≡ accepted
unfolding check_answer
check_answer-method = refl

check_answer-status :
    (status : ℕ)
    → check_answer 1 0 (done (1 ∷ status ∷ []))
      ≡ (if status == 0 then accepted else refused 1 status)
unfolding check_answer
check_answer-status status = ground arith

-- The message: version 1, and a length byte in front of each.
abbrev pub credentials : Bytes → Bytes → Bytes
credentials user password = (1 ∷ length user ∷ user) ++ (length password ∷ password)

module _ (user password : Bytes) (hu : length user ≤ 255) (hp : length password ≤ 255)
    (fits : 3 + length user + length password ≤ 512) where
  abbrev n : ℕ
  n = length user

  abbrev front : Bytes
  front = 1 ∷ n ∷ user

  -- The writes behind the first two bytes.
  abbrev filled : Bytes → Go Bytes
  filled z = copy_at (1 ∷ u8 n ∷ z) 2 (n + 2) user >>= λ b2.
      put b2 (2 + n) (u8 (length password)) >>= λ b3. copy_at b3 (3 + n) 512 password >>= λ b4.
      if ltb 512 (3 + n + length password) then panic else ret (take (3 + n + length password) b4)

  module _ (u0 w : Bytes) (x : ℕ) (lu : length u0 ≡ n) (lw : length w ≡ 509 - n) where
    user_step : copy_at (1 ∷ n ∷ (u0 ++ (x ∷ w))) 2 (n + 2) user ≡ ret (front ++ (x ∷ w))
    user_step =
        copy_at-between 2 (n + 2) (1 ∷ n ∷ []) u0 (x ∷ w) user refl (omega (arith, lu))
          (omega (arith, lu))
        ∙ rw (drop_all n u0 (omega (arith, lu)), append-nil user) refl

    length_step :
        put (front ++ (x ∷ w)) (2 + n) (length password) ≡ ret (front ++ (length password ∷ w))
    length_step = put-behind front (2 + n) x (length password) w (omega arith)

    password_step :
        copy_at (front ++ (length password ∷ w)) (3 + n) 512 password
        ≡ ret (credentials user password ++ drop (length password) w)
    password_step =
        ap (λ b. copy_at b (3 + n) 512 password)
          (sym (append_assoc front (length password ∷ []) w)
            ∙ ap (λ c. (front ++ (length password ∷ [])) ++ c) (sym (append-nil w)))
        ∙ copy_at-between (3 + n) 512 (front ++ (length password ∷ [])) w [] password
            (omega (arith, length-append front (length password ∷ []))) (omega (arith, lw, hu))
            (omega (arith, lw, fits))
        ∙ ap ret (simp (append_assoc, append-nil))

    packed_at : filled (u0 ++ (x ∷ w)) ≡ ret (credentials user password)
    packed_at =
        let small : u8 n ≡ n = omega (arith, hu) in
        let small2 : u8 (length password) ≡ length password = omega (arith, hp) in
        let c : ltb 512 (3 + n + length password) ≡ false = ground (arith, fits) in
        let whole : 3 + n + length password ≡ length (credentials user password) =
          omega (arith, length-append front (length password ∷ password)) in
        rw (small, small2)
          (rw user_step (
            rw length_step (
              rw password_step (
                rw c (
                  ap ret (
                    ap (λ k. take k (credentials user password ++ drop (length password) w)) whole
                    ∙ take-append (credentials user password) (drop (length password) w)))))))

  -- Whatever stood in the 510 bytes behind them.
  filled-credentials : (z : Bytes) → length z ≡ 510 → filled z ≡ ret (credentials user password)
  filled-credentials z l =
      let (x, w, e) = nonempty (drop n z) (omega (arith, length-drop n z, l, hu)) in
      ap filled (sym (take-append-drop n z) ∙ ap (λ r. take n z ++ r) e)
      ∙ packed_at (take n z) w x (omega (arith, length-take n z, l, hu))
          (omega (arith, ap length e, length-drop n z, l))

  -- The credentials go out as RFC 1929 has them, if each fits a length byte and both the buffer.
  pub pack_credentials-credentials :
      pack_credentials user password ≡ ret (credentials user password)
  unfolding pack_credentials
  pack_credentials-credentials =
      filled-credentials (2 ∷ replicate 509 0) (omega (arith, length-replicate {A = ℕ} 509 0))

  -- The whole exchange with a server that takes the method: the hello and the credentials are
  -- written, and the client goes on only if the server's answer to them is 0.
  pub client_password-exchange :
      (status : ℕ) (r1 r2 : Bytes)
      → client_password user password true true (5 ∷ 2 ∷ r1) (1 ∷ status ∷ r2)
        ≡ ret (
          client_hello username_password ++ credentials user password,
          if status == 0 then accepted else refused 1 status,
        )
  unfolding client_password client_greets send_credentials when_accepted
  client_password-exchange status r1 r2 = rw (read_full-append (5 ∷ 2 ∷ []) r1) (
      rw check_answer-method (
        rw pack_credentials-credentials
          (rw (read_full-append (1 ∷ status ∷ []) r2) (rw (check_answer-status status) refl))))
