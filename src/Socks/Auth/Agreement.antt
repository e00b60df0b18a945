-- ===== src/Socks/Auth/Agreement.antt =====
-- Which greetings the anonymous server accepts, and what the clients make of its answer.
use go_game_proxy.Prelude.{
  ℕ, zero, suc, ◌+◌, ◌-◌, ◌≤◌, ◌<◌, ◌≡◌, refl, subst, true, false, [], ◌∷◌, ◌++◌, Bytes, ◌==◌,
  if◌then◌else◌, length, get_or, replicate, Bool-cases, inl, inr, arith,
}
use go_game_proxy.Packet.Wire.{ret, ◌>>=◌}
use go_game_proxy.Socks.{done, failed, socks_version, small_buf_size}
use go_game_proxy.Socks.RoundTrip.{read_full-append}
use go_game_proxy.Socks.Auth.{
  no_authentication, no_acceptable_methods, accepted, refused, client_hello, check_answer,
  client_greets, Verdict, served, unserved, find_method, answer_greeting, server_anonymous,
}

get_or-padded : (xs : Bytes) (k i : ℕ) → length xs ≤ i → get_or (xs ++ replicate k 0) i 0 ≡ 0
get_or-padded [] zero i h = refl
get_or-padded [] (suc k) zero h = refl
get_or-padded [] (suc k) (suc i) h = get_or-padded [] k i (omega arith)
get_or-padded (x ∷ xs) k zero h = absurd (omega arith)
get_or-padded (x ∷ xs) k (suc i) h = get_or-padded xs k i (omega arith)

-- The loop finds the zero behind the last method.
find_method-padding :
    (h : Bytes) (i left : ℕ) → get_or h (i + left + 3) 0 ≡ 0 → find_method h i (suc left) ≡ true
unfolding find_method
find_method-padding h i zero e = ground (arith, e)
find_method-padding h i (suc left) e =
    let q : i + suc left + 3 ≡ suc i + left + 3 = omega arith in
    let rest = find_method-padding h (suc i) left (subst (λ j. get_or h j 0 ≡ 0) q e) in
    elim (Bool-cases (get_or h (i + 3) 0 == 0)) [ inl b ↦ rw b refl | inr b ↦ rw b rest ]

found_greeting :
    (m : ℕ) (ms : Bytes)
    → find_method
        ((5 ∷ length (m ∷ ms) ∷ [])
          ++ ((m ∷ ms) ++ replicate (small_buf_size - 2 - length (m ∷ ms)) 0))
        0
        (length (m ∷ ms))
      ≡ true
found_greeting m ms =
    find_method-padding _ 0 (length ms)
      (get_or-padded (5 ∷ length (m ∷ ms) ∷ m ∷ ms) _ (0 + length ms + 3) (omega arith))

-- The answer to a greeting of version 5 with these methods.
abbrev pub answer_to : Bytes → Bytes × Verdict
answer_to [] = (socks_version ∷ no_acceptable_methods ∷ [], unserved)
answer_to (m ∷ ms) = (socks_version ∷ no_authentication ∷ [], served)

no_method : (h : Bytes) → find_method h 0 0 ≡ false
unfolding find_method
no_method h = refl

-- The server accepts every greeting of version 5 that has a method at all, whether or not it offers
-- to go without authentication: the loop over the methods looks one byte too far.
pub server_anonymous-accepts :
    (methods rest : Bytes)
    → length methods < 256
    → server_anonymous true (socks_version ∷ length methods ∷ (methods ++ rest))
      ≡ ret (done (answer_to methods))
unfolding server_anonymous answer_greeting
server_anonymous-accepts [] rest l =
    rw (read_full-append (5 ∷ 0 ∷ []) rest)
      (rw (read_full-append [] rest) (rw (no_method (5 ∷ 0 ∷ replicate 510 0)) refl))
server_anonymous-accepts (m ∷ ms) rest l =
    rw (read_full-append (5 ∷ length (m ∷ ms) ∷ []) ((m ∷ ms) ++ rest))
      (rw (read_full-append (m ∷ ms) rest) (rw (found_greeting m ms) refl))

check_answer-anonymous :
    (method : ℕ)
    → check_answer 5 method (done (5 ∷ 0 ∷ [])) ≡ (if method == 0 then accepted else refused 5 0)
unfolding check_answer
check_answer-anonymous method = ground arith

-- A client that offers one method to this server goes on only if it is that of no authentication:
-- one with a password reads an answer that it refuses.
pub client_greets-server_anonymous :
    (method : ℕ) (rest : Bytes)
    → (server_anonymous true (client_hello method ++ rest) >>= λ r. elim r [
      | done a ↦ client_greets method true a.0
      | failed e ↦ client_greets method true []
    ])
      ≡ ret (if method == 0 then accepted else refused 5 0)
unfolding client_greets
client_greets-server_anonymous method rest =
    rw (server_anonymous-accepts (method ∷ []) rest (omega arith))
      (rw (read_full-append (5 ∷ 0 ∷ []) []) (rw (check_answer-anonymous method) refl))
