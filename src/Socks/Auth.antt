-- ===== src/Socks/Auth.antt =====
-- gotun2socks/gosocks/client.go and server.go: how the two sides agree on a method. A side is what
-- it has read and what it writes; a write succeeds or not.
pub mod Agreement
pub mod Credentials
use go_game_proxy.Prelude.{
  ℕ, zero, suc, ◌+◌, ◌-◌, Bool, true, false, not, ◌||◌, Option, none, some, List, [], ◌∷◌, ◌++◌,
  Bytes, ltb, ◌==◌, if◌then◌else◌, u8, length, take, drop, get_or, replicate,
}
use go_game_proxy.Packet.Wire.{Go, ret, panic, ◌>>=◌, copy, copy_at, put}
use go_game_proxy.Socks.{
  Result, done, failed, unsupported_version, Reading, then_read, read_full, socks_version,
  small_buf_size,
}

abbrev pub no_authentication : ℕ
no_authentication = 0

abbrev pub username_password : ℕ
username_password = 2

abbrev pub no_acceptable_methods : ℕ
no_acceptable_methods = 255

-- What a client does next, from what it has received; `refused` has the two bytes.
pub data GreetingEnd : Type 0 where
  accepted : GreetingEnd
  write_failed : GreetingEnd
  read_failed : GreetingEnd
  refused : ℕ → ℕ → GreetingEnd

-- The hello of a client that offers one method.
abbrev pub client_hello : ℕ → Bytes
client_hello method = socks_version ∷ 1 ∷ method ∷ []

-- The answer of two bytes, which is to be these.
unfoldable pub check_answer : ℕ → ℕ → Result Bytes → GreetingEnd
check_answer a b (failed e) = read_failed
check_answer a b (done resp) =
    if not (get_or resp 0 0 == a) || not (get_or resp 1 0 == b)
    then refused (get_or resp 0 0) (get_or resp 1 0)
    else accepted

-- The reader of an answer reads through a buffer of its own, which is dropped with what it has read
-- ahead: the bytes left are those that arrive after it.
unfoldable pub client_greets : ℕ → Bool → Bytes → Go GreetingEnd
client_greets method written resp =
    if not written
    then ret write_failed
    else (read_full 2 resp >>= λ (r, rest). ret (check_answer socks_version method r))

-- `AnonymousClientAuthenticator.ClientAuthenticate` and `ClientAuthAnonymous`
unfoldable pub client_anonymous : Bool → Bytes → Go (Bytes × GreetingEnd)
client_anonymous written resp =
    client_greets no_authentication written resp >>= λ o. ret (client_hello no_authentication, o)

-- The credentials in the buffer of 512 bytes: a length byte in front of each.
unfoldable pub pack_credentials : Bytes → Bytes → Go Bytes
pack_credentials user password = do
  b0 ← put (client_hello username_password ++ replicate 509 0) 0 1
  b1 ← put b0 1 (u8 (length user))
  b2 ← copy_at b1 2 (length user + 2) user
  b3 ← put b2 (2 + length user) (u8 (length password))
  b4 ← copy_at b3 (3 + length user) 512 password
  if ltb 512 (3 + length user + length password)
      then panic
      else ret (take (3 + length user + length password) b4)

-- The second half of `UserNamePasswordClientAuthenticator.ClientAuthenticate`.
unfoldable pub send_credentials : Bytes → Bytes → Bool → Bytes → Go (Bytes × GreetingEnd)
send_credentials user password written resp = pack_credentials user password >>= λ msg.
    if not written
    then ret (msg, write_failed)
    else (read_full 2 resp >>= λ (r, rest). ret (msg, check_answer 1 0 r))

unfoldable pub when_accepted : GreetingEnd → Go (Bytes × GreetingEnd) → Go (Bytes × GreetingEnd)
when_accepted accepted next = next >>= λ r. ret (client_hello username_password ++ r.0, r.1)
when_accepted write_failed next = ret (client_hello username_password, write_failed)
when_accepted read_failed next = ret (client_hello username_password, read_failed)
when_accepted (refused a b) next = ret (client_hello username_password, refused a b)

-- `UserNamePasswordClientAuthenticator.ClientAuthenticate`: all that it writes, and how it ends.
unfoldable pub client_password :
    Bytes → Bytes → Bool → Bool → Bytes → Bytes → Go (Bytes × GreetingEnd)
client_password user password written1 written2 resp1 resp2 =
    client_greets username_password written1 resp1 >>= λ o.
    when_accepted o (send_credentials user password written2 resp2)

-- What the server answers and whether it goes on; no answer where it fails before.
pub data Verdict : Type 0 where
  served : Verdict
  unserved : Verdict

-- The loop over the methods: it reads one byte past each.
unfoldable pub find_method : Bytes → ℕ → ℕ → Bool
find_method h i zero = false
find_method h i (suc left) =
    let rest = find_method h (suc i) left in
    if get_or h (i + 3) 0 == no_authentication then true else rest

-- The steps of the server on its buffer: the array `h` is zero behind what is read.
unfoldable pub answer_greeting : Bool → Bytes → Reading (Bytes × Verdict)
answer_greeting written bytes = then_read (read_full 2 bytes) (λ h rest.
    let n = get_or h 1 0 in
    if not (get_or h 0 0 == socks_version)
    then ret (failed (unsupported_version (get_or h 0 0)), rest)
    else then_read (read_full n rest) (λ methods rest2.
      if find_method (h ++ (methods ++ replicate (small_buf_size - 2 - n) 0)) 0 n
      then ret (
        done (socks_version ∷ no_authentication ∷ [], if written then served else unserved),
        rest2,
      )
      else ret (done (socks_version ∷ no_acceptable_methods ∷ [], unserved), rest2)))

-- `AnonymousServerAuthenticator.ServerAuthenticate` on the bytes that arrive. Its `bufio.Reader` is
-- dropped with what it has read ahead: nothing is said of what its caller can still read.
unfoldable pub server_anonymous : Bool → Bytes → Go (Result (Bytes × Verdict))
unfolding answer_greeting
server_anonymous written bytes = answer_greeting written bytes >>= λ (r, buffered). ret r
