-- ===== src/Packet/Http.antt =====
-- gotun2socks/packet/http.go: the search in a payload, the host of a plain HTTP request, and the
-- rewriting of a request for an HTTP proxy. `strings.TrimSpace` is the argument `trim`.
pub mod Search
use go_game_proxy.Prelude.{
  ℕ, zero, suc, ◌+◌, ◌-◌, Bool, true, false, not, ◌&&◌, Option, none, some, List, [], ◌∷◌, ◌++◌,
  Bytes, ltb, ◌==◌, if◌then◌else◌, length, drop, get_elem?, replicate, is_some,
}
use go_game_proxy.Packet.Wire.{Go, ret, panic, ◌>>=◌, or_panic, cut, copy_at}

-- The inner loop: does `s` stand in front of `bs`?
unfoldable pub starts_with : Bytes → Bytes → Bool
starts_with [] bs = true
starts_with (c ∷ s) [] = false
starts_with (c ∷ s) (b ∷ bs) = b == c && starts_with s bs

-- The outer loop of `findStringInData` from index `i`, with the rounds left; `none` is -1.
unfoldable pub find_rounds : ℕ → ℕ → Bytes → Bytes → Option ℕ
unfolding starts_with
find_rounds zero i bytes s = none
find_rounds (suc rounds) i bytes s =
    let rest = find_rounds rounds (i + 1) bytes s in
    if starts_with s (drop i bytes) then some i else rest

-- `findStringInData`: `i` runs below `dataLen - stringLen`.
unfoldable pub find_string : Bytes → Bytes → ℕ → Option ℕ
unfolding find_rounds
find_string bytes s start = find_rounds (length bytes - length s - start) start bytes s

abbrev pub host_header : Bytes
host_header = b'H' ∷ b'o' ∷ b's' ∷ b't' ∷ b':' ∷ b' ' ∷ []

abbrev pub crlf : Bytes
crlf = b'\r' ∷ b'\n' ∷ []

-- `GetHostnamePlainHttp`: `ret none` is an error. With no line end behind the header the upper
-- bound of the slice is -1, which is a panic.
unfoldable pub get_hostname_plain : (Bytes → Bytes) → Bytes → Go (Option Bytes)
unfolding find_string
get_hostname_plain trim bytes =
    if ltb (length bytes) 7 then ret none else elim (find_string bytes host_header 0) [
      | none ↦ ret none
      | some start ↦ elim (find_string bytes crlf (start + length host_header)) [
        | none ↦ panic
        | some end ↦ cut bytes (start + length host_header) end >>= λ h. ret (some (trim h))
      ]
    ]

-- The words that the chain of tests looks for, in its order.
abbrev pub method_words : List Bytes
method_words =
    (b'G' ∷ b'E' ∷ b'T' ∷ b' ' ∷ [])
    ∷ (b'P' ∷ b'O' ∷ b'S' ∷ b'T' ∷ b' ' ∷ [])
    ∷ (b'P' ∷ b'U' ∷ b'T' ∷ b' ' ∷ [])
    ∷ (b'D' ∷ b'E' ∷ b'L' ∷ b'E' ∷ b'T' ∷ b'E' ∷ b' ' ∷ [])
    ∷ (b'H' ∷ b'E' ∷ b'A' ∷ b'D' ∷ b' ' ∷ [])
    ∷ (b'O' ∷ b'P' ∷ b'T' ∷ b'I' ∷ b'O' ∷ b'N' ∷ b'S' ∷ b' ' ∷ [])
    ∷ (b'P' ∷ b'A' ∷ b'T' ∷ b'C' ∷ b'H' ∷ b' ' ∷ [])
    ∷ []

-- The chain of tests: the first word that the payload holds anywhere, or the empty word.
unfoldable pub method_word : Bytes → List Bytes → Bytes
unfolding find_string
method_word payload [] = []
method_word payload (w ∷ ws) =
    let rest = method_word payload ws in if is_some (find_string payload w 0) then w else rest

abbrev pub http_scheme : Bytes
http_scheme = b'h' ∷ b't' ∷ b't' ∷ b'p' ∷ b':' ∷ []

-- The test for a request that has been patched already: byte by byte, so that a read behind the
-- end is a panic only if all bytes before it fit.
unfoldable pub already_patched : Bytes → ℕ → Bytes → Go Bool
already_patched payload i [] = ret true
already_patched payload i (c ∷ cs) = or_panic (get_elem? payload i) >>= λ b.
    if b == c then already_patched payload (i + 1) cs else ret false

abbrev pub auth_prefix : Bytes
auth_prefix =
    b'P' ∷ b'r' ∷ b'o' ∷ b'x' ∷ b'y' ∷ b'-' ∷ b'A' ∷ b'u' ∷ b't' ∷ b'h' ∷ b'o' ∷ b'r' ∷ b'i' ∷ b'z'
    ∷ b'a' ∷ b't' ∷ b'i' ∷ b'o' ∷ b'n' ∷ b':' ∷ b' ' ∷ b'B' ∷ b'a' ∷ b's' ∷ b'i' ∷ b'c' ∷ b' ' ∷ []

abbrev pub http_host : Bytes → Bytes
http_host hostname = http_scheme ++ (b'/' ∷ b'/' ∷ hostname)

abbrev pub auth_line : Bytes → Bytes
auth_line auth = auth_prefix ++ (auth ++ crlf)

-- `headerEndIndex`: -1 + 2 where no line end is found.
abbrev pub header_end : Bytes → ℕ → ℕ
header_end payload index1 = elim (find_string payload crlf index1) [ none ↦ 1 | some i ↦ i + 2 ]

-- The copies into the new payload.
unfoldable pub splice_host : Bytes → Bytes → Bytes → ℕ → ℕ → Go Bytes
splice_host payload host auth index1 stop = do
  let n = length host
  head ← cut payload 0 index1
  line ← cut payload index1 stop
  tail ← cut payload stop (length payload)
  b1 ← copy_at (replicate (length payload + n + length auth) 0) 0 index1 head
  b2 ← copy_at b1 index1 (index1 + n) host
  b3 ← copy_at b2 (index1 + n) (stop + n) line
  b4 ← copy_at b3 (stop + n) (stop + n + length auth) auth
  copy_at b4 (stop + n + length auth) (length b4) tail

-- `PatchHostForPlainHttp` behind its two tests. The tests for a word declare a new `wordIndex`
-- each, so the outer one stays 0 and the method is taken to end at the length of its word.
unfoldable pub patch_request : Bytes → Bytes → Bytes → Go Bytes
unfolding find_string method_word already_patched splice_host
patch_request payload hostname auth_header =
    let index1 = length (method_word payload method_words) in
    already_patched payload index1 http_scheme >>= λ patched.
    if patched
    then ret payload
    else splice_host payload (http_host hostname) (auth_line auth_header) index1
        (header_end payload index1)

unfoldable pub patch_host : ℕ → Bytes → Bytes → Bytes → Go Bytes
unfolding patch_request
patch_host dst_port payload hostname auth_header =
    if not (dst_port == 80)
    then ret payload
    else if length hostname == 0
    then ret payload
    else patch_request payload hostname auth_header
