-- ===== src/Tun/Dns/History.antt =====
-- The cache against the history of the entries that it made of the responses.
pub mod Responses
use go_game_proxy.Prelude.{
  ℕ, ◌≤◌, ◌≡◌, refl, ◌∙◌, ap, ap₂, true, Option, none, some, List, [], ◌∷◌, Bytes, ltb,
  if◌then◌else◌, Bool-cases, inl, inr, ltb→lt, lt→ltb, arith,
}
use go_game_proxy.Prelude.Bytes.{same_bytes, same_bytes→≡}
use go_game_proxy.Tun.Dns.{
  Msg, Entry, Storage, put_entry, with_id, look_up, requested, answer_request, keep, query, stored,
  store,
}

-- A call of the cache at a time.
pub data Call : Type 0 where
  asked : Bytes → ℕ → Call
  answered : Bytes → ℕ → Call

abbrev pub time_of : Call → ℕ
time_of (asked payload now) = now
time_of (answered payload now) = now

-- The clock does not go back.
abbrev pub IsOrdered : ℕ → List Call → Type 0
IsOrdered now [] = Unit
IsOrdered now (c ∷ calls) = (now ≤ time_of c) × IsOrdered (time_of c) calls

module _ {Rest : Type 0} where
  -- An entry as a client sees it at a time: nothing once it has expired.
  abbrev pub alive : ℕ → Option (Entry Rest) → Option (Msg Rest)
  alive now none = none
  alive now (some e) = if ltb e.exp now then none else some (with_id 0 e.msg)

  -- The last response of a key, in a history whose latest response stands first.
  abbrev pub latest : List (Bytes × Entry Rest) → Bytes → Option (Entry Rest)
  latest [] k = none
  latest ((key, e) ∷ older) k = if same_bytes key k then some e else latest older k

  abbrev pub answer_with : ℕ → Option (Msg Rest) → Option (Msg Rest)
  answer_with id none = none
  answer_with id (some m) = some (with_id id m)

  -- The storage shows what the history does, from `now` on.
  Shows : Storage Rest → List (Bytes × Entry Rest) → ℕ → Type 0
  Shows storage past now =
      (k : Bytes) (t : ℕ) → now ≤ t → alive t (storage k) ≡ alive t (latest past k)

  look_up-answer :
      (o : Option (Entry Rest)) (key : Bytes) (id now : ℕ) (storage : Storage Rest)
      → (look_up o key id now storage).1 ≡ answer_with id (alive now o)
  unfolding look_up
  look_up-answer none key id now storage = refl
  look_up-answer (some e) key id now storage = elim (Bool-cases (ltb e.exp now)) [
    | inl b ↦ rw b refl
    | inr b ↦ rw b refl
  ]

  put_entry-alive :
      (key k : Bytes) (t : ℕ) (o : Option (Entry Rest)) (storage : Storage Rest)
      → alive t o ≡ alive t (storage key)
      → alive t (put_entry key o storage k) ≡ alive t (storage k)
  put_entry-alive key k t o storage h = elim (Bool-cases (same_bytes key k)) [
    | inl b ↦ rw b (h ∙ ap (λ z. alive t (storage z)) (same_bytes→≡ key k b))
    | inr b ↦ rw b refl
  ]

  look_up-alive :
      (o : Option (Entry Rest)) (key k : Bytes) (id now t : ℕ) (storage : Storage Rest)
      → storage key ≡ o
      → now ≤ t
      → alive t ((look_up o key id now storage).0 k) ≡ alive t (storage k)
  unfolding look_up
  look_up-alive none key k id now t storage f h = refl
  look_up-alive (some e) key k id now t storage f h = elim (Bool-cases (ltb e.exp now)) [
    | inl b ↦
        let late : ltb e.exp t ≡ true = lt→ltb e.exp t (omega (arith, ltb→lt e.exp now b)) in
        rw b (put_entry-alive key k t none storage (rw f (rw late refl)))
    | inr b ↦
        let kept = record e { msg = with_id id e.msg } in
        rw b (put_entry-alive key k t (some kept) storage (rw f (again t)))
  ]
    where
      again : (t' : ℕ) → alive t' (some (record e { msg = with_id id e.msg })) ≡ alive t' (some e)
      again t' = elim (Bool-cases (ltb e.exp t')) [ inl b ↦ rw b refl | inr b ↦ rw b refl ]

  -- The specification: a question is answered by the last response to it, with the
  -- identification of the request, unless that response has expired.
  abbrev pub expected : Option (ℕ × Bytes) → List (Bytes × Entry Rest) → ℕ → Option (Msg Rest)
  expected none past now = none
  expected (some r) past now = answer_with r.0 (alive now (latest past r.1))

  abbrev pub recorded :
      Option (Bytes × Entry Rest) → List (Bytes × Entry Rest) → List (Bytes × Entry Rest)
  recorded none past = past
  recorded (some kept) past = kept ∷ past

  answer_request-expected :
      (request : Option (ℕ × Bytes)) (storage : Storage Rest) (past : List (Bytes × Entry Rest))
      (now : ℕ)
      → Shows storage past now
      → (answer_request request now storage).1 ≡ expected request past now
  unfolding answer_request Shows
  answer_request-expected none storage past now h = refl
  answer_request-expected (some r) storage past now h =
      look_up-answer (storage r.1) r.1 r.0 now storage
      ∙ ap (answer_with r.0) (h r.1 now (omega arith))

  answer_request-Shows :
      (request : Option (ℕ × Bytes)) (storage : Storage Rest) (past : List (Bytes × Entry Rest))
      (now : ℕ)
      → Shows storage past now
      → Shows (answer_request request now storage).0 past now
  unfolding answer_request Shows
  answer_request-Shows none storage past now h k t g = h k t g
  answer_request-Shows (some r) storage past now h k t g =
      look_up-alive (storage r.1) r.1 k r.0 now t storage refl g ∙ h k t g

  keep-Shows :
      (kept : Option (Bytes × Entry Rest)) (storage : Storage Rest)
      (past : List (Bytes × Entry Rest)) (now : ℕ)
      → Shows storage past now
      → Shows (keep kept storage) (recorded kept past) now
  unfolding keep Shows
  keep-Shows none storage past now h k t g = h k t g
  keep-Shows (some kept) storage past now h k t g = elim (Bool-cases (same_bytes kept.0 k)) [
    | inl b ↦ rw b refl
    | inr b ↦ rw b (h k t g)
  ]

  Shows-later :
      (storage : Storage Rest) (past : List (Bytes × Entry Rest)) (now t : ℕ)
      → now ≤ t
      → Shows storage past now
      → Shows storage past t
  unfolding Shows
  Shows-later storage past now t g h k t' g' = h k t' (omega (arith, g, g'))

  module _ (unpack : Bytes → Option (Msg Rest)) where
    -- The code: the answers to a sequence of calls.
    abbrev pub run_cache : Storage Rest → List Call → List (Option (Msg Rest))
    run_cache storage [] = []
    run_cache storage (asked payload now ∷ calls) =
        let (storage', reply) = query unpack storage payload now in reply ∷ run_cache storage' calls
    run_cache storage (answered payload now ∷ calls) =
        run_cache (store unpack storage payload now) calls

    abbrev pub run_history : List (Bytes × Entry Rest) → List Call → List (Option (Msg Rest))
    run_history past [] = []
    run_history past (asked payload now ∷ calls) =
        expected (requested unpack payload) past now ∷ run_history past calls
    run_history past (answered payload now ∷ calls) =
        run_history (recorded (stored unpack payload now) past) calls

    run_cache-shown :
        (calls : List Call) (storage : Storage Rest) (past : List (Bytes × Entry Rest)) (now : ℕ)
        → IsOrdered now calls
        → Shows storage past now
        → run_cache storage calls ≡ run_history past calls
    unfolding query store
    run_cache-shown [] storage past now o h = refl
    run_cache-shown (asked payload t ∷ calls) storage past now o h =
        let shown = Shows-later storage past now t o.0 h in
        ap₂ (λ a as'. a ∷ as')
          (answer_request-expected (requested unpack payload) storage past t shown)
          (run_cache-shown calls (query unpack storage payload t).0 past t o.1
            (answer_request-Shows (requested unpack payload) storage past t shown))
    run_cache-shown (answered payload t ∷ calls) storage past now o h =
        let shown = Shows-later storage past now t o.0 h in
        run_cache-shown calls (store unpack storage payload t)
          (recorded (stored unpack payload t) past) t o.1
          (keep-Shows (stored unpack payload t) storage past t shown)

    -- The same for a cache that is empty at the start.
    pub run_cache-empty :
        (calls : List Call) (now : ℕ)
        → IsOrdered now calls
        → run_cache (λ k. none) calls ≡ run_history [] calls
    unfolding Shows
    run_cache-empty calls now o = run_cache-shown calls (λ k. none) [] now o (λ k t g. refl)
