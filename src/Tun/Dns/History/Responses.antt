-- ===== src/Tun/Dns/History/Responses.antt =====
-- The cache against the responses themselves: which of them answers a question, and how long.
use go_game_proxy.Prelude.{
  ℕ, ◌+◌, ◌*◌, ◌%◌, ◌≡◌, refl, sym, ap, ap₂, ◌∙◌, Bool, true, false, ◌&&◌, Option, none, some, List,
  [], ◌∷◌, ◌++◌, Bytes, ltb, ◌==◌, if◌then◌else◌, subst, Option-cases, Bool-cases, inl, inr, u8,
  arith, ◌/◌,
}
use go_game_proxy.Prelude.Bytes.{same_bytes}
use go_game_proxy.Tun.Dns.{Question, Msg, Entry, cache_key, requested, stored}
use go_game_proxy.Tun.Dns.History.{
  Call, asked, answered, IsOrdered, latest, recorded, alive, answer_with, expected, run_cache,
  run_history, run_cache-empty,
}

nil_key : (b : Bytes) (z w : ℕ) → same_bytes [] (b ++ (z ∷ w ∷ [])) ≡ false
unfolding same_bytes
nil_key [] z w = refl
nil_key (c ∷ b) z w = refl

key_nil : (b : Bytes) (z w : ℕ) → same_bytes (b ++ (z ∷ w ∷ [])) [] ≡ false
unfolding same_bytes
key_nil [] z w = refl
key_nil (c ∷ b) z w = refl

nil_one : (b : Bytes) (y z w : ℕ) → same_bytes (y ∷ []) (b ++ (z ∷ w ∷ [])) ≡ false
unfolding same_bytes
nil_one [] y z w = ground arith
nil_one (c ∷ b) y z w = ground (arith, nil_key b z w)

one_nil : (b : Bytes) (y z w : ℕ) → same_bytes (b ++ (z ∷ w ∷ [])) (y ∷ []) ≡ false
unfolding same_bytes
one_nil [] y z w = ground arith
one_nil (c ∷ b) y z w = ground (arith, key_nil b z w)

-- Two keys agree in their names and in the two bytes behind them.
same_key :
    (a b : Bytes) (x y z w : ℕ)
    → same_bytes (a ++ (x ∷ y ∷ [])) (b ++ (z ∷ w ∷ []))
      ≡ (same_bytes a b && ((x == z) && (y == w)))
unfolding same_bytes
same_key [] [] x y z w = ground arith
same_key [] (c ∷ b) x y z w = ground (arith, nil_one b y z w)
same_key (c ∷ a) [] x y z w = ground (arith, one_nil a w x y)
same_key (c ∷ a) (d ∷ b) x y z w = ground (arith, same_key a b x y z w)

same_type :
    (q r : ℕ) → ((u8 (q / 256) == u8 (r / 256)) && (u8 q == u8 r)) ≡ (q % 65536 == r % 65536)
same_type q r = ground arith

-- Whether the first of these is the question, by its name and its type of 16 bits.
abbrev pub asks_for : Question → List Question → Bool
asks_for q [] = false
asks_for q (r ∷ rs) = same_bytes r.name q.name && (r.qtype % 65536 == q.qtype % 65536)

abbrev pub has_records : List ℕ → Bool
has_records [] = false
has_records (ttl ∷ ttls) = true

-- The time to live of the first record.
abbrev pub life : List ℕ → ℕ
life [] = 0
life (ttl ∷ ttls) = ttl

same_cache_key : (q r : Question) → same_bytes (cache_key r) (cache_key q) ≡ asks_for q (r ∷ [])
same_cache_key q r =
    same_key r.name q.name _ _ _ _
    ∙ ap (◌&&◌ (same_bytes r.name q.name)) (same_type r.qtype q.qtype)

module _ {Rest : Type 0} where
  -- A response without an error to the question, that has a record.
  abbrev pub is_answer : Question → Msg Rest → Bool
  is_answer q m = (m.rcode == 0) && (asks_for q m.question && has_records m.answer_ttls)

  -- What the responses, the last one first, with the times at which they came, say at `now`: the
  -- last answer to the question, for the seconds that its first record has to live.
  abbrev pub last_answer : Question → ℕ → List (Msg Rest × ℕ) → Option (Msg Rest)
  last_answer q now [] = none
  last_answer q now ((m, t) ∷ older) =
      if is_answer q m
      then (if ltb (t + life m.answer_ttls * 1000000000) now then none else some m)
      else last_answer q now older

  abbrev pub told_of : ℕ → List Question → ℕ → List (Msg Rest × ℕ) → Option (Msg Rest)
  told_of id [] now past = none
  told_of id (q ∷ qs) now past = answer_with id (last_answer q now past)

  -- What a client is told that asks with this message: the last answer to its first question, under
  -- its own identification.
  abbrev pub told : Option (Msg Rest) → ℕ → List (Msg Rest × ℕ) → Option (Msg Rest)
  told none now past = none
  told (some request) now past = told_of request.id request.question now past

  abbrev pub noted : Option (Msg Rest) → ℕ → List (Msg Rest × ℕ) → List (Msg Rest × ℕ)
  noted none now past = past
  noted (some resp) now past = (resp, now) ∷ past

  module _ (unpack : Bytes → Option (Msg Rest)) where
    -- The answers that the calls are to get.
    abbrev pub told_all : List (Msg Rest × ℕ) → List Call → List (Option (Msg Rest))
    told_all past [] = []
    told_all past (asked payload now ∷ calls) = told (unpack payload) now past ∷ told_all past calls
    told_all past (answered payload now ∷ calls) = told_all (noted (unpack payload) now past) calls

    -- The entries tell every client what the responses do.
    Agrees : List (Bytes × Entry Rest) → List (Msg Rest × ℕ) → Type 0
    Agrees entries past =
        (q : Question) (id now : ℕ)
        → answer_with id (alive now (latest entries (cache_key q)))
          ≡ answer_with id (last_answer q now past)

    module _ (id rcode : ℕ) (rest : Rest) where
      abbrev msg_with : List Question → List ℕ → Msg Rest
      msg_with qs ttls = record {
        id = id;
        rcode = rcode;
        question = qs;
        answer_ttls = ttls;
        rest = rest;
      }

      module _ (entries : List (Bytes × Entry Rest)) (past : List (Msg Rest × ℕ))
          (h : Agrees entries past) (t : ℕ) where
        -- A response that is no answer leaves what is told.
        ignored :
            (m : Msg Rest)
            → ((q : Question) → is_answer q m ≡ false)
            → Agrees entries ((m, t) ∷ past)
        unfolding Agrees
        ignored m no_answer q i now = rw (no_answer q) (h q i now)

        newest :
            (r : Question) (rs : List Question) (ttl : ℕ) (ttls : List ℕ)
            → (rcode == 0) ≡ true
            → Agrees
                ((
                  cache_key r,
                  record { msg = msg_with (r ∷ rs) (ttl ∷ ttls); exp = t + ttl * 1000000000 },
                )
                  ∷ entries)
                ((msg_with (r ∷ rs) (ttl ∷ ttls), t) ∷ past)
        unfolding Agrees
        newest r rs ttl ttls z q i now = elim (Bool-cases (asks_for q (r ∷ []))) [
          | inl a ↦ rw (same_cache_key q r) (
              rw (z, a)
                (elim (Bool-cases (ltb (t + ttl * 1000000000) now)) [
                  | inl late ↦ rw late refl
                  | inr early ↦ rw early refl
                ]))
          | inr a ↦ rw (same_cache_key q r) (rw (z, a) (h q i now))
        ]

        no_records : (qs : List Question) (q : Question) → is_answer q (msg_with qs []) ≡ false
        no_records qs q = ground arith

        bad_code :
            (qs : List Question) (ttls : List ℕ)
            → (rcode == 0) ≡ false
            → (q : Question) → is_answer q (msg_with qs ttls) ≡ false
        bad_code qs ttls z q = rw z refl

        -- What `store` makes of a response keeps the two together.
        store-Agrees :
            (payload : Bytes) (qs : List Question) (ttls : List ℕ)
            → unpack payload ≡ some (msg_with qs ttls)
            → Agrees (recorded (stored unpack payload t) entries) ((msg_with qs ttls, t) ∷ past)
        unfolding stored
        store-Agrees payload qs ttls e = elim (Bool-cases (rcode == 0)) [
          | inr z ↦
              let s : stored unpack payload t ≡ none = rw (e, stored) (rw z refl) in
              rw s (ignored (msg_with qs ttls) (bad_code qs ttls z))
          | inl z ↦ kept qs ttls e z
        ]
          where
            kept :
                (qs : List Question) (ttls : List ℕ)
                → unpack payload ≡ some (msg_with qs ttls)
                → (rcode == 0) ≡ true
                → Agrees (recorded (stored unpack payload t) entries) ((msg_with qs ttls, t) ∷ past)
            kept [] ttls e z =
                let s : stored unpack payload t ≡ none = rw (e, stored) (rw z refl) in
                rw s (ignored (msg_with [] ttls) (λ q. rw z refl))
            kept (r ∷ rs) [] e z =
                let s : stored unpack payload t ≡ none = rw (e, stored) (rw z refl) in
                rw s (ignored (msg_with (r ∷ rs) []) (no_records (r ∷ rs)))
            kept (r ∷ rs) (ttl ∷ ttls) e z =
                let s : stored unpack payload t
                    ≡ some (
                      cache_key r,
                      record { msg = msg_with (r ∷ rs) (ttl ∷ ttls); exp = t + ttl * 1000000000 },
                    ) =
                  rw (e, stored) (rw z refl) in
                rw s (newest r rs ttl ttls z)

        ask-Agrees :
            (payload : Bytes) (qs : List Question) (ttls : List ℕ)
            → unpack payload ≡ some (msg_with qs ttls)
            → expected (requested unpack payload) entries t ≡ told_of id qs t past
        unfolding requested Agrees
        ask-Agrees payload [] ttls e =
            let r : requested unpack payload ≡ none = rw (e, requested) refl in rw r refl
        ask-Agrees payload (q ∷ qs) ttls e =
            let r : requested unpack payload ≡ some (id, cache_key q) = rw (e, requested) refl in
            rw r (h q id t)

    run_history-told :
        (calls : List Call) (entries : List (Bytes × Entry Rest)) (past : List (Msg Rest × ℕ))
        → Agrees entries past
        → run_history unpack entries calls ≡ told_all past calls
    unfolding requested stored
    run_history-told [] entries past h = refl
    run_history-told (asked payload now ∷ calls) entries past h =
        ap₂ (λ a as'. a ∷ as')
          (elim (Option-cases (unpack payload)) [
            | inl e ↦
                let r : requested unpack payload ≡ none = rw (e, requested) refl in
                ap (λ o. expected o entries now) r ∙ sym (ap (λ o. told o now past) e)
            | inr (m, e) ↦
                ask-Agrees m.id m.rcode m.rest entries past h now payload m.question m.answer_ttls e
                ∙ sym (ap (λ o. told o now past) e)
          ])
          (run_history-told calls entries past h)
    run_history-told (answered payload now ∷ calls) entries past h =
        run_history-told calls (recorded (stored unpack payload now) entries)
          (noted (unpack payload) now past)
          (elim (Option-cases (unpack payload)) [
            | inl e ↦
                let s : stored unpack payload now ≡ none = rw (e, stored) refl in
                subst (λ o. Agrees (recorded o entries) (noted (unpack payload) now past)) (sym s)
                  (subst (λ o. Agrees entries (noted o now past)) (sym e) h)
            | inr (m, e) ↦
                subst
                  (λ o. Agrees (recorded (stored unpack payload now) entries) (noted o now past))
                  (sym e)
                  (store-Agrees m.id m.rcode m.rest entries past h now payload m.question
                    m.answer_ttls e)
          ])

    -- Over any calls in the order of their times, an empty cache answers every request for a first
    -- question with the last response before it to the same name and type that had no error code and
    -- a record, under the identification of the request, if the seconds that the first record of
    -- that response has to live are not over; otherwise it gives no answer.
    pub run_cache-history :
        (calls : List Call) (now : ℕ)
        → IsOrdered now calls
        → run_cache unpack (λ k. none) calls ≡ told_all [] calls
    unfolding Agrees
    run_cache-history calls now o =
        run_cache-empty unpack calls now o ∙ run_history-told calls [] [] (λ q id t. refl)
