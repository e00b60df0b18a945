-- ===== src/Tun/Dns.antt =====
-- gotun2socks/tun2socks/udp.go, dnsCache: the answers of name servers, kept as long as the first
-- record of each allows. Package dns, which unpacks a message, is a parameter.
pub mod History
use go_game_proxy.Prelude.{
  ℕ, ◌+◌, ◌*◌, ◌/◌, ◌%◌, Bool, true, false, not, ◌||◌, Option, none, some, List, [], ◌∷◌, ◌++◌,
  Bytes, ltb, ◌==◌, if◌then◌else◌, u8,
}
use go_game_proxy.Prelude.Bytes.{same_bytes}

-- `dns.Question`
pub record Question : Type 0 where
  pub name : Bytes
  pub qtype : ℕ

-- `dns.Msg`, as far as the cache looks at it: of the answers it reads the time to live.
pub record Msg (Rest : Type 0) : Type 0 where
  pub id : ℕ
  pub rcode : ℕ
  pub question : List Question
  pub answer_ttls : List ℕ
  pub rest : Rest

-- `dnsCacheEntry`, with its times in nanoseconds.
pub record Entry (Rest : Type 0) : Type 0 where
  pub msg : Msg Rest
  pub exp : ℕ

-- `packUint16`
abbrev pub pack_uint16 : ℕ → Bytes
pack_uint16 i = u8 (i / 256) ∷ u8 i ∷ []

-- `cacheKey`
abbrev pub cache_key : Question → Bytes
cache_key q = q.name ++ pack_uint16 q.qtype

-- `isDNS`
abbrev pub is_dns : ℕ → Bool
is_dns remote_port = remote_port == 53

-- The map `storage`.
abbrev pub Storage : Type 0 → Type 0
Storage Rest = Bytes → Option (Entry Rest)

module _ {Rest : Type 0} where
  abbrev pub put_entry : Bytes → Option (Entry Rest) → Storage Rest → Storage Rest
  put_entry key entry storage k = if same_bytes key k then entry else storage k

  abbrev pub with_id : ℕ → Msg Rest → Msg Rest
  with_id id msg = record msg { id = id }

  -- What `query` does with the entry of a key: an answer gets the identification of the request,
  -- also where it is stored.
  unfoldable pub look_up :
      Option (Entry Rest) → Bytes → ℕ → ℕ → Storage Rest → Storage Rest × Option (Msg Rest)
  look_up none key id now storage = (storage, none)
  look_up (some entry) key id now storage =
      if ltb entry.exp now then (put_entry key none storage, none) else (
        put_entry key (some (record entry { msg = with_id id entry.msg })) storage,
        some (with_id id entry.msg),
      )

  -- The same for a request, if there is one.
  unfoldable pub answer_request :
      Option (ℕ × Bytes) → ℕ → Storage Rest → Storage Rest × Option (Msg Rest)
  answer_request none now storage = (storage, none)
  answer_request (some r) now storage = look_up (storage r.1) r.1 r.0 now storage

  unfoldable pub keep : Option (Bytes × Entry Rest) → Storage Rest → Storage Rest
  keep none storage = storage
  keep (some kept) storage = put_entry kept.0 (some kept.1) storage

  module _ (unpack : Bytes → Option (Msg Rest)) where
    -- The question that `query` asks for.
    unfoldable pub requested : Bytes → Option (ℕ × Bytes)
    requested payload = elim (unpack payload) [
      | none ↦ none
      | some request ↦ elim request.question [ [] ↦ none | q ∷ qs ↦ some (request.id, cache_key q) ]
    ]

    -- `query`
    unfoldable pub query : Storage Rest → Bytes → ℕ → Storage Rest × Option (Msg Rest)
    query storage payload now = answer_request (requested payload) now storage

    -- The key and the entry that `store` makes of a response, if it takes it.
    unfoldable pub stored : Bytes → ℕ → Option (Bytes × Entry Rest)
    stored payload now = elim (unpack payload) [
      | none ↦ none
      | some resp ↦ if not (resp.rcode == 0) then none else elim resp.question [
        | [] ↦ none
        | q ∷ qs ↦ elim resp.answer_ttls [
          | [] ↦ none
          | ttl ∷ ttls ↦ some (cache_key q, record { msg = resp; exp = now + ttl * 1000000000 })
        ]
      ]
    ]

    -- `store`
    unfoldable pub store : Storage Rest → Bytes → ℕ → Storage Rest
    store storage payload now = keep (stored payload now) storage
