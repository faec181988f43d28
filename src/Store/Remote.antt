-- ===== src/Store/Remote.antt =====
-- src/llmcache/store/remote.py: `RedisBackend`. The client of Redis and its server are parameters:
-- a call of the client may change the server's state and may raise.
pub mod Names
pub mod Promises
use llmcache.Prelude.{
  ℕ, suc, ◌+◌, ◌≡◌, String, Bool, true, false, not, Option, none, some, List, [], ◌∷◌, ◌++◌, length,
  drop, ◌==◌, if◌then◌else◌,
}
use llmcache.Results.{Result, ok, err, value_error}
use llmcache.Exec.{Exec, pure, lift, ◌>>=◌, ◌>>◌}
use llmcache.Text.{Chars, chars, from_chars, starts_with, split_last, decimal, int_of}
use llmcache.Types.{ChunkKey, key_from}
use llmcache.Payload.{KvPayload}
use llmcache.Payload.Framing.{JsonCodec, pack_payload, read}
use llmcache.Store.{StorageBackend, StoreStats}

-- The part of redis-py that the module's comment names.
pub record RedisClient (R : Type 0) : Type 0 where
  pub set : String → List ℕ → Option ℕ → Exec R (Unit {0})
  pub get : String → Exec R (Option (List ℕ))
  pub delete : String → Exec R ℕ
  pub exists : String → Exec R ℕ
  pub scan_iter : String → Exec R (List String)
  pub persist : String → Exec R (Unit {0})
  pub expire : String → ℕ → Exec R (Unit {0})

pub record Redis (R : Type 0) : Type 0 where
  pub client : RedisClient R
  pub namespace : String
  pub key_ttl : Option ℕ

-- `__init__`; `connect` imports `redis`, which may fail, and calls `from_url`.
module _ {R : Type 0} (connect : String → Result (RedisClient R)) where
  unfoldable pub choose_client : Option (RedisClient R) → Option String → Result (RedisClient R)
  choose_client (some client) url = ok client
  choose_client none none = err value_error
  choose_client none (some url) = connect url

  unfoldable pub init :
      Option (RedisClient R) → Option String → String → Option ℕ → Result (Redis R)
  unfolding choose_client
  init client url namespace key_ttl =
      llmcache.Results.◌>>=◌ (choose_client client url)
        λ client. ok (record { client = client; namespace = namespace; key_ttl = key_ttl })

-- "{namespace}:"
abbrev pub prefix_of : String → Chars
prefix_of namespace = chars namespace ++ ":" ∷ []

-- "{cache_id}:{worker_id}:{chunk_index}"
unfoldable pub rest_of : ChunkKey → Chars
rest_of key = (chars key.cache_id ++ ":" ∷ decimal key.worker_id) ++ ":" ∷ decimal key.chunk_index

-- `_name`
unfoldable pub name_of : String → ChunkKey → String
unfolding rest_of
name_of namespace key = from_chars (prefix_of namespace ++ rest_of key)

-- `rest.rsplit(":", 2)`, and the key of its three parts
abbrev pub last_parts : Chars → Option (Chars × Chars) → Option ChunkKey
last_parts chunk_s none = none
last_parts chunk_s (some (cid, worker_s)) =
    key_from (from_chars cid) (int_of worker_s) (int_of chunk_s)

abbrev pub all_parts : Option (Chars × Chars) → Option ChunkKey
all_parts none = none
all_parts (some (front, chunk_s)) = last_parts chunk_s (split_last ":" front)

-- `_parse`, of a decoded name
unfoldable pub parse : String → String → Option ChunkKey
parse namespace name =
    if starts_with (chars name) (prefix_of namespace)
    then all_parts (split_last ":" (drop (length (chars namespace) + 1) (chars name)))
    else none

abbrev pub parsed_names : String → List String → List ChunkKey
parsed_names namespace [] = []
parsed_names namespace (name ∷ names) = elim (parse namespace name) [
  | none ↦ parsed_names namespace names
  | some k ↦ k ∷ parsed_names namespace names
]

module _ {R : Type 0} (json : JsonCodec) (redis : Redis R) where
  open redis use {client, namespace, key_ttl}

  unfoldable pub put : ChunkKey → KvPayload → Bool → Exec R (Unit {0})
  put key object pin = do
    blob ← lift (pack_payload json object)
    client.set (name_of namespace key) blob (if pin then none else key_ttl)
    if pin then client.persist (name_of namespace key) else pure tt

  unfoldable pub get : ChunkKey → Exec R (Option KvPayload)
  get key = do blob ← client.get (name_of namespace key); lift (read json blob)

  unfoldable pub contains : ChunkKey → Exec R Bool
  contains key = do n ← client.exists (name_of namespace key); pure (not (n == 0))

  unfoldable pub remove : ChunkKey → Exec R Bool
  remove key = do n ← client.delete (name_of namespace key); pure (not (n == 0))

  unfoldable pub pin : ChunkKey → Exec R (Unit {0})
  pin key = client.persist (name_of namespace key)

  unfoldable pub unpin : ChunkKey → Exec R (Unit {0})
  unpin key = elim key_ttl [ none ↦ pure tt | some ttl ↦ client.expire (name_of namespace key) ttl ]

  unfoldable pub keys : Exec R (List ChunkKey)
  unfolding parse
  keys = do
    names ← client.scan_iter (from_chars (prefix_of namespace ++ "*" ∷ []))
    pure (parsed_names namespace names)

  -- The loop of `stats`.
  unfoldable pub measure : List ChunkKey → ℕ → ℕ → Exec R (ℕ × ℕ)
  measure [] used n = pure (used, n)
  measure (key ∷ ks) used n = do
    found ← client.get (name_of namespace key)
    elim found [ none ↦ measure ks used n | some blob ↦ measure ks (used + length blob) (suc n) ]

  unfoldable pub stats : Exec R StoreStats
  unfolding keys measure
  stats = do
    ks ← keys
    measured ← measure ks 0 0
    pure (record {
      num_objects = measured.1;
      used_bytes = measured.0;
      capacity_bytes = none;
      pinned_objects = 0;
      pinned_bytes = 0;
    })

  unfoldable pub backend : StorageBackend R
  unfolding put get contains remove pin unpin keys stats
  backend = record {
    put = put;
    get = get;
    contains = contains;
    remove = remove;
    pin = pin;
    unpin = unpin;
    keys = keys;
    stats = stats;
  }
