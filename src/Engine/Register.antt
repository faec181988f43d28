-- ===== src/Engine/Register.antt =====
-- src/llmcache/engine.py, registration: `register`, `put_chunk`, `commit` and what they call.
use llmcache.Prelude.{
  ℕ, suc, ◌+◌, max, String, Bool, Option, none, some, List, [], ◌∷◌, length, ite, String_discrete,
  if◌then◌else◌, leb, ◌==◌,
}
use llmcache.Int.{ℤ, ◌+ℤ◌}
use llmcache.Results.{Result, ok, err, value_error}
use llmcache.Exec.{Exec, pure, gets, modify, ◌>>=◌, ◌>>◌}
use llmcache.Types.{ChunkKey, CacheDescriptor, chunk_token_ids}
use llmcache.Types.Matching.{fingerprints}
use llmcache.Payload.{KvPayload}
use llmcache.Dict
use llmcache.Dict.{Dict}
use llmcache.Store.{StorageBackend}
use llmcache.Engine.State.{Env, Engine, on_store, lifted, read_clock}

-- `PayloadsByWorker`: a sequence, or a mapping from worker ids.
pub data Payloads : Type 0 where
  single : List KvPayload → Payloads
  by_worker : Dict ℕ (List KvPayload) → Payloads

unfoldable pub normalize_payloads : Payloads → Dict ℕ (List KvPayload)
normalize_payloads (single payloads) = (0, payloads) ∷ []
normalize_payloads (by_worker payloads) = payloads

-- `register`: every worker has a payload for every chunk.
unfoldable pub check_counts : ℕ → Dict ℕ (List KvPayload) → Result (Unit {0})
check_counts expected [] = ok tt
check_counts expected ((w, chunks) ∷ rest) =
    if length chunks == expected then check_counts expected rest else err value_error

-- `sorted`, of worker ids.
unfoldable pub insert_sorted : ℕ → List ℕ → List ℕ
insert_sorted w [] = w ∷ []
insert_sorted w (v ∷ vs) = if leb w v then w ∷ v ∷ vs else v ∷ insert_sorted w vs

unfoldable pub sorted : List ℕ → List ℕ
unfolding insert_sorted
sorted [] = []
sorted (w ∷ ws) = insert_sorted w (sorted ws)

-- `sum(len(c) for c in token_chunks)`
unfoldable pub total_tokens : List (List ℤ) → ℕ
total_tokens [] = 0
total_tokens (c ∷ cs) = length c + total_tokens cs

abbrev pub chunk_key : String → ℕ → ℕ → ChunkKey
chunk_key cid idx worker = record { cache_id = cid; chunk_index = idx; worker_id = worker }

-- `__init__`
unfoldable pub init : {S : Type 0} → S → ℕ → Option ℤ → Result (Engine S)
init store chunk_size default_ttl =
    if chunk_size == 0
    then err value_error
    else ok (record {
      store = store;
      chunk_size = chunk_size;
      default_ttl = default_ttl;
      descriptors = [];
      readings = 0;
      ids = 0;
    })

-- `ttl if ttl is not None else self.default_ttl`
abbrev pub effective_ttl : Option ℤ → Option ℤ → Option ℤ
effective_ttl (some ttl) _ = some ttl
effective_ttl none default = default

abbrev pub deadline : ℤ → Option ℤ → Option ℤ
deadline now none = none
deadline now (some ttl) = some (now +ℤ ttl)

module _ (env : Env) {S : Type 0} (store : StorageBackend S) where
  -- `cache_id or CacheDescriptor.new_id()`
  unfoldable pub fresh_id : Exec (Engine S) String
  fresh_id e = (ok (env.new_id e.ids), record e { ids = suc e.ids })

  unfoldable pub choose_id : Option String → Exec (Engine S) String
  unfolding fresh_id
  choose_id none = fresh_id
  choose_id (some cid) = ite (String_discrete cid "") fresh_id (pure cid)

  -- The inner loop of `register`; `layers` is the running `num_layers`.
  unfoldable pub put_worker : String → ℕ → Bool → ℕ → ℕ → List KvPayload → Exec (Engine S) ℕ
  put_worker cid worker pin idx layers [] = pure layers
  put_worker cid worker pin idx layers (payload ∷ payloads) = do
    on_store (store.put (chunk_key cid idx worker) payload pin)
    put_worker cid worker pin (suc idx) (max layers payload.num_layers) payloads

  unfoldable pub put_workers : String → Bool → ℕ → Dict ℕ (List KvPayload) → Exec (Engine S) ℕ
  unfolding put_worker
  put_workers cid pin layers [] = pure layers
  put_workers cid pin layers ((worker, payloads) ∷ rest) = do
    layers' ← put_worker cid worker pin 0 layers payloads
    put_workers cid pin layers' rest

  -- `_build_descriptor`
  unfoldable pub build_descriptor :
      String
      → List (List ℤ)
      → ℕ
      → List ℕ
      → Option ℤ
      → Bool
      → Option String
      → Exec (Engine S) CacheDescriptor
  unfolding total_tokens
  build_descriptor cid token_chunks layers workers ttl pin name = do
    now ← read_clock env
    fps ← lifted (fingerprints env.digest token_chunks)
    e ← gets (λ e. e)
    pure (record {
      cache_id = cid;
      num_tokens = total_tokens token_chunks;
      chunk_size = e.chunk_size;
      num_layers = layers;
      worker_ids = workers;
      created_at = now;
      expires_at = deadline now (effective_ttl ttl e.default_ttl);
      pinned = pin;
      chunk_fingerprints = fps;
      name = name;
      hits = 0;
      last_used_at = none;
    })

  -- `self._descriptors[d.cache_id] = d`
  unfoldable pub save_descriptor : String → CacheDescriptor → Engine S → Engine S
  save_descriptor cid d e = record e { descriptors = Dict.put String_discrete e.descriptors cid d }

  unfoldable pub register :
      List ℤ
      → Payloads
      → Option String
      → Option ℤ
      → Bool
      → Option String
      → Exec (Engine S) CacheDescriptor
  unfolding normalize_payloads check_counts choose_id put_workers build_descriptor save_descriptor
      sorted
  register token_ids payloads cache_id ttl pin name = do
    chunk_size ← gets (λ e. e.chunk_size)
    token_chunks ← lifted (chunk_token_ids token_ids chunk_size)
    lifted (check_counts (length token_chunks) (normalize_payloads payloads))
    cid ← choose_id cache_id
    layers ← put_workers cid pin 0 (normalize_payloads payloads)
    d ←
        build_descriptor cid token_chunks layers (sorted (Dict.keys (normalize_payloads payloads)))
          ttl pin name
    modify (save_descriptor cid d)
    pure d

  unfoldable pub put_chunk : String → ℕ → KvPayload → ℕ → Bool → Exec (Engine S) (Unit {0})
  put_chunk cid idx payload worker pin = on_store (store.put (chunk_key cid idx worker) payload pin)

  unfoldable pub commit :
      String
      → List ℤ
      → ℕ
      → List ℕ
      → Option ℤ
      → Bool
      → Option String
      → Exec (Engine S) CacheDescriptor
  unfolding build_descriptor save_descriptor sorted
  commit cid token_ids layers workers ttl pin name = do
    chunk_size ← gets (λ e. e.chunk_size)
    token_chunks ← lifted (chunk_token_ids token_ids chunk_size)
    d ← build_descriptor cid token_chunks layers (sorted workers) ttl pin name
    modify (save_descriptor cid d)
    pure d
