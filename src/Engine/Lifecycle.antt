-- ===== src/Engine/Lifecycle.antt =====
-- src/llmcache/engine.py, everything else: lookups, loads and the life of a descriptor.
use llmcache.Prelude.{
  ℕ, zero, suc, ◌*◌, min, String, Bool, true, false, Option, none, some, List, [], ◌∷◌, length,
  range_from, String_discrete, if◌then◌else◌, ◌==◌,
}
use llmcache.Int.{ℤ, pos, ◌+ℤ◌}
use llmcache.Results.{Result, ok, err, cache_not_found, cache_expired, cache_mismatch}
use llmcache.Exec.{Exec, pure, raise, gets, modify, for_each, ◌>>=◌, ◌>>◌}
use llmcache.Types.{ChunkKey, CacheDescriptor, num_chunks, is_expired, matched_chunk_count}
use llmcache.Payload.{KvPayload}
use llmcache.Dict
use llmcache.Dict.{Dict}
use llmcache.Store.{StorageBackend, StoreStats}
use llmcache.Engine.Register.{chunk_key}
use llmcache.Engine.State.{Env, Engine, LookupResult, on_store, lifted, read_clock}

-- `not now`, of a time.
abbrev pub is_falsy : ℤ → Bool
is_falsy (pos zero) = true
is_falsy _ = false

-- `self._descriptors[cid] = d`, for an object that is there already: the update of its fields.
abbrev pub update : {S : Type 0} → String → CacheDescriptor → Engine S → Engine S
update cid d e = record e { descriptors = Dict.put String_discrete e.descriptors cid d }

-- `d.num_chunks if num_chunks is None else min(num_chunks, d.num_chunks)`
abbrev pub chunks_wanted : Option ℕ → CacheDescriptor → ℕ
chunks_wanted none d = num_chunks d
chunks_wanted (some n) d = min n (num_chunks d)

module _ (env : Env) {S : Type 0} (store : StorageBackend S) where
  -- `for worker in workers: for idx in range(chunks): ...`
  unfoldable pub each_chunk :
      (ChunkKey → Exec (Engine S) (Unit {0})) → String → List ℕ → ℕ → Exec (Engine S) (Unit {0})
  unfolding for_each
  each_chunk body cid workers chunks =
      for_each workers
        λ worker. for_each (range_from 0 chunks) λ idx. body (chunk_key cid idx worker)

  unfoldable pub delete_chunks : String → CacheDescriptor → Exec (Engine S) (Unit {0})
  unfolding each_chunk
  delete_chunks cid d =
      each_chunk (λ k. on_store (store.remove k) >>= λ _. pure tt) cid d.worker_ids (num_chunks d)

  unfoldable pub delete : String → Exec (Engine S) (Unit {0})
  unfolding delete_chunks
  delete cid e = elim (Dict.get String_discrete e.descriptors cid) [
    | none ↦ (ok tt, e)
    | some d ↦
        delete_chunks cid d
          (record e { descriptors = Dict.remove String_discrete e.descriptors cid })
  ]

  -- `d.is_expired(now)`
  unfoldable pub check_expired : CacheDescriptor → Option ℤ → Exec (Engine S) Bool
  unfolding is_expired
  check_expired d now e = (
    ok (is_expired d now (env.time e.readings)),
    elim d.expires_at [
      | none ↦ e
      | some _ ↦ elim now [
        | none ↦ record e { readings = suc e.readings }
        | some t ↦ if is_falsy t then record e { readings = suc e.readings } else e
      ]
    ],
  )

  unfoldable pub live_descriptor : String → Exec (Engine S) CacheDescriptor
  unfolding check_expired delete
  live_descriptor cid e = elim (Dict.get String_discrete e.descriptors cid) [
    | none ↦ (err (cache_not_found cid), e)
    | some d ↦
        (check_expired d none >>= λ expired.
        if expired then delete cid >> raise (cache_expired cid) else pure d)
          e
  ]

  unfoldable pub get : String → Exec (Engine S) CacheDescriptor
  unfolding live_descriptor
  get = live_descriptor

  -- `except (CacheNotFoundError, CacheExpiredError): return False`
  unfoldable pub found_or_not : Result CacheDescriptor → Exec (Engine S) Bool
  found_or_not (ok _) e = (ok true, e)
  found_or_not (err (cache_not_found _)) e = (ok false, e)
  found_or_not (err (cache_expired _)) e = (ok false, e)
  found_or_not (err x) e = (err x, e)

  unfoldable pub exists : String → Exec (Engine S) Bool
  unfolding live_descriptor found_or_not
  exists cid e = found_or_not (live_descriptor cid e).0 (live_descriptor cid e).1

  unfoldable pub count_reusable : Option (List ℤ) → CacheDescriptor → Result ℕ
  count_reusable none d = ok (num_chunks d)
  count_reusable (some request_tokens) d = matched_chunk_count env.digest request_tokens d

  unfoldable pub lookup_result : String → CacheDescriptor → ℕ → LookupResult
  lookup_result cid d matched =
      if matched == num_chunks d
      then record { cache_id = cid; num_tokens = d.num_tokens; num_chunks = matched; full = true }
      else record {
        cache_id = cid;
        num_tokens = matched * d.chunk_size;
        num_chunks = matched;
        full = false;
      }

  unfoldable pub lookup : String → Option (List ℤ) → Exec (Engine S) LookupResult
  unfolding live_descriptor count_reusable lookup_result
  lookup cid request_tokens = do
    d ← live_descriptor cid
    matched ← lifted (count_reusable request_tokens d)
    now ← read_clock env
    modify (update cid (record d { hits = suc d.hits; last_used_at = some now }))
    pure (lookup_result cid d matched)

  -- The loop of `load`.
  unfoldable pub load_chunks : String → ℕ → List ℕ → Exec (Engine S) (List KvPayload)
  load_chunks cid worker [] = pure []
  load_chunks cid worker (idx ∷ indices) = do
    found ← on_store (store.get (chunk_key cid idx worker))
    payload ←
        lifted
          (elim found [ none ↦ err (cache_mismatch cid idx worker) | some payload ↦ ok payload ])
    payloads ← load_chunks cid worker indices
    pure (payload ∷ payloads)

  unfoldable pub load : String → Option ℕ → ℕ → Exec (Engine S) (List KvPayload)
  unfolding live_descriptor load_chunks
  load cid wanted worker = do
    d ← live_descriptor cid
    load_chunks cid worker (range_from 0 (chunks_wanted wanted d))

  unfoldable pub extend_ttl : String → ℤ → Exec (Engine S) CacheDescriptor
  unfolding live_descriptor
  extend_ttl cid ttl = do
    d ← live_descriptor cid
    now ← read_clock env
    let d' = record d { expires_at = some (now +ℤ ttl) }
    modify (update cid d')
    pure d'

  unfoldable pub pin : String → Exec (Engine S) (Unit {0})
  unfolding live_descriptor each_chunk
  pin cid = do
    d ← live_descriptor cid
    modify (update cid (record d { pinned = true }))
    each_chunk (λ k. on_store (store.pin k)) cid d.worker_ids (num_chunks d)

  unfoldable pub unpin : String → Exec (Engine S) (Unit {0})
  unfolding live_descriptor each_chunk
  unpin cid = do
    d ← live_descriptor cid
    modify (update cid (record d { pinned = false }))
    each_chunk (λ k. on_store (store.unpin k)) cid d.worker_ids (num_chunks d)

  -- `[c for c in self._descriptors.values() if c.is_expired(now)]`
  unfoldable pub expired_among : ℤ → List CacheDescriptor → Exec (Engine S) (List CacheDescriptor)
  unfolding check_expired
  expired_among now [] = pure []
  expired_among now (d ∷ ds) = do
    expired ← check_expired d (some now)
    rest ← expired_among now ds
    pure (if expired then d ∷ rest else rest)

  unfoldable pub sweep_expired : Exec (Engine S) ℕ
  unfolding expired_among delete for_each
  sweep_expired = do
    now ← read_clock env
    ds ← gets (λ e. Dict.values e.descriptors)
    expired ← expired_among now ds
    for_each expired λ d. delete d.cache_id
    pure (length expired)

  unfoldable pub list : Exec (Engine S) (List CacheDescriptor)
  unfolding sweep_expired
  list = do _ ← sweep_expired; gets (λ e. Dict.values e.descriptors)

  unfoldable pub stats : Exec (Engine S) StoreStats
  stats = on_store store.stats
