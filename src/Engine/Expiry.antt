-- ===== src/Engine/Expiry.antt =====
-- An expired cache id is removed by the first operation that looks at it.
use llmcache.Prelude.{
  ◌≡◌, refl, ap, ◌∙◌, String, Bool, true, false, none, some, arith, inl, inr, range_from,
  String_discrete, Option-cases, Bool-cases,
}
use llmcache.Results.{
  Result, ok, err, cache_error, cache_not_found, cache_expired, cache_mismatch, storage_full,
  serialization_error, connector_error, value_error, key_error, overflow_error, runtime_error,
  zero_division_error, type_error, system_exit,
}
use llmcache.Exec.{continue-keeps, raise, continue, for_each-returns, ◌>>◌}
use llmcache.Types.{CacheDescriptor, ChunkKey, num_chunks, is_expired}
use llmcache.Dict
use llmcache.Store.{StorageBackend}
use llmcache.Engine.State.{Env, Engine}
use llmcache.Engine.Register.{chunk_key}
use llmcache.Engine.Lifecycle.{
  each_chunk, delete_chunks, delete, check_expired, live_descriptor, get, exists, found_or_not,
}
use llmcache.Engine.Live.{looked, live-missing, live-fresh, live-expired}
use llmcache.Engine.Removal.{get-delete, delete-chunk_size}

module _ {S : Type 0} (env : Env) (store : StorageBackend S) where
  -- Removing from the store does not raise.
  abbrev pub Removes : Type 0
  Removes = (k : ChunkKey) (s : S) → (b : Bool) × ((store.remove k s).0 ≡ ok b)

  pub delete-returns : Removes → (cid : String) (e : Engine S) → (delete env store cid e).0 ≡ ok tt
  unfolding delete delete_chunks each_chunk
  delete-returns removes cid e = elim (Option-cases (Dict.get String_discrete e.descriptors cid)) [
    | inl n ↦ rw (n, delete) refl
    | inr (d, f) ↦
        rw (f, delete)
          (for_each-returns d.worker_ids _ _ λ worker t.
            for_each-returns (range_from 0 (num_chunks d)) _ t
              λ idx u. let (b, h) = removes (chunk_key cid idx worker) u.store in rw h refl)
  ]

  pub looked-descriptors :
      (d : CacheDescriptor) (e : Engine S) → (looked env store d e).descriptors ≡ e.descriptors
  unfolding check_expired
  looked-descriptors d e = ground (arith, Option-cases d.expires_at)

  looked-chunk_size :
      (d : CacheDescriptor) (e : Engine S) → (looked env store d e).chunk_size ≡ e.chunk_size
  unfolding check_expired
  looked-chunk_size d e = ground (arith, Option-cases d.expires_at)

  -- When a descriptor is past its deadline and the store's `remove` does not raise, the first call
  -- that looks at the cache id, `get` for one, raises `CacheExpiredError`, `exists` answers no, and
  -- the descriptor is gone, so that a later call raises `CacheNotFoundError`.
  pub get-expired :
      (cid : String) (e : Engine S) {d : CacheDescriptor}
      → Removes
      → Dict.get String_discrete e.descriptors cid ≡ some d
      → is_expired d none (env.time e.readings) ≡ true
      → ((get env store cid e).0 ≡ err (cache_expired cid))
        × ((exists env store cid e).0 ≡ ok false)
        × ((get env store cid (get env store cid e).1).0 ≡ err (cache_not_found cid))
  unfolding get exists found_or_not
  get-expired cid e {d} removes found late = (
    raises,
    ap (λ r. (found_or_not env store r (live_descriptor env store cid e).1).0) raises,
    ap (λ r. r.0) (live-missing env store cid after gone),
  )
    where
      after : Engine S
      after = (live_descriptor env store cid e).1

      steps :
          live_descriptor env store cid e
          ≡ (delete env store cid >> raise (cache_expired cid)) (looked env store d e)
      steps = live-expired env store cid e found late

      outcome :
          ◌>>◌ {B = CacheDescriptor}
            (delete env store cid)
            (raise (cache_expired cid))
            (looked env store d e)
          ≡ (err (cache_expired cid), (delete env store cid (looked env store d e)).1)
      outcome =
          ap
            (λ (r : Result (Unit {0})).
              continue {B = CacheDescriptor} r (λ _. raise (cache_expired cid))
                (delete env store cid (looked env store d e)).1)
            (delete-returns removes cid (looked env store d e))

      raises : (live_descriptor env store cid e).0 ≡ err (cache_expired cid)
      raises = ap (λ r. r.0) (steps ∙ outcome)

      gone : Dict.get String_discrete after.descriptors cid ≡ none
      gone =
          ap (λ r. Dict.get String_discrete r.1.descriptors cid) (steps ∙ outcome)
          ∙ get-delete env store cid cid (looked env store d e)
          ∙ ground arith

  live_descriptor-chunk_size :
      (cid : String) (e : Engine S) → (live_descriptor env store cid e).1.chunk_size ≡ e.chunk_size
  live_descriptor-chunk_size cid e =
      elim (Option-cases (Dict.get String_discrete e.descriptors cid)) [
        | inl n ↦ ap (λ r. r.1.chunk_size) (live-missing env store cid e n)
        | inr (d, f) ↦ elim (Bool-cases (is_expired d none (env.time e.readings))) [
          | inr fresh ↦
              ap (λ r. r.1.chunk_size) (live-fresh env store cid e f fresh) ∙ looked-chunk_size d e
          | inl old ↦
              let t = looked env store d e in
              let same = delete-chunk_size env store cid t ∙ looked-chunk_size d e in
              ap (λ r. r.1.chunk_size) (live-expired env store cid e f old)
              ∙ continue-keeps {B = CacheDescriptor} (λ (u : Engine S). u.chunk_size ≡ e.chunk_size)
                  (delete env store cid t).0 (λ _. raise (cache_expired cid))
                  (delete env store cid t).1 same λ _. same
        ]
      ]

  pub found_or_not-state :
      (r : Result CacheDescriptor) (e : Engine S) → (found_or_not env store r e).1 ≡ e
  unfolding found_or_not
  found_or_not-state (ok d) e = refl
  found_or_not-state (err cache_error) e = refl
  found_or_not-state (err (cache_not_found cid)) e = refl
  found_or_not-state (err (cache_expired cid)) e = refl
  found_or_not-state (err (cache_mismatch cid i w)) e = refl
  found_or_not-state (err storage_full) e = refl
  found_or_not-state (err serialization_error) e = refl
  found_or_not-state (err connector_error) e = refl
  found_or_not-state (err value_error) e = refl
  found_or_not-state (err key_error) e = refl
  found_or_not-state (err type_error) e = refl
  found_or_not-state (err system_exit) e = refl
  found_or_not-state (err overflow_error) e = refl
  found_or_not-state (err runtime_error) e = refl
  found_or_not-state (err zero_division_error) e = refl

  pub exists-chunk_size :
      (cid : String) (e : Engine S) → (exists env store cid e).1.chunk_size ≡ e.chunk_size
  unfolding exists
  exists-chunk_size cid e =
      ap (λ (t : Engine S). t.chunk_size)
        (found_or_not-state (live_descriptor env store cid e).0 (live_descriptor env store cid e).1)
      ∙ live_descriptor-chunk_size cid e
