-- ===== src/Engine/Live.antt =====
-- `_live_descriptor`, which every operation on a cache id starts with: its three outcomes.
use llmcache.Prelude.{
  ℕ, ap, ◌≡◌, refl, String, true, false, none, some, arith, String_discrete, Option-cases,
}
use llmcache.Results.{ok, err, cache_not_found, cache_expired}
use llmcache.Exec.{raise, ◌>>◌}
use llmcache.Types.{CacheDescriptor, is_expired}
use llmcache.Dict
use llmcache.Store.{StorageBackend}
use llmcache.Engine.State.{Env, Engine}
use llmcache.Engine.Lifecycle.{check_expired, live_descriptor, delete, exists, found_or_not}

module _ {S : Type 0} (env : Env) (store : StorageBackend S) where
  -- The engine when the deadline, if there is one, has been compared with the clock.
  abbrev pub looked : CacheDescriptor → Engine S → Engine S
  looked d e = (check_expired env store d none e).1

  pub looked-store : (d : CacheDescriptor) (e : Engine S) → (looked d e).store ≡ e.store
  unfolding check_expired
  looked-store d e = ground (arith, Option-cases d.expires_at)

  pub live-missing :
      (cid : String) (e : Engine S)
      → Dict.get String_discrete e.descriptors cid ≡ none
      → live_descriptor env store cid e ≡ (err (cache_not_found cid), e)
  unfolding live_descriptor
  live-missing cid e h = rw (h, live_descriptor) refl

  pub live-fresh :
      (cid : String) (e : Engine S) {d : CacheDescriptor}
      → Dict.get String_discrete e.descriptors cid ≡ some d
      → is_expired d none (env.time e.readings) ≡ false
      → live_descriptor env store cid e ≡ (ok d, looked d e)
  unfolding live_descriptor check_expired
  live-fresh cid e h f = rw (h, live_descriptor) (rw (f, check_expired) refl)

  pub live-expired :
      (cid : String) (e : Engine S) {d : CacheDescriptor}
      → Dict.get String_discrete e.descriptors cid ≡ some d
      → is_expired d none (env.time e.readings) ≡ true
      → live_descriptor env store cid e
        ≡ (delete env store cid >> raise (cache_expired cid)) (looked d e)
  unfolding live_descriptor check_expired
  live-expired cid e h f = rw (h, live_descriptor) (rw (f, check_expired) refl)

  -- The descriptor has not expired, whenever the clock is read.
  abbrev pub Lasts : CacheDescriptor → Type 0
  Lasts d = (n : ℕ) → is_expired d none (env.time n) ≡ false

  -- `exists` of a cache id that is found.
  pub exists_of_found :
      (cid : String) (e : Engine S) {d : CacheDescriptor}
      → Dict.get String_discrete e.descriptors cid ≡ some d
      → Lasts d
      → exists env store cid e ≡ (ok true, looked d e)
  unfolding exists found_or_not
  exists_of_found cid e found lasts =
      ap (λ r. found_or_not env store r.0 r.1) (live-fresh cid e found (lasts e.readings))

  pub looked-descriptors :
      (d : CacheDescriptor) (e : Engine S) → (looked d e).descriptors ≡ e.descriptors
  unfolding check_expired
  looked-descriptors d e = ground (arith, Option-cases d.expires_at)

  pub looked-chunk_size :
      (d : CacheDescriptor) (e : Engine S) → (looked d e).chunk_size ≡ e.chunk_size
  unfolding check_expired
  looked-chunk_size d e = ground (arith, Option-cases d.expires_at)
