-- ===== src/Control/Answers.antt =====
-- The answers of the server about one cache.
use llmcache.Prelude.{◌≡◌, ap, ◌∙◌, String, true, false, none, some, String_discrete}
use llmcache.Results.{ok, err, cache_not_found, cache_expired}
use llmcache.Types.{CacheDescriptor, is_expired}
use llmcache.Dict
use llmcache.Store.{StorageBackend}
use llmcache.Engine.State.{Env, Engine}
use llmcache.Engine.Lifecycle
use llmcache.Engine.Lifecycle.{live_descriptor, extend_ttl, update}
use llmcache.Engine.Live.{looked, live-missing, live-fresh}
use llmcache.Engine.Expiry.{Removes, get-expired}
use llmcache.Control.{send, cache, no_cache, gone, descriptor_to_dict, cache_reply, with_cache}

module _ {S : Type 0} (env : Env) (store : StorageBackend S) where
  pub with_cache-missing :
      (cid : String) (e : Engine S)
      → Dict.get String_discrete e.descriptors cid ≡ none
      → with_cache env store cid e ≡ (ok (send 404 (no_cache cid)), e)
  unfolding with_cache Lifecycle.get cache_reply
  with_cache-missing cid e h =
      ap (λ r. cache_reply env store cid r.0 r.1) (live-missing env store cid e h)

  pub with_cache-fresh :
      (cid : String) (e : Engine S) {d : CacheDescriptor}
      → Dict.get String_discrete e.descriptors cid ≡ some d
      → is_expired d none (env.time e.readings) ≡ false
      → with_cache env store cid e
        ≡ (ok (send 200 (cache (descriptor_to_dict d))), looked env store d e)
  unfolding with_cache Lifecycle.get cache_reply
  with_cache-fresh cid e h f =
      ap (λ r. cache_reply env store cid r.0 r.1) (live-fresh env store cid e h f)

  with_cache-raised :
      (cid : String) (e : Engine S)
      → (Lifecycle.get env store cid e).0 ≡ err (cache_expired cid)
      → with_cache env store cid e ≡ (ok (send 410 (gone cid)), (Lifecycle.get env store cid e).1)
  unfolding with_cache cache_reply
  with_cache-raised cid e h =
      ap (λ r. cache_reply env store cid r (Lifecycle.get env store cid e).1) h

  with_cache-not_found :
      (cid : String) (e : Engine S)
      → (Lifecycle.get env store cid e).0 ≡ err (cache_not_found cid)
      → (with_cache env store cid e).0 ≡ ok (send 404 (no_cache cid))
  unfolding with_cache cache_reply
  with_cache-not_found cid e h =
      ap (λ r. (cache_reply env store cid r (Lifecycle.get env store cid e).1).0) h

  -- Asked for a cache id, the server answers 404 if there is no descriptor under it, 200 with the
  -- descriptor's dictionary if it is not past its deadline, and 410 if it is, the first time: then
  -- the next answer is 404. For the last, the store's `remove` is not to raise.
  pub with_cache-codes :
      (cid : String) (e : Engine S)
      → Removes env store
      → (Dict.get String_discrete e.descriptors cid ≡ none
          → (with_cache env store cid e).0 ≡ ok (send 404 (no_cache cid)))
        × ((d : CacheDescriptor)
            → Dict.get String_discrete e.descriptors cid ≡ some d
            → (is_expired d none (env.time e.readings) ≡ false
                → (with_cache env store cid e).0 ≡ ok (send 200 (cache (descriptor_to_dict d))))
              × (is_expired d none (env.time e.readings) ≡ true
                  → ((with_cache env store cid e).0 ≡ ok (send 410 (gone cid)))
                    × ((with_cache env store cid (with_cache env store cid e).1).0
                        ≡ ok (send 404 (no_cache cid)))))
  with_cache-codes cid e removes = (
    λ missing. ap (λ r. r.0) (with_cache-missing cid e missing),
    λ d found. (
      λ fresh. ap (λ r. r.0) (with_cache-fresh cid e found fresh),
      λ late.
          let (raises, _, next) = get-expired env store cid e removes found late in
          let step = with_cache-raised cid e raises in
          (
            ap (λ r. r.0) step,
            ap (λ r. (with_cache env store cid r.1).0) step
                ∙ with_cache-not_found cid (Lifecycle.get env store cid e).1 next,
          ),
    ),
  )
