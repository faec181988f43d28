-- ===== src/Control/Deadlines.antt =====
-- `POST /v1/caches/{id}/ttl`: the new deadline, and what becomes of one that has passed already.
use llmcache.Prelude.{
  suc, ◌≡◌, refl, ap, ◌∙◌, String, true, false, none, some, arith, String_discrete, if_pos,
}
use llmcache.Int.{ℤ, ◌+ℤ◌, ◌≤ℤ◌, pos, +ℤ_parts}
use llmcache.Results.{Result, ok, err, cache_expired}
use llmcache.Exec.{continue, pure, ◌>>=◌}
use llmcache.Types.{CacheDescriptor, is_expired, or_clock}
use llmcache.Dict
use llmcache.Store.{StorageBackend}
use llmcache.Engine.State.{Env, Engine}
use llmcache.Engine.Lifecycle
use llmcache.Engine.Lifecycle.{live_descriptor, extend_ttl, update}
use llmcache.Engine.Live.{looked, live-fresh}
use llmcache.Engine.Expiry.{Removes, get-expired}
use llmcache.Control.{
  Body, Response, send, cache, descriptor_to_dict, act, mutate_reply, mutate, required,
}
use llmcache.Control.Routes

module _ {S : Type 0} (env : Env) (store : StorageBackend S) where
  -- The descriptor with a deadline `seconds` after the reading of the clock that follows the check.
  abbrev pub extended : CacheDescriptor → ℤ → Engine S → CacheDescriptor
  extended d seconds e = record d {
    expires_at = some (env.time (looked env store d e).readings +ℤ seconds);
  }

  abbrev pub after_extend : String → CacheDescriptor → ℤ → Engine S → Engine S
  after_extend cid d seconds e =
      update cid (extended d seconds e)
        (record (looked env store d e) { readings = suc (looked env store d e).readings })

  extend_ttl-fresh :
      (cid : String) (seconds : ℤ) (e : Engine S) {d : CacheDescriptor}
      → Dict.get String_discrete e.descriptors cid ≡ some d
      → is_expired d none (env.time e.readings) ≡ false
      → extend_ttl env store cid seconds e
        ≡ (ok (extended d seconds e), after_extend cid d seconds e)
  unfolding extend_ttl
  extend_ttl-fresh cid seconds e {d} found fresh =
      ap
        (λ (r : Result CacheDescriptor × Engine S).
          continue {B = CacheDescriptor} r.0
            (λ d' t.
              let d'' = record d' { expires_at = some (env.time t.readings +ℤ seconds) } in
              (ok d'', update cid d'' (record t { readings = suc t.readings })))
            r.1)
        (live-fresh env store cid e found fresh)

  act-ttl :
      (cid : String) (body : Body) (seconds : ℤ) (e : Engine S) {d : CacheDescriptor}
      → body.ttl ≡ some seconds
      → Dict.get String_discrete e.descriptors cid ≡ some d
      → is_expired d none (env.time e.readings) ≡ false
      → act env store Routes.ttl cid (ok body) e ≡ (ok tt, after_extend cid d seconds e)
  unfolding act
  act-ttl cid body seconds e {d} has_ttl found fresh =
      ap
        (λ o.
          continue (required o) (λ seconds. extend_ttl env store cid seconds >>= λ _. pure tt) e)
        has_ttl
      ∙ ap
          (λ (r : Result CacheDescriptor × Engine S).
            continue {B = Unit {0}} r.0 (λ _. pure tt) r.1)
          (extend_ttl-fresh cid seconds e found fresh)

  after_extend-found :
      (cid : String) (d : CacheDescriptor) (seconds : ℤ) (e : Engine S)
      → Dict.get String_discrete (after_extend cid d seconds e).descriptors cid
        ≡ some (extended d seconds e)
  after_extend-found cid d seconds e =
      Dict.get-put String_discrete (looked env store d e).descriptors cid cid (extended d seconds e)
      ∙ if_pos (String_discrete cid cid) refl (some (extended d seconds e)) _

  extended-passed :
      (d : CacheDescriptor) (seconds : ℤ) (e : Engine S) (clock : ℤ)
      → seconds ≤ℤ pos 0
      → env.time (looked env store d e).readings ≤ℤ clock
      → is_expired (extended d seconds e) none clock ≡ true
  unfolding is_expired or_clock
  extended-passed d seconds e clock h k =
      ground (arith, +ℤ_parts (env.time (looked env store d e).readings) seconds)

  get-fresh :
      (cid : String) (e : Engine S) {d : CacheDescriptor}
      → Dict.get String_discrete e.descriptors cid ≡ some d
      → is_expired d none (env.time e.readings) ≡ false
      → Lifecycle.get env store cid e ≡ (ok d, looked env store d e)
  unfolding Lifecycle.get
  get-fresh cid e found fresh = live-fresh env store cid e found fresh

  -- Given `seconds`, the server sets the deadline of a cache that has not expired to so many after
  -- the clock's next reading. It answers 200 with the new dictionary, if the clock has not reached
  -- that deadline when it is read once more. Otherwise the handler raises CacheExpiredError and the
  -- client gets no answer: so it is whenever `seconds` is 0 or less and the clock does not go back.
  -- Here the store's `remove` is not to raise.
  pub mutate-ttl :
      (cid : String) (body : Body) (seconds : ℤ) (e : Engine S) {d : CacheDescriptor}
      → Removes env store
      → body.ttl ≡ some seconds
      → Dict.get String_discrete e.descriptors cid ≡ some d
      → is_expired d none (env.time e.readings) ≡ false
      → (let now = env.time (looked env store d e).readings in
          let next = env.time (suc (looked env store d e).readings) in
          let outcome = (mutate env store Routes.ttl cid (ok body) e).0 in
          let d' = record d { expires_at = some (now +ℤ seconds) } in
          (is_expired d' none next ≡ false
            → outcome ≡ ok (send 200 (cache (descriptor_to_dict d'))))
          × (is_expired d' none next ≡ true → outcome ≡ err (cache_expired cid))
          × (seconds ≤ℤ pos 0 → now ≤ℤ next → outcome ≡ err (cache_expired cid)))
  unfolding mutate mutate_reply
  mutate-ttl cid body seconds e {d} removes has_ttl found fresh =
      (answers, raises, λ h k. raises (extended-passed d seconds e _ h k))
    where
      t : Engine S
      t = after_extend cid d seconds e

      step : mutate env store Routes.ttl cid (ok body) e ≡ mutate_reply env store cid (ok tt) t
      step =
          ap (λ r. mutate_reply env store cid r.0 r.1)
            (act-ttl cid body seconds e has_ttl found fresh)

      there : Dict.get String_discrete t.descriptors cid ≡ some (extended d seconds e)
      there = after_extend-found cid d seconds e

      finish : Result CacheDescriptor → Result Response
      finish r =
          (continue r (λ d. pure (send 200 (cache (descriptor_to_dict d))))
            (Lifecycle.get env store cid t).1).0

      answers :
          is_expired (extended d seconds e) none (env.time t.readings) ≡ false
          → (mutate env store Routes.ttl cid (ok body) e).0
            ≡ ok (send 200 (cache (descriptor_to_dict (extended d seconds e))))
      answers h = ap (λ r. r.0) step ∙ ap finish (ap (λ r. r.0) (get-fresh cid t there h))

      raises :
          is_expired (extended d seconds e) none (env.time t.readings) ≡ true
          → (mutate env store Routes.ttl cid (ok body) e).0 ≡ err (cache_expired cid)
      raises h = ap (λ r. r.0) step ∙ ap finish (get-expired env store cid t removes there h).0
