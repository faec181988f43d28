-- ===== src/Engine/Calls/Reads.antt =====
-- The calls that look at a cache id keep what the rules say.
use llmcache.Prelude.{
  ℕ, suc, ◌≡◌, refl, ap, sym, ◌∙◌, ◌⊎◌, inl, inr, subst, String, true, false, Option, none, some,
  List, [], ◌∷◌, arith, String_discrete, Option-cases, Bool-cases, range_from,
}
use llmcache.Int.{ℤ, ◌+ℤ◌}
use llmcache.Results.{Error, Result, ok, err, cache_expired, cache_mismatch}
use llmcache.Exec.{raise, pure, continue, continue-keeps, continue-keeps_ok, ◌>>=◌}
use llmcache.Types.{CacheDescriptor, num_chunks, is_expired}
use llmcache.Dict
use llmcache.Payload.{KvPayload}
use llmcache.Store.{StorageBackend}
use llmcache.Engine.State.{Env, Engine, on_store}
use llmcache.Engine.Register.{chunk_key}
use llmcache.Engine.Lifecycle
use llmcache.Engine.Lifecycle.{
  check_expired, live_descriptor, get, exists, found_or_not, count_reusable, lookup, lookup_result,
  load_chunks, load, chunks_wanted, extend_ttl, delete, each_chunk, expired_among, sweep_expired,
  list, update, is_falsy,
}
use llmcache.Engine.Live.{looked, live-missing, live-fresh, live-expired}
use llmcache.Engine.Removal.{each_chunk-keeps, delete-keeps}
use llmcache.Engine.Expiry.{found_or_not-state}
use llmcache.Engine.Calls.{Rules}

-- What ends in a raise does not return.
raise-ne-ok :
    {S A : Type 0} (r : Result (Unit {0})) (x : Error) (s : S) {a : A}
    → (continue r (λ _. raise x) s).0 ≡ ok a
    → ⊥
raise-ne-ok (ok u) x s h = ground arith
raise-ne-ok (err y) x s h = ground arith

module _ {S : Type 0} (env : Env) (store : StorageBackend S) {Mine : String → Type 0}
    {Sweeps : Type 0} {Good : String → CacheDescriptor → Type 0} {Q : Engine S → Type 0}
    (rules : Rules env store Mine Sweeps Good Q) where
  pub delete_rule : (cid : String) (e : Engine S) → Mine cid → Q e → Q (delete env store cid e).1
  delete_rule cid e mine h =
      delete-keeps env store Q cid e h (rules.forget cid e mine h)
        λ idx worker t ht. rules.remove (chunk_key cid idx worker) t mine ht

  -- Comparing a deadline reads the clock, or does not.
  check_expired_cases :
      (d : CacheDescriptor) (now : Option ℤ) (e : Engine S)
      → ((check_expired env store d now e).1 ≡ e)
        ⊎ ((check_expired env store d now e).1 ≡ record e { readings = suc e.readings })
  unfolding check_expired
  check_expired_cases d none e = elim (Option-cases d.expires_at) [
    | inl n ↦ inl (rw (n, check_expired) refl)
    | inr (at, f) ↦ inr (rw (f, check_expired) refl)
  ]
  check_expired_cases d (some t) e = elim (Option-cases d.expires_at) [
    | inl n ↦ inl (rw (n, check_expired) refl)
    | inr (at, f) ↦ elim (Bool-cases (is_falsy t)) [
      | inl falsy ↦ inr (rw (f, check_expired) (rw falsy refl))
      | inr truthy ↦ inl (rw (f, check_expired) (rw truthy refl))
    ]
  ]

  pub check_expired_rule :
      (d : CacheDescriptor) (now : Option ℤ) (e : Engine S)
      → Q e
      → Q (check_expired env store d now e).1
  check_expired_rule d now e h = elim (check_expired_cases d now e) [
    | inl same ↦ subst Q (sym same) h
    | inr read ↦ subst Q (sym read) (rules.clock e h)
  ]

  pub live_rule :
      (cid : String) (e : Engine S)
      → Mine cid
      → Q e
      → Q (live_descriptor env store cid e).1
        × ((d : CacheDescriptor) → (live_descriptor env store cid e).0 ≡ ok d → Good cid d)
  live_rule cid e mine h = elim (Option-cases (Dict.get String_discrete e.descriptors cid)) [
    | inl n ↦
        let step = live-missing env store cid e n in
        (
          subst Q (sym (ap (λ r. r.1) step)) h,
          λ d ok_d. absurd (ground (arith, sym (ap (λ r. r.0) step) ∙ ok_d)),
        )
    | inr (d, f) ↦ elim (Bool-cases (is_expired d none (env.time e.readings))) [
      | inr fresh ↦
          let step = live-fresh env store cid e f fresh in
          (
            subst Q (sym (ap (λ r. r.1) step)) (check_expired_rule d none e h),
            λ d' ok_d.
                let same : d ≡ d' = ground (arith, sym (ap (λ r. r.0) step) ∙ ok_d) in
                subst (Good cid) same (rules.found cid e d h f),
          )
      | inl late ↦
          let step = live-expired env store cid e f late in
          let t = looked env store d e in
          let deleted = delete_rule cid t mine (check_expired_rule d none e h) in
          (
            subst Q (sym (ap (λ r. r.1) step)) (
                continue-keeps Q (delete env store cid t).0
                  (λ _. raise {A = CacheDescriptor} (cache_expired cid)) (delete env store cid t).1
                  deleted λ _. deleted),
            λ d' ok_d. absurd (
                raise-ne-ok (delete env store cid t).0 (cache_expired cid)
                  (delete env store cid t).1 (sym (ap (λ r. r.0) step) ∙ ok_d)),
          )
    ]
  ]

  pub exists_rule : (cid : String) (e : Engine S) → Mine cid → Q e → Q (exists env store cid e).1
  unfolding exists
  exists_rule cid e mine h =
      subst Q
        (sym (
          found_or_not-state env store (live_descriptor env store cid e).0
            (live_descriptor env store cid e).1))
        (live_rule cid e mine h).0

  pub lookup_rule :
      (cid : String) (request : Option (List ℤ)) (e : Engine S)
      → Mine cid
      → Q e
      → Q (lookup env store cid request e).1
  unfolding lookup
  lookup_rule cid request e mine h =
      let t = (live_descriptor env store cid e).1 in
      let (kept, good) = live_rule cid e mine h in
      continue-keeps_ok Q (live_descriptor env store cid e).0 _ t kept λ d found.
        continue-keeps Q (count_reusable env store request d) _ t kept λ matched.
          rules.save cid _ _ mine (rules.used cid d (env.time t.readings) (good d found))
            (rules.clock t kept)

  load_chunks_rule :
      (cid : String) (worker : ℕ) (indices : List ℕ) (e : Engine S)
      → Mine cid
      → Q e
      → Q (load_chunks env store cid worker indices e).1
  unfolding load_chunks
  load_chunks_rule cid worker [] e mine h = h
  load_chunks_rule cid worker (idx ∷ indices) e mine h =
      let m = on_store (store.get (chunk_key cid idx worker)) in
      let got = rules.get (chunk_key cid idx worker) e mine h in
      let t = (m e).1 in
      let more = load_chunks env store cid worker indices in
      let rest = load_chunks_rule cid worker indices t mine got in
      continue-keeps Q (m e).0 _ t got λ found.
        let outcome : Result KvPayload = elim found [
          | none ↦ err (cache_mismatch cid idx worker)
          | some payload ↦ ok payload
        ] in
        continue-keeps Q outcome (λ payload. more >>= λ payloads. pure (payload ∷ payloads)) t got
          λ payload.
            continue-keeps Q (more t).0 (λ payloads. pure (payload ∷ payloads)) (more t).1 rest
              λ _. rest

  pub load_rule :
      (cid : String) (wanted : Option ℕ) (worker : ℕ) (e : Engine S)
      → Mine cid
      → Q e
      → Q (load env store cid wanted worker e).1
  unfolding load
  load_rule cid wanted worker e mine h =
      let t = (live_descriptor env store cid e).1 in
      let kept = (live_rule cid e mine h).0 in
      continue-keeps Q (live_descriptor env store cid e).0 _ t kept
        λ d. load_chunks_rule cid worker (range_from 0 (chunks_wanted wanted d)) t mine kept

  pub extend_ttl_rule :
      (cid : String) (ttl : ℤ) (e : Engine S)
      → Mine cid
      → Q e
      → Q (extend_ttl env store cid ttl e).1
  unfolding extend_ttl
  extend_ttl_rule cid ttl e mine h =
      let t = (live_descriptor env store cid e).1 in
      let (kept, good) = live_rule cid e mine h in
      continue-keeps_ok Q (live_descriptor env store cid e).0 _ t kept λ d found.
        rules.save cid _ _ mine (rules.moved cid d (env.time t.readings +ℤ ttl) (good d found))
          (rules.clock t kept)

  pub pin_rule :
      (cid : String) (e : Engine S) → Mine cid → Q e → Q (Lifecycle.pin env store cid e).1
  unfolding Lifecycle.pin
  pin_rule cid e mine h =
      let t = (live_descriptor env store cid e).1 in
      let (kept, good) = live_rule cid e mine h in
      continue-keeps_ok Q (live_descriptor env store cid e).0 _ t kept λ d found.
        let d' = record d { pinned = true } in
        each_chunk-keeps env store Q (λ k. on_store (store.pin k)) cid d.worker_ids (num_chunks d)
          (update cid d' t) (rules.save cid d' t mine (rules.marked cid d true (good d found)) kept)
          λ idx worker u hu. rules.pin (chunk_key cid idx worker) u mine hu

  pub unpin_rule :
      (cid : String) (e : Engine S) → Mine cid → Q e → Q (Lifecycle.unpin env store cid e).1
  unfolding Lifecycle.unpin
  unpin_rule cid e mine h =
      let t = (live_descriptor env store cid e).1 in
      let (kept, good) = live_rule cid e mine h in
      continue-keeps_ok Q (live_descriptor env store cid e).0 _ t kept λ d found.
        let d' = record d { pinned = false } in
        each_chunk-keeps env store Q (λ k. on_store (store.unpin k)) cid d.worker_ids (num_chunks d)
          (update cid d' t)
          (rules.save cid d' t mine (rules.marked cid d false (good d found)) kept)
          λ idx worker u hu. rules.unpin (chunk_key cid idx worker) u mine hu
