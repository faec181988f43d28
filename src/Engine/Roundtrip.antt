-- ===== src/Engine/Roundtrip.antt =====
-- What `register` stored is what `load` returns and what `lookup` compares a request with.
use llmcache.Prelude.{
  ℕ, ◌≡◌, ◌≤◌, ap, sym, ◌∙◌, String, Bool, true, false, Option, none, some, List, arith, length,
  take, range_from, subst, ℕ_discrete, String_discrete,
}
use llmcache.Int.{ℤ}
use llmcache.Results.{ok}
use llmcache.Exec.{continue}
use llmcache.Types.{CacheDescriptor, num_chunks, is_expired}
use llmcache.Payload.{KvPayload}
use llmcache.Dict
use llmcache.Store.{StorageBackend}
use llmcache.Store.Contract.{KeepsPinned}
use llmcache.Engine.State.{Env, Engine}
use llmcache.Engine.Register.{Payloads, normalize_payloads, register, save_descriptor}
use llmcache.Engine.Lifecycle.{load, load_chunks, chunks_wanted, live_descriptor}
use llmcache.Engine.Residency.{AllHeld, put_workers-AllHeld, load_chunks_of_AllHeld}
use llmcache.Engine.Registered.{IsRegistered, register-IsRegistered}
use llmcache.Engine.Built.{check_counts-length, length-fingerprints}
use llmcache.Engine.Live.{looked, looked-store, live-fresh}

module _ {S : Type 0} (env : Env) (store : StorageBackend S) where
  pub chunks_wanted-bound :
      (wanted : Option ℕ) (d : CacheDescriptor) → chunks_wanted wanted d ≤ num_chunks d
  chunks_wanted-bound none d = omega arith
  chunks_wanted-bound (some n) d = omega arith

  -- The payloads of a registration that returned are one for each chunk of its descriptor.
  pub registered-length :
      (tokens : List ℤ) (workers : Dict.Dict ℕ (List KvPayload)) (ttl : Option ℤ) (p : Bool)
      (e : Engine S) {d : CacheDescriptor} {e' : Engine S} (w : ℕ) {ps : List KvPayload}
      → IsRegistered env store tokens workers ttl p e d e'
      → Dict.get ℕ_discrete workers w ≡ some ps
      → length ps ≡ num_chunks d
  registered-length tokens workers ttl p e {d} w r found =
      check_counts-length (length r.chunks) workers w r.are_enough found
      ∙ sym (length-fingerprints env.digest r.chunks (r.built).printed)

  saved-get :
      (cid : String) (d : CacheDescriptor) (e : Engine S)
      → Dict.get String_discrete (save_descriptor env store cid d e).descriptors cid ≡ some d
  unfolding save_descriptor
  saved-get cid d e = ground (arith, Dict.get-put String_discrete e.descriptors cid cid d)

  -- The descriptor that was registered is found under its id.
  pub registered-get :
      (tokens : List ℤ) (workers : Dict.Dict ℕ (List KvPayload)) (ttl : Option ℤ) (p : Bool)
      (e : Engine S) {d : CacheDescriptor} {e' : Engine S}
      → IsRegistered env store tokens workers ttl p e d e'
      → Dict.get String_discrete e'.descriptors d.cache_id ≡ some d
  registered-get tokens workers ttl p e {d} r = rw (r.saved) (saved-get d.cache_id d _)

  pub registered-store :
      (tokens : List ℤ) (workers : Dict.Dict ℕ (List KvPayload)) (ttl : Option ℤ) (p : Bool)
      (e : Engine S) {d : CacheDescriptor} {e' : Engine S}
      (r : IsRegistered env store tokens workers ttl p e d e')
      → e'.store ≡ r.written.store
  unfolding save_descriptor
  registered-store tokens workers ttl p e r = ap (λ (t : Engine S). t.store) r.saved

  pub load_of_live :
      (cid : String) (wanted : Option ℕ) (w : ℕ) (e : Engine S) {d : CacheDescriptor} {t : Engine S}
      → live_descriptor env store cid e ≡ (ok d, t)
      → load env store cid wanted w e
        ≡ load_chunks env store cid w (range_from 0 (chunks_wanted wanted d)) t
  unfolding load
  load_of_live cid wanted w e h =
      ap
        (λ r.
          continue r.0 (λ d. load_chunks env store cid w (range_from 0 (chunks_wanted wanted d)))
            r.1)
        h

  -- Whatever store keeps its promise about pinned objects: when a registration with a pin returns
  -- the descriptor `d`, its workers being distinct, then `load` on the engine that it leaves, while
  -- `d` has not expired, returns for each worker the payloads registered for it, in order: all, or
  -- as many as are wanted.
  pub register-load :
      (promise : KeepsPinned store) (tokens : List ℤ) (payloads : Payloads) (cid : Option String)
      (ttl : Option ℤ) (name : Option String) (e : Engine S) {d : CacheDescriptor} {e' : Engine S}
      (wanted : Option ℕ) (w : ℕ) {ps : List KvPayload}
      → Dict.Distinct ℕ_discrete (normalize_payloads payloads)
      → Dict.get ℕ_discrete (normalize_payloads payloads) w ≡ some ps
      → register env store tokens payloads cid ttl true name e ≡ (ok d, e')
      → is_expired d none (env.time e'.readings) ≡ false
      → (load env store d.cache_id wanted w e').0 ≡ ok (take (chunks_wanted wanted d) ps)
  register-load promise tokens payloads cid ttl name e {d} {e'} wanted w {ps} distinct found h
        fresh =
      let r = register-IsRegistered env store payloads cid ttl true name tokens e h in
      let held =
        put_workers-AllHeld store promise env d.cache_id 0 (normalize_payloads payloads) w ps
          r.chosen distinct found r.put in
      let kept =
        subst (AllHeld store promise d.cache_id w 0 ps)
          (sym (registered-store tokens (normalize_payloads payloads) ttl true e r)
            ∙ sym (looked-store env store d e'))
          held in
      let live =
        live-fresh env store d.cache_id e'
          (registered-get tokens (normalize_payloads payloads) ttl true e r) fresh in
      let counted = registered-length tokens (normalize_payloads payloads) ttl true e w r found in
      ap (λ x. x.0) (load_of_live d.cache_id wanted w e' live)
      ∙ load_chunks_of_AllHeld store promise env d.cache_id w 0 (chunks_wanted wanted d) ps
          (looked env store d e') (omega (arith, chunks_wanted-bound wanted d)) kept
