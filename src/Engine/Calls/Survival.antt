-- ===== src/Engine/Calls/Survival.antt =====
-- What is registered with a pin stays through the calls about other cache ids.
use llmcache.Prelude.{
  [], ℕ, ◌≡◌, ◌≢◌, ap, sym, ◌∙◌, subst, String, true, false, Option, none, some, List, arith,
  length, take, ℕ_discrete, String_discrete,
}
use llmcache.Int.{ℤ}
use llmcache.Results.{ok}
use llmcache.Types.{CacheDescriptor, ChunkKey, is_expired, num_chunks}
use llmcache.Payload.{KvPayload}
use llmcache.Dict
use llmcache.Dict.{Dict}
use llmcache.Store.{StorageBackend}
use llmcache.Store.Contract.{KeepsPinned}
use llmcache.Engine.State.{Env, Engine}
use llmcache.Engine.Register.{Payloads, normalize_payloads, register}
use llmcache.Engine.Lifecycle.{load, chunks_wanted}
use llmcache.Engine.Residency.{
  AllHeld, AllHeld-transport, put_workers-AllHeld, load_chunks_of_AllHeld,
}
use llmcache.Engine.Registered.{register-IsRegistered}
use llmcache.Engine.Live.{Lasts, looked, looked-store, live-fresh}
use llmcache.Engine.Roundtrip.{
  registered-get, registered-store, registered-length, load_of_live, chunks_wanted-bound,
}
use llmcache.Engine.Calls.Soundness.{Kept, Kept-rules, IsDescribed, run-Kept}
use llmcache.Engine.Calls.{Call, Rules}
use llmcache.Engine.Calls.Writes.{register_rule}
use llmcache.Engine.Calls.Sequences.{run, run_rule, AllAbout}
use llmcache.Engine.Calls.Spared.{get-put_other, get-remove_other, spared}

module _ {S : Type 0} (env : Env) (store : StorageBackend S) (promise : KeepsPinned store) where
  -- The descriptor stands under its id and the payloads of the worker are in the store.
  abbrev pub IsResident : CacheDescriptor → ℕ → List KvPayload → Engine S → Type 0
  IsResident d w ps e =
      (Dict.get String_discrete e.descriptors d.cache_id ≡ some d)
      × AllHeld store promise d.cache_id w 0 ps e.store

  -- What a store does with the chunks of another cache keeps all that is held for this one.
  others :
      (cid : String) (w : ℕ) (ps : List KvPayload) (k : ChunkKey) (s t : S)
      → k.cache_id ≢ cid
      → ((j : ChunkKey) (o : KvPayload) → j ≢ k → promise.Holds s j o → promise.Holds t j o)
      → AllHeld store promise cid w 0 ps s
      → AllHeld store promise cid w 0 ps t
  others cid w ps k s t ne keeps h =
      AllHeld-transport store promise cid w 0 ps s t
        (λ j o own ours held.
          keeps j o (λ same. ne (sym (ap (λ (x : ChunkKey). x.cache_id) same) ∙ ours)) held)
        h

  -- The same, in an engine whose descriptors are in order.
  abbrev Stays : ℕ → CacheDescriptor → ℕ → List KvPayload → Engine S → Type 0
  Stays size d w ps e = IsResident d w ps e × Kept env store size e

  Stays-rules :
      (size : ℕ) (d : CacheDescriptor) (w : ℕ) (ps : List KvPayload)
      → Rules env store
          (λ cid. cid ≢ d.cache_id)
          (Lasts env store d)
          (IsDescribed size)
          (Stays size d w ps)
  Stays-rules size d w ps =
      let kept = Kept-rules env store size in
      record {
        clock = λ e h. h;
        ids = λ e h. h;
        put = λ k o p e ne h. (
          (
            h.0.0,
            others d.cache_id w ps k e.store (store.put k o p e.store).1 ne
                (promise.put_keeps k o p e.store) h.0.1,
          ),
          h.1,
        );
        get = λ k e ne h. (
          (
            h.0.0,
            others d.cache_id w ps k e.store (store.get k e.store).1 ne
                (λ j o _ held. promise.get_keeps k e.store j o held) h.0.1,
          ),
          h.1,
        );
        remove = λ k e ne h. (
          (
            h.0.0,
            others d.cache_id w ps k e.store (store.remove k e.store).1 ne
                (promise.remove_keeps k e.store) h.0.1,
          ),
          h.1,
        );
        pin = λ k e ne h. (
          (
            h.0.0,
            others d.cache_id w ps k e.store (store.pin k e.store).1 ne
                (λ j o _ held. promise.pin_keeps k e.store j o held) h.0.1,
          ),
          h.1,
        );
        unpin = λ k e ne h. (
          (
            h.0.0,
            others d.cache_id w ps k e.store (store.unpin k e.store).1 ne
                (promise.unpin_keeps k e.store) h.0.1,
          ),
          h.1,
        );
        found = λ cid e d' h f. kept.found cid e d' h.1 f;
        forget = λ cid e ne h. (
          (get-remove_other e.descriptors cid d.cache_id ne ∙ h.0.0, h.0.1),
          kept.forget cid e tt h.1,
        );
        save = λ cid d' e ne good h. (
          (get-put_other e.descriptors cid d.cache_id d' ne ∙ h.0.0, h.0.1),
          kept.save cid d' e tt good h.1,
        );
        used = λ cid d' now g. kept.used cid d' now g;
        moved = λ cid d' at g. kept.moved cid d' at g;
        marked = λ cid d' p g. kept.marked cid d' p g;
        built = λ cid tokens chunks workers ttl e t d' t' he ht cut b.
            kept.built cid tokens chunks workers ttl e t d' t' he.1 ht.1 cut b;
        swept = λ e n lasts h.
            spared env store d n e.descriptors lasts h.1.1
              λ cid x found. ((h.1.2 cid x found).own, λ same. ground (arith, h.0.0));
      }

  resident-load :
      (d : CacheDescriptor) (w : ℕ) (ps : List KvPayload) (wanted : Option ℕ) (e : Engine S)
      → length ps ≡ num_chunks d
      → IsResident d w ps e
      → is_expired d none (env.time e.readings) ≡ false
      → (load env store d.cache_id wanted w e).0 ≡ ok (take (chunks_wanted wanted d) ps)
  resident-load d w ps wanted e counted h fresh =
      let live = live-fresh env store d.cache_id e h.0 fresh in
      let held =
        subst (AllHeld store promise d.cache_id w 0 ps) (sym (looked-store env store d e)) h.1 in
      ap (λ x. x.0) (load_of_live env store d.cache_id wanted w e live)
      ∙ load_chunks_of_AllHeld store promise env d.cache_id w 0 (chunks_wanted wanted d) ps
          (looked env store d e) (omega (arith, chunks_wanted-bound env store wanted d)) held

  -- What a registration with a pin leaves, in an engine that is in order.
  registered-Stays :
      (size : ℕ) (tokens : List ℤ) (payloads : Payloads) (cid : Option String) (ttl : Option ℤ)
      (name : Option String) (e : Engine S) {d : CacheDescriptor} {e' : Engine S} (w : ℕ)
      {ps : List KvPayload}
      → Kept env store size e
      → Dict.Distinct ℕ_discrete (normalize_payloads payloads)
      → Dict.get ℕ_discrete (normalize_payloads payloads) w ≡ some ps
      → register env store tokens payloads cid ttl true name e ≡ (ok d, e')
      → Stays size d w ps e'
  registered-Stays size tokens payloads cid ttl name e {d} {e'} w {ps} kept distinct found h =
      let workers = normalize_payloads payloads in
      let r = register-IsRegistered env store payloads cid ttl true name tokens e h in
      let held =
        put_workers-AllHeld store promise env d.cache_id 0 workers w ps r.chosen distinct found
          r.put in
      let here =
        subst (AllHeld store promise d.cache_id w 0 ps)
          (sym (registered-store env store tokens workers ttl true e r)) held in
      let later =
        register_rule env store (Kept-rules env store size) tokens payloads cid ttl true name e
          ((λ _ _. tt), λ _. tt) kept in
      (
        (registered-get env store tokens workers ttl true e r, here),
        subst (Kept env store size) (ap (λ x. x.1) h) later,
      )

  -- Whatever store keeps its promise about pinned objects: when an engine that started with no
  -- descriptors has seen any calls, a registration with a pin, its workers being distinct, returns
  -- the descriptor `d`, and any calls about other cache ids follow, then `load` returns for each
  -- worker the payloads that were registered for it, in order, all or as many as are wanted, as
  -- long as `d` has not expired. The calls, before and after, may register, write, read, look up,
  -- pin, unpin, extend and delete, some of them raising perhaps, and the fresh ids of those after
  -- are other ids too; where sweeps or listings are among those after, `d` never expires by the
  -- clock.
  pub run-load :
      (start : Engine S) (before : List Call) (tokens : List ℤ) (payloads : Payloads)
      (cid : Option String) (ttl : Option ℤ) (name : Option String) {d : CacheDescriptor}
      {e : Engine S} (after : List Call) (wanted : Option ℕ) (w : ℕ) {ps : List KvPayload}
      → start.descriptors ≡ []
      → Dict.Distinct ℕ_discrete (normalize_payloads payloads)
      → Dict.get ℕ_discrete (normalize_payloads payloads) w ≡ some ps
      → register env store tokens payloads cid ttl true name (run env store start before)
        ≡ (ok d, e)
      → AllAbout env store (λ other. other ≢ d.cache_id) (Lasts env store d) after
      → is_expired d none (env.time (run env store e after).readings) ≡ false
      → (load env store d.cache_id wanted w (run env store e after)).0
        ≡ ok (take (chunks_wanted wanted d) ps)
  run-load start before tokens payloads cid ttl name {d} {e} after wanted w {ps} new distinct found
        h about fresh =
      let workers = normalize_payloads payloads in
      let size = start.chunk_size in
      let t = run env store start before in
      let r = register-IsRegistered env store payloads cid ttl true name tokens t h in
      let stays = run_rule env store (Stays-rules size d w ps) e after about (
        registered-Stays size tokens payloads cid ttl name t w (run-Kept env store start before new)
          distinct found h) in
      resident-load d w ps wanted (run env store e after)
        (registered-length env store tokens workers ttl true t w r found) stays.0 fresh
