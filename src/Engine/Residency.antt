-- ===== src/Engine/Residency.antt =====
-- What is registered with a pin is loaded back, from any store that keeps its promise.
use llmcache.Prelude.{
  ℕ, zero, suc, ◌≤◌, ◌<◌, ◌≡◌, ◌≢◌, refl, ap, sym, subst, ◌⊎◌, inl, inr, String, Bool, true, none,
  some, List, [], ◌∷◌, arith, length, take, range_from, max, ℕ_discrete,
}
use llmcache.Results.{ok}
use llmcache.Exec.{continue-keeps, bind-eq-ok}
use llmcache.Types.{ChunkKey}
use llmcache.Payload.{KvPayload}
use llmcache.Dict
use llmcache.Dict.{Dict}
use llmcache.Store.{StorageBackend}
use llmcache.Store.Contract.{KeepsPinned}
use llmcache.Engine.State.{Env, Engine, on_store}
use llmcache.Engine.Register.{chunk_key, put_worker, put_workers}
use llmcache.Engine.Lifecycle.{load_chunks}

module _ {S : Type 0} (store : StorageBackend S) (promise : KeepsPinned store) where
  -- The payloads are held under the consecutive chunk indices from `idx`.
  abbrev pub AllHeld : String → ℕ → ℕ → List KvPayload → S → Type 0
  AllHeld cid worker idx [] s = Unit
  AllHeld cid worker idx (p ∷ ps) s =
      promise.Holds s (chunk_key cid idx worker) p × AllHeld cid worker (suc idx) ps s

  -- The key is none of those that the loop is still to write.
  abbrev pub Written : ℕ → ℕ → ChunkKey → Type 0
  Written worker idx j = (j.worker_id ≢ worker) ⊎ (j.chunk_index < idx)

  pub Written-ne :
      (cid : String) (worker idx : ℕ) (j : ChunkKey)
      → Written worker idx j
      → j ≢ chunk_key cid idx worker
  Written-ne cid worker idx j (inl ne) e = ne (ap (λ k. k.worker_id) e)
  Written-ne cid worker idx j (inr lt) e = absurd (omega (arith, ap (λ k. k.chunk_index) e))

  pub Written-suc :
      (worker idx : ℕ) (j : ChunkKey) → Written worker idx j → Written worker (suc idx) j
  Written-suc worker idx j (inl ne) = inl ne
  Written-suc worker idx j (inr lt) = inr (omega arith)

  module _ (env : Env) (cid : String) (worker : ℕ) where
    put_worker-keeps :
        (p : Bool) (idx layers : ℕ) (ps : List KvPayload) (e : Engine S) (j : ChunkKey)
        (o : KvPayload)
        → Written worker idx j
        → promise.Holds e.store j o
        → promise.Holds (put_worker env store cid worker p idx layers ps e).1.store j o
    unfolding put_worker
    put_worker-keeps p idx layers [] e j o w h = h
    put_worker-keeps p idx layers (x ∷ ps) e j o w h =
        let m = on_store (store.put (chunk_key cid idx worker) x p) in
        let held =
          promise.put_keeps (chunk_key cid idx worker) x p e.store j o
            (Written-ne cid worker idx j w) h in
        continue-keeps (λ (t : Engine S). promise.Holds t.store j o) (m e).0
          (λ _. put_worker env store cid worker p (suc idx) (max layers x.num_layers) ps) (m e).1
          held
          λ _.
            put_worker-keeps p (suc idx) (max layers x.num_layers) ps (m e).1 j o
              (Written-suc worker idx j w) held

    put_worker-AllHeld :
        (idx layers : ℕ) (ps : List KvPayload) (e : Engine S) {l : ℕ} {e' : Engine S}
        → put_worker env store cid worker true idx layers ps e ≡ (ok l, e')
        → AllHeld cid worker idx ps e'.store
    unfolding put_worker
    put_worker-AllHeld idx layers [] e h = tt
    put_worker-AllHeld idx layers (x ∷ ps) e {l} {e'} h =
        let k = chunk_key cid idx worker in
        let rest = put_worker env store cid worker true (suc idx) (max layers x.num_layers) ps in
        let (_, t, p, q) = bind-eq-ok (on_store (store.put k x true)) (λ _. rest) e h in
        let stored =
          subst (λ (t : Engine S). promise.Holds t.store k x) (ap (λ r. r.1) p)
            (promise.put_holds k x e.store (ap (λ r. r.0) p)) in
        (
          subst (λ (t : Engine S). promise.Holds t.store k x) (ap (λ r. r.1) q)
              (put_worker-keeps true (suc idx) (max layers x.num_layers) ps t k x
                (inr (omega arith)) stored),
          put_worker-AllHeld (suc idx) (max layers x.num_layers) ps t q,
        )

  pub AllHeld-transport :
      (cid : String) (worker idx : ℕ) (ps : List KvPayload) (s t : S)
      → ((k : ChunkKey) (o : KvPayload)
          → k.worker_id ≡ worker
          → k.cache_id ≡ cid
          → promise.Holds s k o
          → promise.Holds t k o)
      → AllHeld cid worker idx ps s
      → AllHeld cid worker idx ps t
  AllHeld-transport cid worker idx [] s t f h = tt
  AllHeld-transport cid worker idx (p ∷ ps) s t f h = (
    f (chunk_key cid idx worker) p refl refl h.0,
    AllHeld-transport cid worker (suc idx) ps s t f h.1,
  )

  module _ (env : Env) (cid : String) where
    -- Writing for other workers keeps what is held for this one.
    put_workers-keeps :
        (p : Bool) (layers : ℕ) (workers : Dict ℕ (List KvPayload)) (e : Engine S) (j : ChunkKey)
        (o : KvPayload)
        → Dict.get ℕ_discrete workers j.worker_id ≡ none
        → promise.Holds e.store j o
        → promise.Holds (put_workers env store cid p layers workers e).1.store j o
    unfolding put_workers Dict.get
    put_workers-keeps p layers [] e j o absent h = h
    put_workers-keeps p layers ((w, ps) ∷ rest) e j o absent h =
        let m = put_worker env store cid w p 0 layers ps in
        let held = put_worker-keeps env cid w p 0 layers ps e j o (inl (ground arith)) h in
        continue-keeps (λ (t : Engine S). promise.Holds t.store j o) (m e).0
          (λ l. put_workers env store cid p l rest) (m e).1 held
          λ l. put_workers-keeps p l rest (m e).1 j o (ground arith) held

    pub put_workers-AllHeld :
        (layers : ℕ) (workers : Dict ℕ (List KvPayload)) (w : ℕ) (ps : List KvPayload)
        (e : Engine S) {l : ℕ} {e' : Engine S}
        → Dict.Distinct ℕ_discrete workers
        → Dict.get ℕ_discrete workers w ≡ some ps
        → put_workers env store cid true layers workers e ≡ (ok l, e')
        → AllHeld cid w 0 ps e'.store
    unfolding put_workers Dict.get
    put_workers-AllHeld layers [] w ps e distinct found h = absurd (ground arith)
    put_workers-AllHeld layers ((v, qs) ∷ rest) w ps e distinct found h =
        let (l', t, p, q) =
          bind-eq-ok (put_worker env store cid v true 0 layers qs)
            (λ l. put_workers env store cid true l rest) e h in
        elim (ℕ_discrete v w) [
          | no ne ↦ put_workers-AllHeld l' rest w ps t distinct.1 (ground arith) q
          | yes same ↦
              let written : AllHeld cid w 0 qs t.store =
                rw (sym same) (put_worker-AllHeld env cid v 0 layers qs e p) in
              let here : qs ≡ ps = ground arith in
              subst (λ (t : Engine S). AllHeld cid w 0 ps t.store) (ap (λ r. r.1) q)
                (AllHeld-transport cid w 0 ps t.store _
                  (λ k o own ours held.
                    put_workers-keeps true l' rest t k o (ground (arith, distinct.0)) held)
                  (rw here at written))
        ]

    -- The loop of `load` returns what is held.
    pub load_chunks_of_AllHeld :
        (w idx n : ℕ) (ps : List KvPayload) (e : Engine S)
        → n ≤ length ps
        → AllHeld cid w idx ps e.store
        → (load_chunks env store cid w (range_from idx n) e).0 ≡ ok (take n ps)
    unfolding load_chunks
    load_chunks_of_AllHeld w idx zero ps e le h = refl
    load_chunks_of_AllHeld w idx (suc n) [] e le h = absurd (omega arith)
    load_chunks_of_AllHeld w idx (suc n) (p ∷ ps) e le h =
        let k = chunk_key cid idx w in
        rw (promise.get_returns k p e.store h.0) (
          rw
            (load_chunks_of_AllHeld w (suc idx) n ps (record e { store = (store.get k e.store).1 })
              (omega arith)
              (AllHeld-transport cid w (suc idx) ps e.store (store.get k e.store).1
                (λ j o own ours held. promise.get_keeps k e.store j o held) h.1))
            refl)
