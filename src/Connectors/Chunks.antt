-- ===== src/Connectors/Chunks.antt =====
-- The chunks that a connector puts stay in the store.
use llmcache.Prelude.{
  ◌<◌, ℕ, suc, ◌≡◌, refl, ap, ap₂, Bool-cases, ◌==◌, sym, subst, String, Bool, true, List, [], ◌∷◌,
  arith, inl, inr,
}
use llmcache.Results.{ok}
use llmcache.Exec.{Exec, bind-eq-ok, continue-keeps}
use llmcache.Types.{ChunkKey}
use llmcache.Payload.{KvPayload}
use llmcache.Store.{StorageBackend}
use llmcache.Store.Contract.{KeepsPinned}
use llmcache.Engine.State.{Env, Engine, on_store}
use llmcache.Engine.Register.{chunk_key, put_chunk}
use llmcache.Engine.Residency.{AllHeld, Written, Written-ne, Written-suc}
use llmcache.Types.Chunks.{num_chunks_for}
use llmcache.Connectors.Bridge.{Bridge, on_engine, on_buffer, chunks_for, put_chunks}

module _ {S T : Type 0} where
  -- A call of the engine that returned leaves the buffer, and a call of the transfer the engine.
  pub on_engine-eq-ok :
      {A : Type 0} (m : Exec (Engine S) A) (b : Bridge S T) {a : A} {b' : Bridge S T}
      → on_engine m b ≡ (ok a, b')
      → (m b.engine ≡ (ok a, b'.engine)) × (b'.buffer ≡ b.buffer)
  on_engine-eq-ok m b h =
      (ap₂ (λ r t. (r, t)) (ap (λ r. r.0) h) (ap (λ r. r.1.engine) h), sym (ap (λ r. r.1.buffer) h))

  pub on_buffer-eq-ok :
      {A : Type 0} (m : Exec T A) (b : Bridge S T) {a : A} {b' : Bridge S T}
      → on_buffer m b ≡ (ok a, b')
      → (m b.buffer ≡ (ok a, b'.buffer)) × (b'.engine ≡ b.engine)
  on_buffer-eq-ok m b h =
      (ap₂ (λ r t. (r, t)) (ap (λ r. r.0) h) (ap (λ r. r.1.buffer) h), sym (ap (λ r. r.1.engine) h))

  pub chunks_for-eq-ok :
      (a : ℕ) (b : Bridge S T) {k : ℕ} {b' : Bridge S T}
      → chunks_for a b ≡ (ok k, b')
      → (k ≡ num_chunks_for a (b.engine).chunk_size) × (b' ≡ b) × (0 < (b.engine).chunk_size)
  unfolding chunks_for
  chunks_for-eq-ok a b h = elim (Bool-cases ((b.engine).chunk_size == 0)) [
    | inl e ↦ absurd (ground arith)
    | inr e ↦ (ground arith, ground arith, ground arith)
  ]

module _ {S : Type 0} (env : Env) (store : StorageBackend S) where
  -- Putting chunks changes nothing of the engine but its store.
  abbrev pub StoreOnly : Engine S → Engine S → Type 0
  StoreOnly e t = t ≡ record e { store = t.store }

  pub put_chunks-StoreOnly :
      (cid : String) (p : Bool) (idx : ℕ) (ps : List KvPayload) (e : Engine S)
      → StoreOnly e (put_chunks env store cid p idx ps e).1
  unfolding put_chunks put_chunk
  put_chunks-StoreOnly cid p idx [] e = refl
  put_chunks-StoreOnly cid p idx (x ∷ ps) e =
      let m = on_store (store.put (chunk_key cid idx 0) x p) in
      continue-keeps (StoreOnly e) (m e).0 (λ _. put_chunks env store cid p (suc idx) ps) (m e).1
        refl λ _. put_chunks-StoreOnly cid p (suc idx) ps (m e).1

  module _ (promise : KeepsPinned store) (cid : String) where
    put_chunks-keeps :
        (p : Bool) (idx : ℕ) (ps : List KvPayload) (e : Engine S) (j : ChunkKey) (o : KvPayload)
        → Written store promise 0 idx j
        → promise.Holds e.store j o
        → promise.Holds (put_chunks env store cid p idx ps e).1.store j o
    unfolding put_chunks put_chunk
    put_chunks-keeps p idx [] e j o w h = h
    put_chunks-keeps p idx (x ∷ ps) e j o w h =
        let m = on_store (store.put (chunk_key cid idx 0) x p) in
        let held =
          promise.put_keeps (chunk_key cid idx 0) x p e.store j o
            (Written-ne store promise cid 0 idx j w) h in
        continue-keeps (λ (t : Engine S). promise.Holds t.store j o) (m e).0
          (λ _. put_chunks env store cid p (suc idx) ps) (m e).1 held
          λ _.
            put_chunks-keeps p (suc idx) ps (m e).1 j o (Written-suc store promise 0 idx j w) held

    pub put_chunks-AllHeld :
        (idx : ℕ) (ps : List KvPayload) (e : Engine S) {e' : Engine S}
        → put_chunks env store cid true idx ps e ≡ (ok tt, e')
        → AllHeld store promise cid 0 idx ps e'.store
    unfolding put_chunks put_chunk
    put_chunks-AllHeld idx [] e h = tt
    put_chunks-AllHeld idx (x ∷ ps) e {e'} h =
        let k = chunk_key cid idx 0 in
        let rest = put_chunks env store cid true (suc idx) ps in
        let (_, t, p, q) = bind-eq-ok (on_store (store.put k x true)) (λ _. rest) e h in
        let stored =
          subst (λ (t : Engine S). promise.Holds t.store k x) (ap (λ r. r.1) p)
            (promise.put_holds k x e.store (ap (λ r. r.0) p)) in
        (
          subst (λ (t : Engine S). promise.Holds t.store k x) (ap (λ r. r.1) q)
              (put_chunks-keeps true (suc idx) ps t k x (inr (omega arith)) stored),
          put_chunks-AllHeld (suc idx) ps t q,
        )
