-- ===== src/Engine/Removal.antt =====
-- `delete` and the expiry of a descriptor: what they remove and what they leave alone.
use llmcache.Prelude.{
  ℕ, ◌≡◌, ◌≢◌, refl, ap, String, none, List, arith, inl, inr, ite, range_from, String_discrete,
  Option-cases,
}
use llmcache.Exec.{Exec, pure, for_each, for_each-keeps, continue-keeps, ◌>>=◌}
use llmcache.Types.{CacheDescriptor, ChunkKey, num_chunks}
use llmcache.Payload.{KvPayload}
use llmcache.Dict
use llmcache.Store.{StorageBackend}
use llmcache.Store.Contract.{KeepsPinned}
use llmcache.Engine.State.{Env, Engine, on_store}
use llmcache.Engine.Register.{chunk_key}
use llmcache.Engine.Lifecycle.{each_chunk, delete_chunks, delete}

module _ {S : Type 0} (env : Env) (store : StorageBackend S) where
  pub each_chunk-keeps :
      (P : Engine S → Type 0) (body : ChunkKey → Exec (Engine S) (Unit {0})) (cid : String)
      (workers : List ℕ) (n : ℕ) (e : Engine S)
      → P e
      → ((idx worker : ℕ) (t : Engine S) → P t → P (body (chunk_key cid idx worker) t).1)
      → P (each_chunk env store body cid workers n e).1
  unfolding each_chunk
  each_chunk-keeps P body cid workers n e h k =
      for_each-keeps P workers
        (λ worker. for_each (range_from 0 n) λ idx. body (chunk_key cid idx worker)) e h
        λ worker t ht.
          for_each-keeps P (range_from 0 n) (λ idx. body (chunk_key cid idx worker)) t ht
            λ idx. k idx worker

  -- Removing chunks, whatever the store does, keeps what removing one keeps.
  delete_chunks-keeps :
      (P : Engine S → Type 0) (cid : String) (d : CacheDescriptor) (e : Engine S)
      → P e
      → ((idx worker : ℕ) (t : Engine S)
          → P t
          → P (record t { store = (store.remove (chunk_key cid idx worker) t.store).1 }))
      → P (delete_chunks env store cid d e).1
  unfolding delete_chunks
  delete_chunks-keeps P cid d e h k =
      each_chunk-keeps P (λ key. on_store (store.remove key) >>= λ _. pure tt) cid d.worker_ids
        (num_chunks d) e h
        λ idx worker t ht.
          let m = on_store (store.remove (chunk_key cid idx worker)) in
          continue-keeps P (m t).0 (λ _. pure tt) (m t).1 (k idx worker t ht) λ _. k idx worker t ht

  pub delete-keeps :
      (P : Engine S → Type 0) (cid : String) (e : Engine S)
      → P e
      → P (record e { descriptors = Dict.remove String_discrete e.descriptors cid })
      → ((idx worker : ℕ) (t : Engine S)
          → P t
          → P (record t { store = (store.remove (chunk_key cid idx worker) t.store).1 }))
      → P (delete env store cid e).1
  unfolding delete
  delete-keeps P cid e h hr k = elim (Option-cases (Dict.get String_discrete e.descriptors cid)) [
    | inl n ↦ rw (n, delete) h
    | inr (d, f) ↦
        rw (f, delete)
          (delete_chunks-keeps P cid d
            (record e { descriptors = Dict.remove String_discrete e.descriptors cid }) hr k)
  ]

  -- Deleting a cache id, whether or not the store raises, forgets its descriptor and no other one.
  pub get-delete :
      (cid c : String) (e : Engine S)
      → Dict.get String_discrete (delete env store cid e).1.descriptors c
        ≡ ite (String_discrete cid c) none (Dict.get String_discrete e.descriptors c)
  unfolding delete
  get-delete cid c e = elim (Option-cases (Dict.get String_discrete e.descriptors cid)) [
    | inl n ↦ rw (n, delete) (ground arith)
    | inr (d, f) ↦
        rw (f, delete)
          (delete_chunks-keeps
            (λ (t : Engine S).
              Dict.get String_discrete t.descriptors c
              ≡ ite (String_discrete cid c) none (Dict.get String_discrete e.descriptors c))
            cid d (record e { descriptors = Dict.remove String_discrete e.descriptors cid })
            (Dict.get-remove String_discrete e.descriptors cid c) (λ idx worker t h. h))
  ]

  -- Deleting a cache id keeps every pinned chunk of the other ones, in a store that keeps its
  -- promise.
  pub delete-Holds :
      (promise : KeepsPinned store) (cid : String) (e : Engine S) (j : ChunkKey) (o : KvPayload)
      → j.cache_id ≢ cid
      → promise.Holds e.store j o
      → promise.Holds (delete env store cid e).1.store j o
  delete-Holds promise cid e j o ne h =
      delete-keeps (λ (t : Engine S). promise.Holds t.store j o) cid e h h
        λ idx worker t ht.
          promise.remove_keeps (chunk_key cid idx worker) t.store j o
            (λ same. ne (ap (λ (k : ChunkKey). k.cache_id) same)) ht

  pub delete-chunk_size :
      (cid : String) (e : Engine S) → (delete env store cid e).1.chunk_size ≡ e.chunk_size
  delete-chunk_size cid e =
      delete-keeps (λ (t : Engine S). t.chunk_size ≡ e.chunk_size) cid e refl refl
        λ idx worker t h. h
