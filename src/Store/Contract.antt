-- ===== src/Store/Contract.antt =====
-- What a store promises of pinned objects (store/base.py and types.py: "pinned so they are never
-- silently evicted"), and what a cold tier is when nothing goes wrong in it.
use llmcache.Prelude.{◌≡◌, ◌≢◌, Bool, true, Option, some, ite}
use llmcache.Results.{ok}
use llmcache.Types.{ChunkKey, ChunkKey_discrete}
use llmcache.Payload.{KvPayload}
use llmcache.Store.{StorageBackend}

-- `Holds s j o`: the object is stored under the key and will be found there. A `put` with a pin
-- that returns makes it so, and no call about another key, failing or not, ends it.
pub record KeepsPinned {S : Type 0} (store : StorageBackend S) : Type 1 where
  pub Holds : S → ChunkKey → KvPayload → Type 0
  pub put_holds :
      (k : ChunkKey) (o : KvPayload) (s : S)
      → (store.put k o true s).0 ≡ ok tt
      → Holds (store.put k o true s).1 k o
  pub put_keeps :
      (k : ChunkKey) (o : KvPayload) (p : Bool) (s : S) (j : ChunkKey) (o' : KvPayload)
      → j ≢ k
      → Holds s j o'
      → Holds (store.put k o p s).1 j o'
  pub get_returns :
      (k : ChunkKey) (o : KvPayload) (s : S) → Holds s k o → (store.get k s).0 ≡ ok (some o)
  pub get_keeps :
      (k : ChunkKey) (s : S) (j : ChunkKey) (o : KvPayload)
      → Holds s j o
      → Holds (store.get k s).1 j o
  pub remove_keeps :
      (k : ChunkKey) (s : S) (j : ChunkKey) (o : KvPayload)
      → j ≢ k
      → Holds s j o
      → Holds (store.remove k s).1 j o
  pub pin_keeps :
      (k : ChunkKey) (s : S) (j : ChunkKey) (o : KvPayload)
      → Holds s j o
      → Holds (store.pin k s).1 j o
  pub unpin_keeps :
      (k : ChunkKey) (s : S) (j : ChunkKey) (o : KvPayload)
      → j ≢ k
      → Holds s j o
      → Holds (store.unpin k s).1 j o

-- The same promise, where only keys that fit the store are used.
pub record KeepsPinnedOf {S : Type 0} (IsFit : ChunkKey → Type 0) (store : StorageBackend S)
    : Type 1 where
  pub Holds : S → ChunkKey → KvPayload → Type 0
  pub put_holds :
      (k : ChunkKey) (o : KvPayload) (s : S)
      → IsFit k
      → (store.put k o true s).0 ≡ ok tt
      → Holds (store.put k o true s).1 k o
  pub put_keeps :
      (k : ChunkKey) (o : KvPayload) (p : Bool) (s : S) (j : ChunkKey) (o' : KvPayload)
      → IsFit k
      → j ≢ k
      → Holds s j o'
      → Holds (store.put k o p s).1 j o'
  pub get_returns :
      (k : ChunkKey) (o : KvPayload) (s : S)
      → IsFit k
      → Holds s k o
      → (store.get k s).0 ≡ ok (some o)
  pub get_keeps :
      (k : ChunkKey) (s : S) (j : ChunkKey) (o : KvPayload)
      → IsFit k
      → Holds s j o
      → Holds (store.get k s).1 j o
  pub remove_keeps :
      (k : ChunkKey) (s : S) (j : ChunkKey) (o : KvPayload)
      → IsFit k
      → j ≢ k
      → Holds s j o
      → Holds (store.remove k s).1 j o
  pub pin_keeps :
      (k : ChunkKey) (s : S) (j : ChunkKey) (o : KvPayload)
      → IsFit k
      → Holds s j o
      → Holds (store.pin k s).1 j o
  pub unpin_keeps :
      (k : ChunkKey) (s : S) (j : ChunkKey) (o : KvPayload)
      → IsFit k
      → j ≢ k
      → Holds s j o
      → Holds (store.unpin k s).1 j o

-- A store that behaves as a map from keys to objects in the states `Fine`: no `put` or `get` raises
-- there, and nothing is evicted.
pub record IsMap {S : Type 0} (store : StorageBackend S) : Type 1 where
  pub Fine : S → Type 0
  pub view : S → ChunkKey → Option KvPayload
  pub put_returns :
      (k : ChunkKey) (o : KvPayload) (p : Bool) (s : S) → Fine s → (store.put k o p s).0 ≡ ok tt
  pub put-Fine :
      (k : ChunkKey) (o : KvPayload) (p : Bool) (s : S) → Fine s → Fine (store.put k o p s).1
  pub view-put :
      (k : ChunkKey) (o : KvPayload) (p : Bool) (s : S) (j : ChunkKey)
      → Fine s
      → view (store.put k o p s).1 j ≡ ite (ChunkKey_discrete k j) (some o) (view s j)
  pub get_returns : (k : ChunkKey) (s : S) → Fine s → (store.get k s).0 ≡ ok (view s k)
  pub get-Fine : (k : ChunkKey) (s : S) → Fine s → Fine (store.get k s).1
  pub view-get :
      (k : ChunkKey) (s : S) (j : ChunkKey) → Fine s → view (store.get k s).1 j ≡ view s j
