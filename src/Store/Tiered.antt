-- ===== src/Store/Tiered.antt =====
-- src/llmcache/store/tiered.py: a hot tier over a cold one. A hot tier's calls work on the state
-- of both, since a `CPUBackend` demotes to the cold tier when it evicts.
pub mod Promises
pub mod NoLoss
pub mod Reads
use llmcache.Prelude.{
  ℕ, ◌+◌, Bool, true, false, ◌||◌, Option, none, some, List, [], ◌∷◌, length, if◌then◌else◌,
}
use llmcache.Results.{ok}
use llmcache.Exec.{Exec, pure, ◌>>=◌, ◌>>◌}
use llmcache.Types.{ChunkKey, ChunkKey_discrete}
use llmcache.Payload.{KvPayload}
use llmcache.Sets
use llmcache.Store.{StorageBackend, StoreStats}
use llmcache.Store.Cpu
use llmcache.Store.Cpu.{Cpu}

-- `for key in self.cold.keys(): seen.add(key)`
unfoldable pub add_all : List ChunkKey → List ChunkKey → List ChunkKey
add_all seen [] = seen
add_all seen (k ∷ ks) = add_all (Sets.add ChunkKey_discrete seen k) ks

abbrev both : Option ℕ → Option ℕ → Option ℕ
both (some a) (some b) = some (a + b)
both (some a) none = none
both none _ = none

module _ {H C : Type 0} where
  abbrev pub on_cold : {A : Type 0} → Exec C A → Exec (H × C) A
  on_cold m (h, c) = ((m c).0, (h, (m c).1))

  module _ (hot : StorageBackend (H × C)) (cold : StorageBackend C) where
    unfoldable pub put : ChunkKey → KvPayload → Bool → Exec (H × C) (Unit {0})
    put key obj pin = do
      hot.put key obj pin
      if pin then on_cold (cold.put key obj true) else pure tt

    -- `get`, where the hot tier has nothing.
    unfoldable pub promote : ChunkKey → Option KvPayload → Exec (H × C) (Option KvPayload)
    promote key none = pure none
    promote key (some obj) = hot.put key obj false >> pure (some obj)

    unfoldable pub fall_through : ChunkKey → Option KvPayload → Exec (H × C) (Option KvPayload)
    unfolding promote
    fall_through key (some obj) = pure (some obj)
    fall_through key none = on_cold (cold.get key) >>= promote key

    unfoldable pub get : ChunkKey → Exec (H × C) (Option KvPayload)
    unfolding fall_through
    get key = hot.get key >>= fall_through key

    unfoldable pub contains : ChunkKey → Exec (H × C) Bool
    contains key =
        hot.contains key >>= λ found. if found then pure true else on_cold (cold.contains key)

    unfoldable pub remove : ChunkKey → Exec (H × C) Bool
    remove key = do
      removed_hot ← hot.remove key
      removed_cold ← on_cold (cold.remove key)
      pure (removed_hot || removed_cold)

    unfoldable pub pin : ChunkKey → Exec (H × C) (Unit {0})
    pin key = hot.pin key >> on_cold (cold.pin key)

    unfoldable pub unpin : ChunkKey → Exec (H × C) (Unit {0})
    unpin key = hot.unpin key >> on_cold (cold.unpin key)

    unfoldable pub keys : Exec (H × C) (List ChunkKey)
    unfolding add_all
    keys = do
      hot_keys ← hot.keys
      cold_keys ← on_cold cold.keys
      pure (add_all (add_all [] hot_keys) cold_keys)

    unfoldable pub stats : Exec (H × C) StoreStats
    unfolding keys
    stats = do
      h ← hot.stats
      c ← on_cold cold.stats
      all_keys ← keys
      pure (record {
        num_objects = length all_keys;
        used_bytes = h.used_bytes + c.used_bytes;
        capacity_bytes = both h.capacity_bytes c.capacity_bytes;
        pinned_objects = h.pinned_objects + c.pinned_objects;
        pinned_bytes = h.pinned_bytes + c.pinned_bytes;
      })

    unfoldable pub backend : StorageBackend (H × C)
    backend = record {
      put = put;
      get = get;
      contains = contains;
      remove = remove;
      pin = pin;
      unpin = unpin;
      keys = keys;
      stats = stats;
    }

-- `TieredBackend(CPUBackend(...), cold)`: the constructor wires `on_evict` to `_demote`.
module _ {C : Type 0} (cold : StorageBackend C) where
  unfoldable pub demote : ChunkKey → KvPayload → Exec C (Unit {0})
  demote key obj = cold.put key obj false

  unfoldable pub cpu_hot : StorageBackend (Cpu × C)
  unfolding demote Cpu.backend
  cpu_hot = Cpu.backend (some demote)

  unfoldable pub over_cpu : StorageBackend (Cpu × C)
  unfolding backend cpu_hot
  over_cpu = backend cpu_hot cold
