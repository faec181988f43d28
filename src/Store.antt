-- ===== src/Store.antt =====
-- src/llmcache/store/base.py: what the engine asks of a store. A call may change the store and
-- may raise. The implementations are in the modules below.
pub mod Contract
pub mod Cpu
pub mod Tiered
pub mod Disk
pub mod Remote
use llmcache.Prelude.{ℕ, Bool, Option, List}
use llmcache.Exec.{Exec, pure, for_each, ◌>>=◌, ◌>>◌}
use llmcache.Types.{ChunkKey}
use llmcache.Payload.{KvPayload}

pub record StoreStats : Type 0 where
  pub num_objects : ℕ
  pub used_bytes : ℕ
  pub capacity_bytes : Option ℕ
  pub pinned_objects : ℕ
  pub pinned_bytes : ℕ

pub record StorageBackend (S : Type 0) : Type 0 where
  pub put : ChunkKey → KvPayload → Bool → Exec S (Unit {0})
  pub get : ChunkKey → Exec S (Option KvPayload)
  pub contains : ChunkKey → Exec S Bool
  pub remove : ChunkKey → Exec S Bool
  pub pin : ChunkKey → Exec S (Unit {0})
  pub unpin : ChunkKey → Exec S (Unit {0})
  pub keys : Exec S (List ChunkKey)
  pub stats : Exec S StoreStats

module _ {S : Type 0} (store : StorageBackend S) where
  -- `StorageBackend.clear`
  pub clear : Exec S (Unit {0})
  clear = do ks ← store.keys; for_each ks (λ k. store.remove k >>= λ _. pure tt)
