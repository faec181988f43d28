-- ===== src/Connectors/Sglang.antt =====
-- src/llmcache/connectors/sglang.py.
pub mod Asked
pub mod Roundtrip
use llmcache.Prelude.{ℕ, String, Bool, Option, none, some, List, [], ◌∷◌, length, if◌then◌else◌}
use llmcache.Int.{ℤ}
use llmcache.Results.{runtime_error}
use llmcache.Exec.{Exec, pure, raise, ◌>>=◌, ◌>>◌}
use llmcache.Store.{StorageBackend}
use llmcache.Engine.State.{Env}
use llmcache.Engine.Register.{commit}
use llmcache.Engine.Lifecycle.{exists, lookup, load}
use llmcache.Connectors.Transfer.{KvTransfer}
use llmcache.Connectors.Bridge.{Bridge, on_engine, on_buffer, chunks_for, put_chunks}

module _ {S T : Type 0} (env : Env) (backend : StorageBackend S) where
  -- `store`, with a transfer.
  unfoldable pub store_through :
      KvTransfer T
      → String
      → List ℤ
      → List ℕ
      → Option ℤ
      → Bool
      → Option String
      → Exec (Bridge S T) (Unit {0})
  unfolding chunks_for put_chunks commit
  store_through transfer cid token_ids block_ids ttl pin name = do
    num_chunks ← chunks_for (length token_ids)
    payloads ← on_buffer (transfer.save_from block_ids num_chunks)
    on_engine (put_chunks env backend cid pin 0 payloads)
    _ ← on_engine (commit env backend cid token_ids transfer.num_layers (0 ∷ []) ttl pin name)
    pure tt

  unfoldable pub store :
      Option (KvTransfer T)
      → String
      → List ℤ
      → List ℕ
      → Option ℤ
      → Bool
      → Option String
      → Exec (Bridge S T) (Unit {0})
  unfolding store_through
  store none cid token_ids block_ids ttl pin name = raise runtime_error
  store (some transfer) cid token_ids block_ids ttl pin name =
      store_through transfer cid token_ids block_ids ttl pin name

  -- `retrieve`, with a transfer and for a cache that exists.
  unfoldable pub retrieve_through :
      KvTransfer T → String → List ℕ → Option (List ℤ) → Exec (Bridge S T) ℕ
  unfolding lookup load
  retrieve_through transfer cid block_ids request_tokens = do
    result ← on_engine (lookup env backend cid request_tokens)
    payloads ← on_engine (load env backend cid (some result.num_chunks) 0)
    on_buffer (transfer.load_into block_ids payloads)
    pure result.num_tokens

  unfoldable pub retrieve :
      Option (KvTransfer T) → String → List ℕ → Option (List ℤ) → Exec (Bridge S T) ℕ
  unfolding exists retrieve_through
  retrieve none cid block_ids request_tokens = raise runtime_error
  retrieve (some transfer) cid block_ids request_tokens = do
    found ← on_engine (exists env backend cid)
    if found then retrieve_through transfer cid block_ids request_tokens else pure 0
