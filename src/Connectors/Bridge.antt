-- ===== src/Connectors/Bridge.antt =====
-- The cache engine and the paged buffer side by side, as the connectors of src/llmcache/connectors
-- hold them.
use llmcache.Prelude.{ℕ, suc, ◌+◌, ◌-◌, ◌/◌, String, Bool, List, [], ◌∷◌, if◌then◌else◌, ◌==◌}
use llmcache.Results.{ok, err, zero_division_error}
use llmcache.Exec.{Exec, pure, ◌>>◌}
use llmcache.Payload.{KvPayload}
use llmcache.Store.{StorageBackend}
use llmcache.Engine.State.{Env, Engine}
use llmcache.Engine.Register.{put_chunk}

pub record Bridge (S T : Type 0) : Type 0 where
  pub engine : Engine S
  pub buffer : T

module _ {S T : Type 0} where
  -- A call of the engine, and one of the transfer.
  abbrev pub on_engine : {A : Type 0} → Exec (Engine S) A → Exec (Bridge S T) A
  on_engine m b = ((m b.engine).0, record b { engine = (m b.engine).1 })

  abbrev pub on_buffer : {A : Type 0} → Exec T A → Exec (Bridge S T) A
  on_buffer m b = ((m b.buffer).0, record b { buffer = (m b.buffer).1 })

  -- `-(-a // self.engine.chunk_size)`
  unfoldable pub chunks_for : ℕ → Exec (Bridge S T) ℕ
  chunks_for a b =
      let n = (b.engine).chunk_size in
      (if n == 0 then err zero_division_error else ok ((a + n - 1) / n), b)

-- `for idx, payload in enumerate(payloads): self.engine.put_chunk(...)`
unfoldable pub put_chunks :
    {S : Type 0}
    → Env
    → StorageBackend S
    → String
    → Bool
    → ℕ
    → List KvPayload
    → Exec (Engine S) (Unit {0})
unfolding put_chunk
put_chunks env store cid pin idx [] = pure tt
put_chunks env store cid pin idx (payload ∷ payloads) =
    put_chunk env store cid idx payload 0 pin >> put_chunks env store cid pin (suc idx) payloads
