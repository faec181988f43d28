-- ===== src/Engine/State.antt =====
-- The state of `ExplicitKVCache` and what it takes from outside: the clock, `uuid4` and the digest
-- of `hashlib`. The environment gives the readings of the clock and the fresh ids in order.
use llmcache.Prelude.{ℕ, suc, String, Bool, Option, List}
use llmcache.Int.{ℤ}
use llmcache.Results.{Result, ok}
use llmcache.Exec.{Exec}
use llmcache.Types.{CacheDescriptor}
use llmcache.Dict.{Dict}

pub record Env : Type 0 where
  pub digest : List ℕ → String
  pub time : ℕ → ℤ
  pub new_id : ℕ → String

pub record Engine (S : Type 0) : Type 0 where
  pub store : S
  pub chunk_size : ℕ
  pub default_ttl : Option ℤ
  pub descriptors : Dict String CacheDescriptor
  pub readings : ℕ
  pub ids : ℕ

-- `LookupResult`
pub record LookupResult : Type 0 where
  pub cache_id : String
  pub num_tokens : ℕ
  pub num_chunks : ℕ
  pub full : Bool

module _ {S : Type 0} where
  -- A call of the store.
  abbrev pub on_store : {A : Type 0} → Exec S A → Exec (Engine S) A
  on_store m e = ((m e.store).0, record e { store = (m e.store).1 })

  -- A step that does not change the engine.
  abbrev pub lifted : {A : Type 0} → Result A → Exec (Engine S) A
  lifted r e = (r, e)

  -- `time.time()`
  abbrev pub read_clock : Env → Exec (Engine S) ℤ
  read_clock env e = (ok (env.time e.readings), record e { readings = suc e.readings })
