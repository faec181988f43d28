-- ===== src/Connectors/Vllm.antt =====
-- src/llmcache/connectors/vllm.py: the scheduler plans loads and saves, the worker performs them.
pub mod Transport
pub mod Saved
pub mod Plans
pub mod Rounds
pub mod Carried
pub mod Matched
use llmcache.Prelude.{
  ℕ, zero, suc, ◌+◌, ◌-◌, String, Bool, true, false, ◌&&◌, not, Option, none, some, List, [], ◌∷◌,
  length, ltb, if◌then◌else◌, ite, String_discrete, max,
}
use llmcache.Int.{ℤ}
use llmcache.Results.{Result, ok, err}
use llmcache.Exec.{Exec, pure, raise, modify, gets, for_each, ◌>>=◌, ◌>>◌}
use llmcache.Payload.{KvPayload}
use llmcache.Dict
use llmcache.Dict.{Dict}
use llmcache.Store.{StorageBackend}
use llmcache.Engine.State.{Env, Engine}
use llmcache.Engine.Register.{commit}
use llmcache.Engine.Lifecycle.{exists, lookup, load}
use llmcache.Connectors.Transfer.{KvTransfer}
use llmcache.Connectors.Bridge.{Bridge, on_engine, on_buffer, chunks_for, put_chunks}

pub record LoadOp : Type 0 where
  pub request_id : String
  pub cache_id : String
  pub block_ids : List ℕ
  pub num_chunks : ℕ

pub record SaveOp : Type 0 where
  pub request_id : String
  pub cache_id : String
  pub token_ids : List ℤ
  pub block_ids : List ℕ
  pub ttl : Option ℤ
  pub pin : Bool
  pub name : Option String

pub record ExplicitConnectorMetadata : Type 0 where
  pub loads : List LoadOp
  pub saves : List SaveOp

-- The entries of `kv_transfer_params` that the connector reads.
pub record XferParams : Type 0 where
  pub cache_id : Option String
  pub save : Bool
  pub ttl : Option ℤ
  pub pin : Bool
  pub name : Option String

-- The attributes of a request that the connector reads.
pub record Request : Type 0 where
  pub request_id : String
  pub kv_transfer_params : Option XferParams
  pub prompt_token_ids : Option (List ℤ)
  pub all_token_ids : Option (List ℤ)

unfoldable pub xfer_params : Request → XferParams
xfer_params r = elim r.kv_transfer_params [
  | some params ↦ params
  | none ↦ record { cache_id = none; save = false; ttl = none; pin = false; name = none }
]

unfoldable pub prompt_tokens : Request → List ℤ
prompt_tokens r = elim r.prompt_token_ids [
  | some toks ↦ toks
  | none ↦ elim r.all_token_ids [ some toks ↦ toks | none ↦ [] ]
]

-- What vLLM passes as `blocks`: nothing, an object whose `get_block_ids` gives groups or plain
-- ids, a plain sequence, or something else.
pub data Blocks : Type 0 where
  absent : Blocks
  grouped : List (List ℕ) → Blocks
  ungrouped : List ℕ → Blocks
  plain : List ℕ → Blocks
  other : Blocks

unfoldable pub extract_block_ids : Blocks → List ℕ
extract_block_ids absent = []
extract_block_ids (grouped []) = []
extract_block_ids (grouped (group ∷ _)) = group
extract_block_ids (ungrouped ids) = ids
extract_block_ids (plain ids) = ids
extract_block_ids other = []

-- `params.get("cache_id")`, when it is truthy.
unfoldable pub truthy : Option String → Option String
truthy none = none
truthy (some cid) = ite (String_discrete cid "") none (some cid)

-- `ExplicitLMCacheConnector`, with the engine and the buffer in `bridge`.
pub record Connector (S T : Type 0) : Type 0 where
  pub bridge : Bridge S T
  pub pending_loads : Dict String LoadOp
  pub pending_saves : Dict String SaveOp
  pub metadata : Option ExplicitConnectorMetadata

-- `__init__`
unfoldable pub init : {S T : Type 0} → Bridge S T → Connector S T
init bridge = record { bridge = bridge; pending_loads = []; pending_saves = []; metadata = none }

module _ {S T : Type 0} where
  abbrev pub on_bridge : {A : Type 0} → Exec (Bridge S T) A → Exec (Connector S T) A
  on_bridge m c = ((m c.bridge).0, record c { bridge = (m c.bridge).1 })

  -- `bind_connector_metadata`, `clear_connector_metadata`
  abbrev pub bind_metadata : ExplicitConnectorMetadata → Exec (Connector S T) (Unit {0})
  bind_metadata meta = modify λ c. record c { metadata = some meta }

  abbrev pub clear_metadata : Exec (Connector S T) (Unit {0})
  clear_metadata = modify λ c. record c { metadata = none }

  unfoldable pub plan_load : String → LoadOp → Connector S T → Connector S T
  plan_load rid op c = record c { pending_loads = Dict.put String_discrete c.pending_loads rid op }

  unfoldable pub plan_save : String → SaveOp → Connector S T → Connector S T
  plan_save rid op c = record c { pending_saves = Dict.put String_discrete c.pending_saves rid op }

  unfoldable pub build_connector_meta : Exec (Connector S T) ExplicitConnectorMetadata
  build_connector_meta c = (
    ok (record { loads = Dict.values c.pending_loads; saves = Dict.values c.pending_saves }),
    record c { pending_loads = []; pending_saves = [] },
  )

  -- The hooks of single layers, which do nothing, and `get_finished`.
  unfoldable pub wait_for_layer_load : Exec (Connector S T) (Unit {0})
  wait_for_layer_load = pure tt

  unfoldable pub save_kv_layer : Exec (Connector S T) (Unit {0})
  save_kv_layer = pure tt

  unfoldable pub get_finished : Exec (Connector S T) (Option (List String) × Option (List String))
  get_finished = pure (none, none)

  unfoldable pub request_finished :
      Request → List ℕ → Exec (Connector S T) (Bool × Option XferParams)
  request_finished request block_ids = pure (false, none)

module _ {S T : Type 0} (env : Env) (store : StorageBackend S) where
  -- `get_num_new_matched_tokens`, for a cache that exists.
  unfoldable pub new_matched : Request → String → ℕ → Exec (Connector S T) (ℕ × Bool)
  unfolding prompt_tokens lookup
  new_matched request cid num_computed_tokens = do
    result ← on_bridge (on_engine (lookup env store cid (some (prompt_tokens request))))
    pure (result.num_tokens - num_computed_tokens, false)

  unfoldable pub get_num_new_matched_tokens : Request → ℕ → Exec (Connector S T) (ℕ × Bool)
  unfolding truthy xfer_params exists new_matched
  get_num_new_matched_tokens request num_computed_tokens =
      elim (truthy (xfer_params request).cache_id) [
        | none ↦ pure (0, false)
        | some cid ↦ on_bridge (on_engine (exists env store cid)) >>= λ found.
            if found then new_matched request cid num_computed_tokens else pure (0, false)
      ]

  unfoldable pub plan_chunks : Request → String → List ℕ → ℕ → Exec (Connector S T) (Unit {0})
  unfolding chunks_for plan_load
  plan_chunks request cid block_ids num_external_tokens = do
    num_chunks ← on_bridge (chunks_for num_external_tokens)
    modify (
        plan_load request.request_id (record {
          request_id = request.request_id;
          cache_id = cid;
          block_ids = block_ids;
          num_chunks = num_chunks;
        }))

  -- `update_state_after_alloc`: the load, then the save.
  unfoldable pub stage_load : Request → String → List ℕ → ℕ → Exec (Connector S T) (Unit {0})
  unfolding exists plan_chunks
  stage_load request cid block_ids num_external_tokens =
      if ltb 0 num_external_tokens
      then (on_bridge (on_engine (exists env store cid)) >>= λ found.
          if found then plan_chunks request cid block_ids num_external_tokens else pure tt)
      else pure tt

  unfoldable pub stage_save : Request → String → List ℕ → Exec (Connector S T) (Unit {0})
  unfolding xfer_params prompt_tokens plan_save
  stage_save request cid block_ids =
      let params = xfer_params request in
      if params.save
      then modify (
          plan_save request.request_id (record {
            request_id = request.request_id;
            cache_id = cid;
            token_ids = prompt_tokens request;
            block_ids = block_ids;
            ttl = params.ttl;
            pin = params.pin;
            name = params.name;
          }))
      else pure tt

  unfoldable pub update_state_after_alloc : Request → Blocks → ℕ → Exec (Connector S T) (Unit {0})
  unfolding xfer_params extract_block_ids truthy stage_load stage_save
  update_state_after_alloc request blocks num_external_tokens =
      elim (truthy (xfer_params request).cache_id) [
        | none ↦ pure tt
        | some cid ↦
            stage_load request cid (extract_block_ids blocks) num_external_tokens
            >> stage_save request cid (extract_block_ids blocks)
      ]

  -- `_current_meta`: the base's getter, and behind it the attribute that the getter reads.
  unfoldable pub current_meta : Exec (Connector S T) (Option ExplicitConnectorMetadata)
  current_meta = gets λ c. c.metadata

  -- One round of `start_load_kv`, and of `wait_for_save`.
  unfoldable pub load_op : KvTransfer T → LoadOp → Exec (Bridge S T) (Unit {0})
  unfolding load
  load_op transfer op = do
    payloads ← on_engine (load env store op.cache_id (some op.num_chunks) 0)
    on_buffer (transfer.load_into op.block_ids payloads)

  unfoldable pub save_op : KvTransfer T → SaveOp → Exec (Bridge S T) (Unit {0})
  unfolding chunks_for put_chunks commit
  save_op transfer op = do
    num_chunks ← chunks_for (length op.token_ids)
    payloads ← on_buffer (transfer.save_from op.block_ids num_chunks)
    on_engine (put_chunks env store op.cache_id op.pin 0 payloads)
    _ ← on_engine (
        commit env store op.cache_id op.token_ids transfer.num_layers (0 ∷ []) op.ttl op.pin
          op.name)
    pure tt

  unfoldable pub start_load_kv : Option (KvTransfer T) → Exec (Connector S T) (Unit {0})
  unfolding current_meta for_each load_op
  start_load_kv none = pure tt
  start_load_kv (some transfer) = current_meta >>= λ meta. elim meta [
    | none ↦ pure tt
    | some m ↦ on_bridge (for_each m.loads (load_op transfer))
  ]

  unfoldable pub wait_for_save : Option (KvTransfer T) → Exec (Connector S T) (Unit {0})
  unfolding current_meta for_each save_op
  wait_for_save none = pure tt
  wait_for_save (some transfer) = current_meta >>= λ meta. elim meta [
    | none ↦ pure tt
    | some m ↦ on_bridge (for_each m.saves (save_op transfer))
  ]
