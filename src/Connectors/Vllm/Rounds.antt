-- ===== src/Connectors/Vllm/Rounds.antt =====
-- Whole rounds of the connector of src/llmcache/connectors/vllm.py: the scheduler hears of a
-- request's blocks and builds the metadata, and the worker loads or saves by it.
use llmcache.Prelude.{
  ℕ, ◌==◌, ◌≡◌, ◌<◌, refl, ap, sym, ◌∙◌, subst, String, Bool, true, false, Option, some, [], ◌∷◌,
  String_discrete, arith, Bool-cases, inl, inr,
}
use llmcache.Results.{Result, ok, err}
use llmcache.Exec.{Exec, pure, continue, for_each, ◌>>=◌, ◌>>◌}
use llmcache.Dict
use llmcache.Store.{StorageBackend}
use llmcache.Engine.State.{Env, Engine}
use llmcache.Engine.Live.{Lasts, looked, looked-chunk_size, exists_of_found}
use llmcache.Types.{CacheDescriptor}
use llmcache.Types.Chunks.{num_chunks_for}
use llmcache.Connectors.Transfer.{KvTransfer}
use llmcache.Connectors.Bridge.{Bridge, chunks_for}
use llmcache.Connectors.Vllm.Plans.{stage_load_of_found}
use llmcache.Connectors.Vllm.{
  LoadOp, SaveOp, ExplicitConnectorMetadata, Request, Blocks, Connector, truthy, xfer_params,
  prompt_tokens, extract_block_ids, bind_metadata, build_connector_meta, plan_load, plan_save,
  plan_chunks, stage_load, stage_save, update_state_after_alloc, current_meta, load_op, save_op,
  start_load_kv, wait_for_save,
}

-- The save that is staged for a request, and the load of `n` tokens by chunks of `size`.
abbrev pub save_of : Request → String → Blocks → SaveOp
save_of r cid blocks = record {
  request_id = r.request_id;
  cache_id = cid;
  token_ids = prompt_tokens r;
  block_ids = extract_block_ids blocks;
  ttl = (xfer_params r).ttl;
  pin = (xfer_params r).pin;
  name = (xfer_params r).name;
}

abbrev pub load_for : Request → String → Blocks → ℕ → ℕ → LoadOp
load_for r cid blocks n size = record {
  request_id = r.request_id;
  cache_id = cid;
  block_ids = extract_block_ids blocks;
  num_chunks = num_chunks_for n size;
}

module _ {S T : Type 0} where
  -- The connector with nothing staged.
  abbrev pub idle : Bridge S T → Option ExplicitConnectorMetadata → Connector S T
  idle b meta = record { bridge = b; pending_loads = []; pending_saves = []; metadata = meta }

  -- The scheduler's `build_connector_meta`, bound by the worker, which then works.
  abbrev pub hand_over : Exec (Connector S T) (Unit {0}) → Exec (Connector S T) (Unit {0})
  hand_over work = build_connector_meta >>= bind_metadata >> work

  one_round :
      {A : Type 0} (x : A) (body : A → Exec (Bridge S T) (Unit {0})) (b : Bridge S T)
      → for_each (x ∷ []) body b ≡ body x b
  unfolding for_each
  one_round x body b = ends (body x b).0 (body x b).1
    where
      ends :
          (r : Result (Unit {0})) (t : Bridge S T) → continue r (λ _. for_each [] body) t ≡ (r, t)
      ends (ok tt) t = refl
      ends (err e) t = refl

module _ {S T : Type 0} (env : Env) (store : StorageBackend S) where
  -- A round of a request for `n` tokens.
  abbrev pub save_round : KvTransfer T → Request → Blocks → Exec (Connector S T) (Unit {0})
  save_round transfer r blocks =
      update_state_after_alloc env store r blocks 0
      >> hand_over (wait_for_save env store (some transfer))

  abbrev pub load_round : KvTransfer T → Request → Blocks → ℕ → Exec (Connector S T) (Unit {0})
  load_round transfer r blocks n =
      update_state_after_alloc env store r blocks n
      >> hand_over (start_load_kv env store (some transfer))

  save_staged :
      (r : Request) (blocks : Blocks) (b : Bridge S T) (meta : Option ExplicitConnectorMetadata)
      {cid : String}
      → truthy (xfer_params r).cache_id ≡ some cid
      → (xfer_params r).save ≡ true
      → update_state_after_alloc env store r blocks 0 (idle b meta) ≡ (
        ok tt,
        record (idle b meta) { pending_saves = (r.request_id, save_of r cid blocks) ∷ [] },
      )
  unfolding update_state_after_alloc stage_load stage_save plan_save Dict.put
  save_staged r blocks b meta named saves =
      rw (named, update_state_after_alloc) (rw (saves, stage_save) refl)

  pub save_round_lem :
      (transfer : KvTransfer T) (r : Request) (blocks : Blocks) (b : Bridge S T)
      (meta : Option ExplicitConnectorMetadata) {cid : String}
      → truthy (xfer_params r).cache_id ≡ some cid
      → (xfer_params r).save ≡ true
      → save_round transfer r blocks (idle b meta) ≡ (
        (save_op env store transfer (save_of r cid blocks) b).0,
        idle
            (save_op env store transfer (save_of r cid blocks) b).1
            (some (record { loads = []; saves = save_of r cid blocks ∷ [] })),
      )
  unfolding build_connector_meta wait_for_save current_meta
  save_round_lem transfer r blocks b meta {cid} named saves =
      let op = save_of r cid blocks in
      let planned = some (record { loads = []; saves = op ∷ [] }) in
      let work = wait_for_save env store (some transfer) in
      ap (λ x. continue x.0 (λ _. hand_over work) x.1) (save_staged r blocks b meta named saves)
      ∙ ap (λ (x : Result (Unit {0}) × Bridge S T). (x.0, idle x.1 planned))
          (one_round op (save_op env store transfer) b)

  -- The bridge when the engine has been asked whether the cache of `d` exists.
  abbrev pub found_with : CacheDescriptor → Bridge S T → Bridge S T
  found_with d b = record b { engine = looked env store d b.engine }

  abbrev load_planned :
      Request → LoadOp → Bridge S T → Option ExplicitConnectorMetadata → Connector S T
  load_planned r op b meta = record (idle b meta) { pending_loads = (r.request_id, op) ∷ [] }

  chunks_planned :
      (r : Request) (cid : String) (blocks : Blocks) (n : ℕ) (b : Bridge S T)
      (meta : Option ExplicitConnectorMetadata)
      → 0 < (b.engine).chunk_size
      → plan_chunks env store r cid (extract_block_ids blocks) n (idle b meta)
        ≡ (ok tt, load_planned r (load_for r cid blocks n (b.engine).chunk_size) b meta)
  unfolding plan_chunks plan_load chunks_for Dict.put
  chunks_planned r cid blocks n b meta sized = elim (Bool-cases ((b.engine).chunk_size == 0)) [
    | inl e ↦ absurd (ground arith)
    | inr e ↦ rw (e, chunks_for) refl
  ]

  load_staged :
      (r : Request) (blocks : Blocks) (n : ℕ) (b : Bridge S T)
      (meta : Option ExplicitConnectorMetadata) {cid : String} {d : CacheDescriptor}
      → truthy (xfer_params r).cache_id ≡ some cid
      → (xfer_params r).save ≡ false
      → 0 < n
      → 0 < (b.engine).chunk_size
      → Dict.get String_discrete (b.engine).descriptors cid ≡ some d
      → Lasts env store d
      → update_state_after_alloc env store r blocks n (idle b meta) ≡ (
        ok tt,
        load_planned r (load_for r cid blocks n (b.engine).chunk_size) (found_with d b) meta,
      )
  unfolding update_state_after_alloc stage_save
  load_staged r blocks n b meta {cid} {d} named saves pos sized found lasts =
      let ids = extract_block_ids blocks in
      let asked = exists_of_found env store cid b.engine found lasts in
      let size = looked-chunk_size env store d b.engine in
      let planned =
        stage_load_of_found env store r cid ids n (idle b meta) pos (ap (λ x. x.0) asked)
        ∙ ap
            (λ (x : Result Bool × Engine S).
              plan_chunks env store r cid ids n (idle (record b { engine = x.1 }) meta))
            asked
        ∙ chunks_planned r cid blocks n (found_with d b) meta (subst (λ k. 0 < k) (sym size) sized)
        ∙ ap (λ k. (ok tt, load_planned r (load_for r cid blocks n k) (found_with d b) meta))
            size in
      rw (named, update_state_after_alloc)
        (rw (saves, stage_save)
          (ap (λ (x : Result (Unit {0}) × Connector S T). continue x.0 (λ _. pure tt) x.1) planned))

  pub load_round_lem :
      (transfer : KvTransfer T) (r : Request) (blocks : Blocks) (n : ℕ) (b : Bridge S T)
      (meta : Option ExplicitConnectorMetadata) {cid : String} {d : CacheDescriptor}
      → truthy (xfer_params r).cache_id ≡ some cid
      → (xfer_params r).save ≡ false
      → 0 < n
      → 0 < (b.engine).chunk_size
      → Dict.get String_discrete (b.engine).descriptors cid ≡ some d
      → Lasts env store d
      → load_round transfer r blocks n (idle b meta) ≡ (
        (load_op env store transfer
            (load_for r cid blocks n (b.engine).chunk_size)
            (found_with d b)).0,
        idle
            (load_op env store transfer
              (load_for r cid blocks n (b.engine).chunk_size)
              (found_with d b)).1
            (some
              (record { loads = load_for r cid blocks n (b.engine).chunk_size ∷ []; saves = [] })),
      )
  unfolding build_connector_meta start_load_kv current_meta
  load_round_lem transfer r blocks n b meta {cid} {d} named saves pos sized found lasts =
      let op = load_for r cid blocks n (b.engine).chunk_size in
      let work = start_load_kv env store (some transfer) in
      ap (λ x. continue x.0 (λ _. hand_over work) x.1)
        (load_staged r blocks n b meta named saves pos sized found lasts)
      ∙ ap
          (λ (x : Result (Unit {0}) × Bridge S T).
            (x.0, idle x.1 (some (record { loads = op ∷ []; saves = [] }))))
          (one_round op (load_op env store transfer) (found_with d b))
