-- ===== src/Connectors/Vllm/Plans.antt =====
-- The scheduler's side of src/llmcache/connectors/vllm.py: which load is staged for a request.
use llmcache.Prelude.{
  Bool-cases, inl, inr, ◌==◌, ℕ, ◌+◌, ◌*◌, ◌≡◌, ◌<◌, ◌≤◌, refl, ap, ap₂, sym, ◌∙◌, subst, String,
  Bool, true, some, List, arith, ltb, String_discrete, if◌then◌else◌,
}
use llmcache.Results.{ok}
use llmcache.Exec.{pure, modify, continue, if-keeps, bind-eq-ok, ◌>>=◌, ◌>>◌}
use llmcache.Types.Chunks.{num_chunks_for, enough_chunks, no_chunk_more}
use llmcache.Dict
use llmcache.Dict.{Dict}
use llmcache.Store.{StorageBackend}
use llmcache.Engine.State.{Env}
use llmcache.Engine.Lifecycle.{exists}
use llmcache.Engine.Expiry.{exists-chunk_size}
use llmcache.Connectors.Bridge.{Bridge, on_engine, chunks_for}
use llmcache.Connectors.Chunks.{chunks_for-eq-ok}
use llmcache.Connectors.Vllm.{
  LoadOp, Request, Blocks, Connector, on_bridge, truthy, xfer_params, extract_block_ids, plan_load,
  plan_save, plan_chunks, stage_load, stage_save, update_state_after_alloc,
}

module _ {S T : Type 0} (env : Env) (store : StorageBackend S) where
  -- What is staged for `n` external tokens.
  pub record Planned (r : Request) (cid : String) (ids : List ℕ) (n : ℕ) (c' : Connector S T)
      : Type 0 where
    pub op : LoadOp
    pub staged : Dict.get String_discrete c'.pending_loads r.request_id ≡ some op
    pub from_cache : op.cache_id ≡ cid
    pub into_blocks : op.block_ids ≡ ids
    pub enough : n ≤ op.num_chunks * ((c'.bridge).engine).chunk_size
    pub no_more :
        op.num_chunks * ((c'.bridge).engine).chunk_size < n + ((c'.bridge).engine).chunk_size

  plan_load-Planned :
      (r : Request) (cid : String) (ids : List ℕ) (n k : ℕ) (c : Connector S T)
      → k ≡ num_chunks_for n ((c.bridge).engine).chunk_size
      → 0 < ((c.bridge).engine).chunk_size
      → Planned r cid ids n (
          plan_load r.request_id
            (record { request_id = r.request_id; cache_id = cid; block_ids = ids; num_chunks = k })
            c)
  unfolding plan_load
  plan_load-Planned r cid ids n k c ek pos =
      let op : LoadOp = record {
        request_id = r.request_id;
        cache_id = cid;
        block_ids = ids;
        num_chunks = k;
      } in
      let size = ((c.bridge).engine).chunk_size in
      record {
        op = op;
        staged =
            ground
              (arith, Dict.get-put String_discrete c.pending_loads r.request_id r.request_id op);
        from_cache = refl;
        into_blocks = refl;
        enough = subst (λ m. n ≤ m * size) (sym ek) (enough_chunks n size pos);
        no_more = subst (λ m. m * size < n + size) (sym ek) (no_chunk_more n size pos);
      }

  plan_chunks-Planned :
      (r : Request) (cid : String) (ids : List ℕ) (n : ℕ) (c : Connector S T) {c' : Connector S T}
      → plan_chunks env store r cid ids n c ≡ (ok tt, c')
      → Planned r cid ids n c'
  unfolding plan_chunks plan_load
  plan_chunks-Planned r cid ids n c {c'} h =
      let finish = λ (k : ℕ). modify {S = Connector S T} (
        plan_load r.request_id (record {
          request_id = r.request_id;
          cache_id = cid;
          block_ids = ids;
          num_chunks = k;
        })) in
      let (k, c1, h1, h2) = bind-eq-ok (on_bridge (chunks_for n)) finish c h in
      let (ek, eb, pos) =
        chunks_for-eq-ok n c.bridge
          (ap₂ (λ x y. (x, y)) (ap (λ x. x.0) h1) (ap (λ x. x.1.bridge) h1)) in
      let size = ap (λ (b : Bridge S T). (b.engine).chunk_size) (sym eb) in
      subst (Planned r cid ids n) (ap (λ x. x.1) h2) (
        plan_load-Planned r cid ids n k c1 (ek ∙ ap (num_chunks_for n) size)
          (subst (λ m. 0 < m) size pos))

  stage_save-loads :
      (r : Request) (cid : String) (ids : List ℕ) (c : Connector S T)
      → ((stage_save env store r cid ids c).1.pending_loads ≡ c.pending_loads)
        × ((stage_save env store r cid ids c).1.bridge ≡ c.bridge)
  unfolding stage_save plan_save
  stage_save-loads r cid ids c =
      if-keeps (λ (t : Connector S T). (t.pending_loads ≡ c.pending_loads) × (t.bridge ≡ c.bridge))
        (xfer_params r).save _ (pure tt) c (refl, refl) (refl, refl)

  Planned-transport :
      (r : Request) (cid : String) (ids : List ℕ) (n : ℕ) (c c' : Connector S T)
      → c'.pending_loads ≡ c.pending_loads
      → c'.bridge ≡ c.bridge
      → Planned r cid ids n c
      → Planned r cid ids n c'
  Planned-transport r cid ids n c c' el eb h =
      let size = ap (λ (b : Bridge S T). (b.engine).chunk_size) (sym eb) in
      record {
        op = h.op;
        staged = ap (λ d. Dict.get String_discrete d r.request_id) el ∙ h.staged;
        from_cache = h.from_cache;
        into_blocks = h.into_blocks;
        enough = subst (λ m. n ≤ (h.op).num_chunks * m) size h.enough;
        no_more = subst (λ m. (h.op).num_chunks * m < n + m) size h.no_more;
      }

  -- Staging a load for a cache that the engine has.
  pub stage_load_of_found :
      (r : Request) (cid : String) (ids : List ℕ) (n : ℕ) (c : Connector S T)
      → 0 < n
      → (exists env store cid (c.bridge).engine).0 ≡ ok true
      → stage_load env store r cid ids n c
        ≡ plan_chunks env store r cid ids n (on_bridge (on_engine (exists env store cid)) c).1
  unfolding stage_load
  stage_load_of_found r cid ids n c pos found =
      let m = on_bridge {T = T} (on_engine (exists env store cid)) in
      let branch =
        λ (found : Bool). if found then plan_chunks {T = T} env store r cid ids n else pure tt in
      let asks : ltb 0 n ≡ true = ground arith in
      ap (λ b. (if b then m >>= branch else pure tt) c) asks
      ∙ ap (λ o. continue o branch (m c).1) found

  plan_chunks-returns :
      (r : Request) (cid : String) (ids : List ℕ) (n : ℕ) (c : Connector S T)
      → 0 < ((c.bridge).engine).chunk_size
      → (plan_chunks env store r cid ids n c).0 ≡ ok tt
  unfolding plan_chunks chunks_for
  plan_chunks-returns r cid ids n c pos = elim (Bool-cases (((c.bridge).engine).chunk_size == 0)) [
    | inl e ↦ absurd (ground arith)
    | inr e ↦ rw (e, chunks_for) refl
  ]

  stage_save-returns :
      (r : Request) (cid : String) (ids : List ℕ) (c : Connector S T)
      → (stage_save env store r cid ids c).0 ≡ ok tt
  unfolding stage_save
  stage_save-returns r cid ids c = elim (Bool-cases (xfer_params r).save) [
    | inl e ↦ rw (e, stage_save) refl
    | inr e ↦ rw (e, stage_save) refl
  ]

  -- When the chunk size is positive, the engine has a request's cache, and `n > 0` tokens are to
  -- come from it, telling the connector about the request's blocks returns, and stages a load of
  -- that cache into these blocks, whose chunks, counted from the cache's beginning, cover `n`
  -- tokens, and no chunk more.
  pub update_state_after_alloc-Planned :
      (r : Request) (blocks : Blocks) (n : ℕ) (c : Connector S T) {cid : String}
      → truthy (xfer_params r).cache_id ≡ some cid
      → 0 < n
      → 0 < ((c.bridge).engine).chunk_size
      → (exists env store cid (c.bridge).engine).0 ≡ ok true
      → ((update_state_after_alloc env store r blocks n c).0 ≡ ok tt)
        × Planned r cid
            (extract_block_ids blocks)
            n
            (update_state_after_alloc env store r blocks n c).1
  unfolding update_state_after_alloc
  update_state_after_alloc-Planned r blocks n c {cid} named pos sized found =
      let ids = extract_block_ids blocks in
      let m = stage_load {T = T} env store r cid ids n in
      let asked = (on_bridge {T = T} (on_engine (exists env store cid)) c).1 in
      let save = stage_save {T = T} env store r cid ids in
      let step : update_state_after_alloc env store r blocks n c ≡ (m >> save) c =
        rw (named, update_state_after_alloc) refl in
      let loads = stage_load_of_found r cid ids n c pos found in
      let returns =
        plan_chunks-returns r cid ids n asked
          (subst (λ k. 0 < k) (sym (exists-chunk_size env store cid (c.bridge).engine)) sized) in
      let planned =
        plan_chunks-Planned r cid ids n asked
          (ap (λ x. (x, (plan_chunks env store r cid ids n asked).1)) returns) in
      let whole =
        step
        ∙ ap (λ x. continue x.0 (λ _. save) x.1) loads
        ∙ ap (λ x. continue x (λ _. save) (plan_chunks env store r cid ids n asked).1) returns in
      let c1 = (plan_chunks env store r cid ids n asked).1 in
      let (el, eb) = stage_save-loads r cid ids c1 in
      (
        ap (λ x. x.0) whole ∙ stage_save-returns r cid ids c1,
        subst (Planned r cid ids n) (sym (ap (λ x. x.1) whole))
            (Planned-transport r cid ids n c1 (save c1).1 el eb planned),
      )
