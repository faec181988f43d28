-- ===== src/Connectors/Vllm/Carried.antt =====
-- A round that saves and a round that loads, through the whole of the connector of
-- src/llmcache/connectors/vllm.py, carry the bytes of the chunks.
use llmcache.Prelude.{
  ℕ, ◌*◌, ◌≡◌, ◌<◌, ◌≤◌, ap, sym, ◌∙◌, subst, String, true, false, Option, some, List, [], ◌∷◌,
  length, map, ℕ_discrete, String_discrete, arith,
}
use llmcache.Int.{ℤ}
use llmcache.Results.{Result, ok}
use llmcache.Dict
use llmcache.Store.{StorageBackend}
use llmcache.Engine.State.{Env}
use llmcache.Engine.Live.{Lasts, looked, looked-store, looked-descriptors, looked-chunk_size}
use llmcache.Types.{CacheDescriptor, num_chunks}
use llmcache.Types.Chunks.{num_chunks_for}
use llmcache.Store.Contract.{KeepsPinned}
use llmcache.Sets.{IsSetLike}
use llmcache.Connectors.Transfer.{Layout, Buffer, dict_transfer, blocks_per_chunk}
use llmcache.Connectors.Transfer.Loaded.{chunk_bytes}
use llmcache.Connectors.Transfer.Pages.{labelled}
use llmcache.Connectors.Vllm.Saved.{IsSaved, save_op-IsSaved, later-IsSaved}
use llmcache.Connectors.Vllm.Transport.{load_op_of_IsSaved}
use llmcache.Connectors.Bridge.{Bridge}
use llmcache.Connectors.Vllm.{
  ExplicitConnectorMetadata, Request, Blocks, Connector, truthy, xfer_params, prompt_tokens,
  extract_block_ids, save_op,
}
use llmcache.Types.Chunks.{num_chunks_for_mono}
use llmcache.Connectors.Vllm.Rounds.{
  idle, save_round, load_round, save_of, load_for, found_with, save_round_lem, load_round_lem,
}

module _ {S : Type 0} (env : Env) (store : StorageBackend S) (promise : KeepsPinned store) where
  -- A round that loads from what was saved.
  load_round-IsSaved :
      (l : Layout) (cid : String) (tokens : List ℤ) (ids : List ℕ) (loading : Request)
      (into : Blocks) (n : ℕ) (b b' : Bridge S Buffer) (meta : Option ExplicitConnectorMetadata)
      {bpc : ℕ} {d : CacheDescriptor}
      → blocks_per_chunk l ≡ ok bpc
      → 0 < bpc
      → IsSaved env store promise cid tokens
          (map
            (labelled l)
            (chunk_bytes b.buffer (num_chunks_for (length tokens) (b.engine).chunk_size) bpc ids))
          b
          b'
      → Dict.get String_discrete (b'.engine).descriptors cid ≡ some d
      → Lasts env store d
      → truthy (xfer_params loading).cache_id ≡ some cid
      → (xfer_params loading).save ≡ false
      → 0 < n
      → n ≤ length tokens
      → IsSetLike ℕ_discrete (extract_block_ids into)
      → num_chunks_for n (b'.engine).chunk_size * bpc ≤ length (extract_block_ids into)
      → ((load_round env store (dict_transfer l) loading into n (idle b' meta)).0 ≡ ok tt)
        × (chunk_bytes
              (load_round env store (dict_transfer l) loading into n (idle b' meta)).1.bridge.buffer
              (num_chunks_for n (b'.engine).chunk_size)
              bpc
              (extract_block_ids into)
            ≡ chunk_bytes b.buffer (num_chunks_for n (b'.engine).chunk_size) bpc ids)
  load_round-IsSaved l cid tokens ids loading into n b b' meta {bpc} {d} hl pos g found lasts named
        loads asked within distinct fits =
      let size = (b'.engine).chunk_size in
      let payloads =
        map (labelled l)
          (chunk_bytes b.buffer (num_chunks_for (length tokens) (b.engine).chunk_size) bpc ids) in
      let op = load_for loading cid into n size in
      let still =
        ap (λ t. Dict.get String_discrete t cid) (looked-descriptors env store d b'.engine)
        ∙ found in
      let same : d ≡ g.descriptor = ground (arith, g.found) in
      let later =
        later-IsSaved env store promise cid tokens payloads b b' (looked env store d b'.engine) g
          (looked-store env store d b'.engine) (looked-chunk_size env store d b'.engine) still
          (ap (λ (d : CacheDescriptor). num_chunks d) same) in
      let few =
        subst (λ k. num_chunks_for n size ≤ num_chunks_for (length tokens) k) g.same_size
          (num_chunks_for_mono n (length tokens) size g.wide within) in
      let (returns, bytes) =
        load_op_of_IsSaved env store promise l tokens ids op b (found_with env store d b') hl pos
          later still (lasts (looked env store d b'.engine).readings) few distinct fits in
      let run =
        load_round_lem env store (dict_transfer l) loading into n b' meta named loads asked g.wide
          found lasts in
      (
        ap (λ x. x.0) run ∙ returns,
        ap
              (λ (x : Result (Unit {0}) × Connector S Buffer).
                chunk_bytes (x.1.bridge).buffer (num_chunks_for n size) bpc
                  (extract_block_ids into))
              run
            ∙ bytes,
      )

  -- Whatever store keeps its promise about pinned objects: let a connector with nothing staged hear
  -- of the blocks of a request that names a cache id, asks to save with a pin and loads no tokens,
  -- let the worker get the metadata and its `wait_for_save` return, the published descriptor never
  -- expiring by the clock. When the connector then hears of the blocks of a request with that cache
  -- id that does not save and for which `n > 0` tokens are to be loaded, at most those saved, its
  -- blocks being distinct and enough, the worker's `start_load_kv` returns, and the blocks of the
  -- first `ceil(n / chunk_size)` chunks hold the bytes that the blocks of the same chunks of the
  -- first request held when they were saved.
  pub save_round-load_round :
      (l : Layout) (saving loading : Request) (from into : Blocks) (n : ℕ) (b : Bridge S Buffer)
      (meta : Option ExplicitConnectorMetadata) {c : Connector S Buffer} {bpc : ℕ} {cid : String}
      {d : CacheDescriptor}
      → blocks_per_chunk l ≡ ok bpc
      → 0 < bpc
      → truthy (xfer_params saving).cache_id ≡ some cid
      → (xfer_params saving).save ≡ true
      → (xfer_params saving).pin ≡ true
      → save_round env store (dict_transfer l) saving from (idle b meta) ≡ (ok tt, c)
      → Dict.get String_discrete ((c.bridge).engine).descriptors cid ≡ some d
      → Lasts env store d
      → truthy (xfer_params loading).cache_id ≡ some cid
      → (xfer_params loading).save ≡ false
      → 0 < n
      → n ≤ length (prompt_tokens saving)
      → IsSetLike ℕ_discrete (extract_block_ids into)
      → num_chunks_for n (b.engine).chunk_size * bpc ≤ length (extract_block_ids into)
      → ((load_round env store (dict_transfer l) loading into n c).0 ≡ ok tt)
        × (chunk_bytes
              ((load_round env store (dict_transfer l) loading into n c).1.bridge).buffer
              (num_chunks_for n (b.engine).chunk_size)
              bpc
              (extract_block_ids into)
            ≡ chunk_bytes b.buffer
                (num_chunks_for n (b.engine).chunk_size)
                bpc
                (extract_block_ids from))
  save_round-load_round l saving loading from into n b meta {c} {bpc} {cid} {d} hl pos named saves
        pinned ran found lasts named' loads asked within distinct fits =
      let op = save_of saving cid from in
      let saved = save_op env store (dict_transfer l) op b in
      let planned = some (record { loads = []; saves = op ∷ [] }) in
      let step =
        sym (save_round_lem env store (dict_transfer l) saving from b meta named saves) ∙ ran in
      let same : idle saved.1 planned ≡ c = ap (λ x. x.1) step in
      let g =
        save_op-IsSaved env store promise l op b {b' = saved.1} hl pinned
          (ap (λ r. (r, saved.1)) (ap (λ x. x.0) step)) in
      let size : (saved.1.engine).chunk_size ≡ (b.engine).chunk_size = g.same_size in
      let loaded = λ (k : ℕ) (c : Connector S Buffer).
        ((load_round env store (dict_transfer l) loading into n c).0 ≡ ok tt)
        × (chunk_bytes ((load_round env store (dict_transfer l) loading into n c).1.bridge).buffer
              (num_chunks_for n k) bpc (extract_block_ids into)
            ≡ chunk_bytes b.buffer (num_chunks_for n k) bpc (extract_block_ids from)) in
      subst (loaded (b.engine).chunk_size) same (
        subst (λ k. loaded k (idle saved.1 planned)) size
          (load_round-IsSaved l cid (prompt_tokens saving) (extract_block_ids from) loading into n b
            saved.1 planned hl pos g
            (subst
              (λ (c : Connector S Buffer).
                Dict.get String_discrete ((c.bridge).engine).descriptors cid ≡ some d)
              (sym same) found)
            lasts named' loads asked within distinct
            (subst (λ k. num_chunks_for n k * bpc ≤ length (extract_block_ids into)) (sym size)
              fits)))
