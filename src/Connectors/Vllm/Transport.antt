-- ===== src/Connectors/Vllm/Transport.antt =====
-- A save and a later load carry the bytes of each chunk from the saved blocks to other ones.
use mathlib.Core.List.{flatten}
use llmcache.Prelude.{
  ℕ, ◌*◌, ◌≡◌, ◌<◌, ◌≤◌, ap, sym, ◌∙◌, subst, min, String, true, false, none, some, List, map,
  length, take, range_from, ℕ_discrete, String_discrete, arith, length-take, length-map,
}
use llmcache.Int.{ℤ}
use llmcache.Results.{Result, ok}
use llmcache.Exec.{continue}
use llmcache.Types.{CacheDescriptor, num_chunks, is_expired}
use llmcache.Types.Chunks.{cut, num_chunks_for, length-cut}
use llmcache.Payload.{KvPayload}
use llmcache.Dict
use llmcache.Sets.{IsSetLike}
use llmcache.Store.{StorageBackend}
use llmcache.Store.Contract.{KeepsPinned}
use llmcache.Engine.State.{Env}
use llmcache.Engine.Lifecycle.{load, load_chunks}
use llmcache.Engine.Residency.{AllHeld, load_chunks_of_AllHeld}
use llmcache.Engine.Live.{looked, looked-store, live-fresh}
use llmcache.Engine.Roundtrip.{load_of_live}
use llmcache.Connectors.Transfer.{
  Layout, Buffer, dict_transfer, blocks_per_chunk, load_into, write_chunks,
}
use llmcache.Connectors.Transfer.Blocks.{read}
use llmcache.Connectors.Transfer.Pages.{labelled, load_into_lem}
use llmcache.Connectors.Bridge.{Bridge, on_buffer}
use llmcache.Connectors.Vllm.{LoadOp, SaveOp, load_op, save_op}
use llmcache.Connectors.Transfer.Loaded.{chunk_bytes, bytes_of_take, loaded_bytes}
use llmcache.Connectors.Vllm.Saved.{IsSaved, save_op-IsSaved}

module _ {S : Type 0} (env : Env) (store : StorageBackend S) (promise : KeepsPinned store) where
  load_op_of_live :
      (l : Layout) (op : LoadOp) (b : Bridge S Buffer) {ps : List KvPayload} {bpc : ℕ}
      → blocks_per_chunk l ≡ ok bpc
      → (load env store op.cache_id (some op.num_chunks) 0 b.engine).0 ≡ ok ps
      → ((load_op env store (dict_transfer l) op b).0 ≡ ok tt)
        × ((load_op env store (dict_transfer l) op b).1.buffer
            ≡ write_chunks bpc op.block_ids 0 ps b.buffer)
  unfolding load_op dict_transfer
  load_op_of_live l op b {ps} {bpc} hl h =
      (ap (λ r. r.0) run ∙ ap (λ r. r.0) into, ap (λ r. r.1.buffer) run ∙ ap (λ r. r.1) into)
    where
      loaded : Bridge S Buffer
      loaded = record b { engine = (load env store op.cache_id (some op.num_chunks) 0 b.engine).1 }

      run :
          load_op env store (dict_transfer l) op b ≡ on_buffer (load_into l op.block_ids ps) loaded
      run =
          ap
            (λ (r : Result (List KvPayload)).
              continue r (λ ps. on_buffer (load_into l op.block_ids ps)) loaded)
            h

      into :
          load_into l op.block_ids ps b.buffer
          ≡ (ok tt, write_chunks bpc op.block_ids 0 ps b.buffer)
      into = load_into_lem l op.block_ids ps b.buffer hl

  pub length-held : (n : ℕ) (ps : List KvPayload) → n ≤ length ps → length (take n ps) ≡ n
  length-held n ps le = omega (arith, length-take n ps)

  pub load_of_IsSaved :
      (cid : String) (tokens : List ℤ) (payloads : List KvPayload) (b b' : Bridge S Buffer) (n : ℕ)
      {d : CacheDescriptor}
      → (g : IsSaved env store promise cid tokens payloads b b')
      → Dict.get String_discrete (b'.engine).descriptors cid ≡ some d
      → is_expired d none (env.time (b'.engine).readings) ≡ false
      → n ≤ num_chunks_for (length tokens) (b.engine).chunk_size
      → n ≤ length payloads
      → (load env store cid (some n) 0 b'.engine).0 ≡ ok (take n payloads)
  load_of_IsSaved cid tokens payloads b b' n {d} g found fresh le within =
      let same : g.descriptor ≡ d = ground (arith, g.found) in
      let count : num_chunks d ≡ num_chunks_for (length tokens) (b.engine).chunk_size =
        ap (λ (d : CacheDescriptor). num_chunks d) (sym same) ∙ g.counted in
      let enough : min n (num_chunks d) ≡ n = omega arith in
      ap (λ x. x.0)
        (load_of_live env store cid (some n) 0 b'.engine
            (live-fresh env store cid b'.engine found fresh)
          ∙ ap (λ k. load_chunks env store cid 0 (range_from 0 k) (looked env store d b'.engine))
              enough)
      ∙ load_chunks_of_AllHeld store promise env cid 0 0 n payloads (looked env store d b'.engine)
          within
          (subst (AllHeld store promise cid 0 0 payloads) (sym (looked-store env store d b'.engine))
            g.held)

  -- A load of the first chunks of what was saved, into distinct blocks that are enough.
  pub load_op_of_IsSaved :
      (l : Layout) (tokens : List ℤ) (ids : List ℕ) (op : LoadOp) (b b' : Bridge S Buffer) {bpc : ℕ}
      {d : CacheDescriptor}
      → blocks_per_chunk l ≡ ok bpc
      → 0 < bpc
      → IsSaved env store promise op.cache_id tokens
          (map
            (labelled l)
            (chunk_bytes b.buffer (num_chunks_for (length tokens) (b.engine).chunk_size) bpc ids))
          b
          b'
      → Dict.get String_discrete (b'.engine).descriptors op.cache_id ≡ some d
      → is_expired d none (env.time (b'.engine).readings) ≡ false
      → op.num_chunks ≤ num_chunks_for (length tokens) (b.engine).chunk_size
      → IsSetLike ℕ_discrete op.block_ids
      → op.num_chunks * bpc ≤ length op.block_ids
      → ((load_op env store (dict_transfer l) op b').0 ≡ ok tt)
        × (chunk_bytes
              (load_op env store (dict_transfer l) op b').1.buffer
              op.num_chunks
              bpc
              op.block_ids
            ≡ chunk_bytes b.buffer op.num_chunks bpc ids)
  load_op_of_IsSaved l tokens ids op b b' {bpc} {d} hl pos saved found fresh le distinct fits =
      let m = num_chunks_for (length tokens) (b.engine).chunk_size in
      let bytes = chunk_bytes b.buffer m bpc ids in
      let payloads = map (labelled l) bytes in
      let n = op.num_chunks in
      let count : length payloads ≡ m =
        length-map (labelled l) bytes
        ∙ length-map (λ r. flatten (read b.buffer r)) (cut m bpc ids)
        ∙ length-cut m bpc ids in
      let within : n ≤ length payloads = omega arith in
      let loaded = load_of_IsSaved op.cache_id tokens payloads b b' n saved found fresh le within in
      let (returns, left) = load_op_of_live l op b' hl loaded in
      (
        returns,
        ap (λ u. chunk_bytes u n bpc op.block_ids) left
            ∙ loaded_bytes bpc op.block_ids (take n payloads) b'.buffer n pos
                (length-held n payloads within) distinct fits
            ∙ bytes_of_take l b.buffer n m bpc ids le,
      )

  -- Whatever store keeps its promise about pinned objects: when a save with a pin has returned and
  -- its descriptor has not expired, a load of the first chunks of the cache into other blocks,
  -- distinct and enough, returns, and the blocks of each of these chunks then hold the bytes that
  -- the blocks of the same chunk held when it was saved.
  pub save_op-load_op :
      (l : Layout) (save : SaveOp) (op : LoadOp) (b : Bridge S Buffer) {b' : Bridge S Buffer}
      {bpc : ℕ} {d : CacheDescriptor}
      → blocks_per_chunk l ≡ ok bpc
      → 0 < bpc
      → save.pin ≡ true
      → save_op env store (dict_transfer l) save b ≡ (ok tt, b')
      → op.cache_id ≡ save.cache_id
      → Dict.get String_discrete (b'.engine).descriptors op.cache_id ≡ some d
      → is_expired d none (env.time (b'.engine).readings) ≡ false
      → op.num_chunks ≤ num_chunks_for (length save.token_ids) (b.engine).chunk_size
      → IsSetLike ℕ_discrete op.block_ids
      → op.num_chunks * bpc ≤ length op.block_ids
      → ((load_op env store (dict_transfer l) op b').0 ≡ ok tt)
        × (chunk_bytes
              (load_op env store (dict_transfer l) op b').1.buffer
              op.num_chunks
              bpc
              op.block_ids
            ≡ chunk_bytes b.buffer op.num_chunks bpc save.block_ids)
  save_op-load_op l save op b {b'} {bpc} {d} hl pos pinned h same found fresh le distinct fits =
      let m = num_chunks_for (length save.token_ids) (b.engine).chunk_size in
      let payloads = map (labelled l) (chunk_bytes b.buffer m bpc save.block_ids) in
      load_op_of_IsSaved l save.token_ids save.block_ids op b b' hl pos
        (subst (λ cid. IsSaved env store promise cid save.token_ids payloads b b') (sym same)
          (save_op-IsSaved env store promise l save b hl pinned h))
        found fresh le distinct fits
