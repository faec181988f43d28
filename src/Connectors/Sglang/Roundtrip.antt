-- ===== src/Connectors/Sglang/Roundtrip.antt =====
-- `retrieve` after `store`: the chunks' bytes move from the stored blocks to others.
use mathlib.Core.List.{flatten}
use llmcache.Prelude.{
  ℕ, ◌*◌, ◌≡◌, ◌<◌, ◌≤◌, refl, ap, sym, ◌∙◌, String, true, false, Option, none, some, List, map,
  length, take, ℕ_discrete, String_discrete, arith, length-map,
}
use llmcache.Int.{ℤ}
use llmcache.Results.{ok}
use llmcache.Types.{CacheDescriptor, num_chunks, is_expired}
use llmcache.Types.Chunks.{cut, num_chunks_for, length-cut}
use llmcache.Payload.{KvPayload}
use llmcache.Dict
use llmcache.Sets.{IsSetLike}
use llmcache.Store.{StorageBackend}
use llmcache.Store.Contract.{KeepsPinned}
use llmcache.Engine.State.{Env, Engine}
use llmcache.Engine.Lifecycle.{load}
use llmcache.Engine.Live.{looked, looked-store}
use llmcache.Connectors.Transfer.{Layout, Buffer, dict_transfer, blocks_per_chunk}
use llmcache.Connectors.Transfer.Blocks.{read}
use llmcache.Connectors.Transfer.Pages.{labelled}
use llmcache.Connectors.Transfer.Loaded.{chunk_bytes, bytes_of_take, loaded_bytes}
use llmcache.Connectors.Bridge.{Bridge}
use llmcache.Connectors.Vllm.{SaveOp, save_op}
use llmcache.Connectors.Vllm.Saved.{later-IsSaved, IsSaved, save_op-IsSaved}
use llmcache.Connectors.Vllm.Transport.{load_of_IsSaved, length-held}
use llmcache.Connectors.Sglang.{store, store_through, retrieve}
use llmcache.Engine.Live.{Lasts, looked-chunk_size}
use llmcache.Connectors.Sglang.Asked.{used, full_answer, asked, retrieve_of_found, fetch_of_load}

module _ {S : Type 0} (env : Env) (backend : StorageBackend S) (promise : KeepsPinned backend) where
  -- `store` is the connector's save of one operation.
  abbrev saving : String → List ℤ → List ℕ → Option ℤ → Option String → SaveOp
  saving cid tokens from ttl name = record {
    request_id = cid;
    cache_id = cid;
    token_ids = tokens;
    block_ids = from;
    ttl = ttl;
    pin = true;
    name = name;
  }

  store_as_save :
      (l : Layout) (cid : String) (tokens : List ℤ) (from : List ℕ) (ttl : Option ℤ)
      (name : Option String) (b : Bridge S Buffer)
      → store env backend (some (dict_transfer l)) cid tokens from ttl true name b
        ≡ save_op env backend (dict_transfer l) (saving cid tokens from ttl name) b
  unfolding store store_through save_op
  store_as_save l cid tokens from ttl name b = refl

  asked-store :
      (l : Layout) (cid : String) (ids : List ℕ) (d : CacheDescriptor) (b : Bridge S Buffer)
      → ((asked env backend l cid ids d b).engine).store ≡ (b.engine).store
  asked-store l cid ids d b =
      looked-store env backend d (looked env backend d b.engine)
      ∙ looked-store env backend d b.engine

  asked-chunk_size :
      (l : Layout) (cid : String) (ids : List ℕ) (d : CacheDescriptor) (b : Bridge S Buffer)
      → ((asked env backend l cid ids d b).engine).chunk_size ≡ (b.engine).chunk_size
  asked-chunk_size l cid ids d b =
      looked-chunk_size env backend d (looked env backend d b.engine)
      ∙ looked-chunk_size env backend d b.engine

  used-Lasts :
      (d : CacheDescriptor) (t : Engine S) (n : ℕ)
      → Lasts env backend d
      → is_expired (used env backend d t) none (env.time n) ≡ false
  unfolding is_expired
  used-Lasts d t n lasts = lasts n

  -- The load of all chunks, when `exists` and `lookup` have been asked.
  load_of_asked :
      (l : Layout) (cid : String) (tokens : List ℤ) (into : List ℕ) (ps : List KvPayload)
      (b b' : Bridge S Buffer) {d : CacheDescriptor}
      → IsSaved env backend promise cid tokens ps b b'
      → Dict.get String_discrete (b'.engine).descriptors cid ≡ some d
      → Lasts env backend d
      → num_chunks d ≤ length ps
      → (load env backend cid (some (num_chunks d)) 0 (asked env backend l cid into d b').engine).0
        ≡ ok (take (num_chunks d) ps)
  load_of_asked l cid tokens into ps b b' {d} g found lasts within =
      let t = looked env backend d (looked env backend d b'.engine) in
      let e = (asked env backend l cid into d b').engine in
      let same : g.descriptor ≡ d = ground (arith, g.found) in
      let count = ap (λ (d : CacheDescriptor). num_chunks d) (sym same) in
      let found' : Dict.get String_discrete e.descriptors cid ≡ some (used env backend d t) =
        ground (arith, Dict.get-put String_discrete t.descriptors cid cid (used env backend d t)) in
      let g' =
        later-IsSaved env backend promise cid tokens ps b b' e g (asked-store l cid into d b')
          (asked-chunk_size l cid into d b') found' count in
      load_of_IsSaved env backend promise cid tokens ps b (record b' { engine = e }) (num_chunks d)
        g' found' (used-Lasts d t e.readings lasts) (omega (arith, count, g.counted)) within

  -- Whatever store keeps its promise about pinned objects: when `store` with a pin has returned and
  -- the descriptor that it published never expires by the clock, `retrieve` without a request's
  -- tokens into other blocks, distinct and enough, returns the descriptor's number of tokens, and
  -- the blocks of each chunk then hold the bytes that the blocks of the same chunk held when it was
  -- stored.
  pub retrieve-store :
      (l : Layout) (cid : String) (tokens : List ℤ) (from into : List ℕ) (ttl : Option ℤ)
      (name : Option String) (b : Bridge S Buffer) {b' : Bridge S Buffer} {bpc : ℕ}
      {d : CacheDescriptor}
      → blocks_per_chunk l ≡ ok bpc
      → 0 < bpc
      → store env backend (some (dict_transfer l)) cid tokens from ttl true name b ≡ (ok tt, b')
      → Dict.get String_discrete (b'.engine).descriptors cid ≡ some d
      → Lasts env backend d
      → IsSetLike ℕ_discrete into
      → num_chunks d * bpc ≤ length into
      → ((retrieve env backend (some (dict_transfer l)) cid into none b').0 ≡ ok d.num_tokens)
        × (chunk_bytes
              (retrieve env backend (some (dict_transfer l)) cid into none b').1.buffer
              (num_chunks d)
              bpc
              into
            ≡ chunk_bytes b.buffer (num_chunks d) bpc from)
  retrieve-store l cid tokens from into ttl name b {b'} {bpc} {d} hl pos h found lasts distinct
        fits =
      let n = num_chunks d in
      let m = num_chunks_for (length tokens) (b.engine).chunk_size in
      let bytes = chunk_bytes b.buffer m bpc from in
      let payloads = map (labelled l) bytes in
      let saved =
        save_op-IsSaved env backend promise l (saving cid tokens from ttl name) b hl refl
          (sym (store_as_save l cid tokens from ttl name b) ∙ h) in
      let same : saved.descriptor ≡ d = ground (arith, saved.found) in
      let counted : n ≡ m = ap (λ (d : CacheDescriptor). num_chunks d) (sym same) ∙ saved.counted in
      let count : length payloads ≡ m =
        length-map (labelled l) bytes
        ∙ length-map (λ r. flatten (read b.buffer r)) (cut m bpc from)
        ∙ length-cut m bpc from in
      let within : n ≤ length payloads = omega arith in
      let loaded = load_of_asked l cid tokens into payloads b b' saved found lasts within in
      let start = retrieve_of_found env backend l cid into b' found lasts in
      let (returns, left) =
        fetch_of_load env backend l cid into (full_answer env backend cid d)
          (asked env backend l cid into d b') hl loaded in
      (
        ap (λ r. r.0) start ∙ returns,
        ap (λ r. chunk_bytes r.1.buffer n bpc into) start
            ∙ ap (λ u. chunk_bytes u n bpc into) left
            ∙ loaded_bytes bpc into (take n payloads) b'.buffer n pos
                (length-held env backend promise n payloads within) distinct fits
            ∙ bytes_of_take l b.buffer n m bpc from (omega arith),
      )
