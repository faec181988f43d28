-- ===== src/Connectors/Vllm/Saved.antt =====
-- What a save of src/llmcache/connectors/vllm.py leaves in the cache.
use native.Mathlib.Nat.{zero-mul}
use mathlib.Core.List.{flatten}
use llmcache.Prelude.{
  ◌<◌, ℕ, ◌*◌, ◌≡◌, ap, ap₂, sym, ◌∙◌, subst, String, true, some, List, [], ◌∷◌, map, length, drop,
  String_discrete, arith,
}
use llmcache.Int.{ℤ}
use llmcache.Results.{ok}
use llmcache.Exec.{Exec, pure, bind-eq-ok, ◌>>=◌}
use llmcache.Types.{CacheDescriptor, num_chunks}
use llmcache.Types.Chunks.{cut, num_chunks_for}
use llmcache.Payload.{KvPayload}
use llmcache.Dict
use llmcache.Store.{StorageBackend}
use llmcache.Store.Contract.{KeepsPinned}
use llmcache.Engine.State.{Env, Engine}
use llmcache.Engine.Register.{commit}
use llmcache.Engine.Residency.{AllHeld}
use llmcache.Engine.Hits.{pos_of_cut, total_tokens_of_cut}
use llmcache.Engine.Committed.{commit-IsCommitted}
use llmcache.Connectors.Transfer.{Layout, Buffer, dict_transfer, blocks_per_chunk, save_from}
use llmcache.Connectors.Transfer.Blocks.{read}
use llmcache.Connectors.Transfer.Pages.{labelled, save_from_lem, map-comp}
use llmcache.Connectors.Bridge.{Bridge, on_engine, on_buffer, chunks_for, put_chunks}
use llmcache.Connectors.Chunks.{
  StoreOnly, put_chunks-StoreOnly, put_chunks-AllHeld, on_engine-eq-ok, on_buffer-eq-ok,
  chunks_for-eq-ok,
}
use llmcache.Connectors.Vllm.{SaveOp, save_op}
use llmcache.Connectors.Transfer.Loaded.{chunk_bytes}

module _ {S : Type 0} (env : Env) (store : StorageBackend S) (promise : KeepsPinned store) where
  -- What a save with a pin leaves when it returns.
  pub record IsSaved (cid : String) (tokens : List ℤ) (payloads : List KvPayload)
      (b b' : Bridge S Buffer) : Type 0 where
    pub descriptor : CacheDescriptor
    pub found : Dict.get String_discrete (b'.engine).descriptors cid ≡ some descriptor
    pub counted : num_chunks descriptor ≡ num_chunks_for (length tokens) (b.engine).chunk_size
    pub held : AllHeld store promise cid 0 0 payloads (b'.engine).store
    pub same_buffer : b'.buffer ≡ b.buffer
    pub same_size : (b'.engine).chunk_size ≡ (b.engine).chunk_size
    pub wide : 0 < (b'.engine).chunk_size

  pub later-IsSaved :
      (cid : String) (tokens : List ℤ) (ps : List KvPayload) (b b' : Bridge S Buffer) (e : Engine S)
      {d : CacheDescriptor} (g : IsSaved cid tokens ps b b')
      → e.store ≡ (b'.engine).store
      → e.chunk_size ≡ (b'.engine).chunk_size
      → Dict.get String_discrete e.descriptors cid ≡ some d
      → num_chunks d ≡ num_chunks g.descriptor
      → IsSaved cid tokens ps b (record b' { engine = e })
  later-IsSaved cid tokens ps b b' e {d} g same sized found count = record {
    descriptor = d;
    found = found;
    counted = count ∙ g.counted;
    held = subst (AllHeld store promise cid 0 0 ps) (sym same) g.held;
    same_buffer = g.same_buffer;
    same_size = sized ∙ g.same_size;
    wide = subst (λ k. 0 < k) (sym sized) g.wide;
  }

  module _ (l : Layout) (op : SaveOp) where
    -- The continuations of a save, from the last.
    abbrev publish : Exec (Bridge S Buffer) (Unit {0})
    publish =
        on_engine
          (commit env store op.cache_id op.token_ids l.num_layers (0 ∷ []) op.ttl op.pin op.name)
        >>= λ _. pure tt

    abbrev put_all : List KvPayload → Exec (Bridge S Buffer) (Unit {0})
    put_all payloads =
        on_engine (put_chunks env store op.cache_id op.pin 0 payloads) >>= λ _. publish

    abbrev read_all : ℕ → Exec (Bridge S Buffer) (Unit {0})
    read_all n = on_buffer (save_from l op.block_ids n) >>= put_all

    assemble :
        (payloads : List KvPayload) (b b1 b2 : Bridge S Buffer) {d : CacheDescriptor}
        → put_chunks env store op.cache_id true 0 payloads b.engine ≡ (ok tt, b1.engine)
        → b1.buffer ≡ b.buffer
        → commit env store op.cache_id op.token_ids l.num_layers
            (0 ∷ [])
            op.ttl
            op.pin
            op.name
            b1.engine
          ≡ (ok d, b2.engine)
        → b2.buffer ≡ b1.buffer
        → IsSaved op.cache_id op.token_ids payloads b b2
    assemble payloads b b1 b2 {d} hp u1 hc u2 =
        let c =
          commit-IsCommitted env store op.cache_id op.token_ids l.num_layers (0 ∷ []) op.ttl op.pin
            op.name b1.engine hc in
        let n = (b1.engine).chunk_size in
        let same : n ≡ (b.engine).chunk_size =
          ap (λ (e : Engine S). e.chunk_size)
            (subst (StoreOnly env store b.engine) (ap (λ r. r.1) hp)
              (put_chunks-StoreOnly env store op.cache_id true 0 payloads b.engine)) in
        let (_, count) =
          total_tokens_of_cut op.token_ids n (pos_of_cut op.token_ids n c.are_cut) c.are_cut in
        record {
          descriptor = d;
          found = c.found;
          counted = c.counted ∙ count ∙ ap (num_chunks_for (length op.token_ids)) same;
          held =
              subst (AllHeld store promise op.cache_id 0 0 payloads) (sym c.same_store)
                (put_chunks-AllHeld env store promise op.cache_id 0 payloads b.engine hp);
          same_buffer = u2 ∙ u1;
          same_size = c.same_size ∙ same;
          wide = subst (λ k. 0 < k) (sym c.same_size) (pos_of_cut op.token_ids n c.are_cut);
        }

    put_all-IsSaved :
        (payloads : List KvPayload) (b : Bridge S Buffer) {b' : Bridge S Buffer}
        → op.pin ≡ true
        → put_all payloads b ≡ (ok tt, b')
        → IsSaved op.cache_id op.token_ids payloads b b'
    put_all-IsSaved payloads b {b'} pinned h =
        let put = put_chunks env store op.cache_id op.pin 0 payloads in
        let (_, b1, h1, h2) = bind-eq-ok (on_engine put) (λ _. publish) b h in
        let (hp, u1) = on_engine-eq-ok put b h1 in
        let announce =
          commit env store op.cache_id op.token_ids l.num_layers (0 ∷ []) op.ttl op.pin op.name in
        let (d, b2, h3, h4) = bind-eq-ok (on_engine announce) (λ _. pure tt) b1 h2 in
        let (hc, u2) = on_engine-eq-ok announce b1 h3 in
        subst (IsSaved op.cache_id op.token_ids payloads b) (ap (λ r. r.1) h4) (
          assemble payloads b b1 b2
            (subst
              (λ p. put_chunks env store op.cache_id p 0 payloads b.engine ≡ (ok tt, b1.engine))
              pinned hp)
            u1 hc u2)

    saved_payloads :
        (buffer : Buffer) (n : ℕ) {bpc : ℕ} {ps : List KvPayload} {u : Buffer}
        → blocks_per_chunk l ≡ ok bpc
        → save_from l op.block_ids n buffer ≡ (ok ps, u)
        → (ps ≡ map (labelled l) (chunk_bytes buffer n bpc op.block_ids)) × (u ≡ buffer)
    saved_payloads buffer n {bpc} {ps} {u} hl h =
        let e = sym h ∙ save_from_lem l op.block_ids n buffer hl in
        let runs = cut n bpc (drop (0 * bpc) op.block_ids) in
        let same : ps ≡ map (λ r. labelled l (flatten (read buffer r))) runs = ground arith in
        (
          same
              ∙ map-comp (labelled l) (λ r. flatten (read buffer r)) runs
              ∙ ap (λ k. map (labelled l) (chunk_bytes buffer n bpc (drop k op.block_ids)))
                  (zero-mul bpc),
          ap (λ r. r.1) e,
        )

    pub save_op-IsSaved :
        (b : Bridge S Buffer) {b' : Bridge S Buffer} {bpc : ℕ}
        → blocks_per_chunk l ≡ ok bpc
        → op.pin ≡ true
        → save_op env store (dict_transfer l) op b ≡ (ok tt, b')
        → IsSaved op.cache_id op.token_ids
            (map (labelled l) (
              chunk_bytes b.buffer
                (num_chunks_for (length op.token_ids) (b.engine).chunk_size)
                bpc
                op.block_ids))
            b
            b'
    unfolding save_op dict_transfer
    save_op-IsSaved b {b'} {bpc} hl pinned h =
        let (n, b1, h1, h2) = bind-eq-ok (chunks_for (length op.token_ids)) read_all b h in
        let (en, eb, _) = chunks_for-eq-ok (length op.token_ids) b h1 in
        let (ps, b2, h3, h4) = bind-eq-ok (on_buffer (save_from l op.block_ids n)) put_all b1 h2 in
        let (hs, ee) = on_buffer-eq-ok (save_from l op.block_ids n) b1 h3 in
        let (es, eu) = saved_payloads b1.buffer n hl hs in
        let back : b2 ≡ b = ap₂ (λ e u. record { engine = e; buffer = u }) ee eu ∙ eb in
        let same =
          es
          ∙ ap₂ (λ k u. map (labelled l) (chunk_bytes u k bpc op.block_ids)) en
              (ap (λ (b : Bridge S Buffer). b.buffer) eb) in
        subst (λ ps. IsSaved op.cache_id op.token_ids ps b b') same
          (subst (λ b. IsSaved op.cache_id op.token_ids ps b b') back
            (put_all-IsSaved ps b2 pinned h4))
