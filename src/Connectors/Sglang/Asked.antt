-- ===== src/Connectors/Sglang/Asked.antt =====
-- `retrieve` on a cache id that is found: what `exists`, `lookup` and `load` are asked in turn.
use llmcache.Prelude.{
  ℕ, suc, ◌≡◌, refl, ap, ◌∙◌, String, Bool, true, none, some, List, String_discrete, arith,
  if◌then◌else◌, ◌==◌, Bool-cases, inl, inr,
}
use llmcache.Results.{ok}
use llmcache.Exec.{Exec, continue, pure, modify, ◌>>=◌, ◌>>◌}
use llmcache.Types.{CacheDescriptor, num_chunks}
use llmcache.Payload.{KvPayload}
use llmcache.Dict
use llmcache.Store.{StorageBackend}
use llmcache.Engine.State.{Env, Engine, LookupResult, read_clock, lifted}
use llmcache.Engine.Lifecycle.{lookup, lookup_result, count_reusable, load, update}
use llmcache.Engine.Live.{Lasts, exists_of_found, looked, live-fresh}
use llmcache.Engine.Expiry.{looked-descriptors}
use llmcache.Connectors.Transfer.{
  Layout, Buffer, dict_transfer, blocks_per_chunk, load_into, write_chunks,
}
use llmcache.Connectors.Transfer.Pages.{load_into_lem}
use llmcache.Connectors.Bridge.{Bridge, on_engine, on_buffer}
use llmcache.Connectors.Sglang.{retrieve, retrieve_through}

module _ {S : Type 0} (env : Env) (backend : StorageBackend S) where
  abbrev pub used : CacheDescriptor → Engine S → CacheDescriptor
  used d t = record d { hits = suc d.hits; last_used_at = some (env.time t.readings) }

  abbrev pub full_answer : String → CacheDescriptor → LookupResult
  full_answer cid d = record {
    cache_id = cid;
    num_tokens = d.num_tokens;
    num_chunks = num_chunks d;
    full = true;
  }

  lookup_result-full :
      (cid : String) (d : CacheDescriptor)
      → lookup_result env backend cid d (num_chunks d) ≡ full_answer cid d
  unfolding lookup_result
  lookup_result-full cid d = elim (Bool-cases (num_chunks d == num_chunks d)) [
    | inl e ↦ rw (e, lookup_result) refl
    | inr e ↦ absurd (ground arith)
  ]

  -- The engine after a `lookup` that found `d` with the engine `t`.
  abbrev pub answered : String → CacheDescriptor → Engine S → Engine S
  answered cid d t = update cid (used d t) (record t { readings = suc t.readings })

  lookup_of_found :
      (cid : String) (e : Engine S) {d : CacheDescriptor}
      → Dict.get String_discrete e.descriptors cid ≡ some d
      → Lasts env backend d
      → lookup env backend cid none e
        ≡ (ok (full_answer cid d), answered cid d (looked env backend d e))
  unfolding lookup count_reusable
  lookup_of_found cid e {d} found lasts =
      ap
        (λ r.
          continue r.0
            (λ (d : CacheDescriptor). lifted (count_reusable env backend none d) >>= λ matched.
              read_clock env >>= λ now.
              modify (update cid (record d { hits = suc d.hits; last_used_at = some now }))
              >> pure (lookup_result env backend cid d matched))
            r.1)
        (live-fresh env backend cid e found (lasts e.readings))
      ∙ ap (λ r. (ok r, answered cid d (looked env backend d e))) (lookup_result-full cid d)

  module _ (l : Layout) (cid : String) (ids : List ℕ) where
    -- What `retrieve` does with an answer of `lookup`.
    abbrev pub fetch : LookupResult → Exec (Bridge S Buffer) ℕ
    fetch r = on_engine (load env backend cid (some r.num_chunks) 0) >>= λ ps.
        on_buffer (load_into l ids ps) >>= λ _. pure r.num_tokens

    -- The connector's state when `retrieve` has asked `exists` and `lookup`.
    abbrev pub asked : CacheDescriptor → Bridge S Buffer → Bridge S Buffer
    asked d b = record b {
      engine = answered cid d (looked env backend d (looked env backend d b.engine));
    }

    pub retrieve_of_found :
        (b : Bridge S Buffer) {d : CacheDescriptor}
        → Dict.get String_discrete (b.engine).descriptors cid ≡ some d
        → Lasts env backend d
        → retrieve env backend (some (dict_transfer l)) cid ids none b
          ≡ fetch (full_answer cid d) (asked d b)
    unfolding retrieve retrieve_through dict_transfer
    retrieve_of_found b {d} found lasts =
        let e = looked env backend d b.engine in
        let b1 = record b { engine = e } in
        let still =
          ap (λ ds. Dict.get String_discrete ds cid) (looked-descriptors env backend d b.engine)
          ∙ found in
        ap
          (λ r.
            continue r.0
              (λ (found : Bool).
                if found
                then retrieve_through env backend (dict_transfer l) cid ids none
                else pure 0)
              (record b { engine = r.1 }))
          (exists_of_found env backend cid b.engine found lasts)
        ∙ ap (λ r. continue r.0 fetch (record b { engine = r.1 }))
            (lookup_of_found cid e still lasts)

    pub fetch_of_load :
        (r : LookupResult) (b : Bridge S Buffer) {ps : List KvPayload} {bpc : ℕ}
        → blocks_per_chunk l ≡ ok bpc
        → (load env backend cid (some r.num_chunks) 0 b.engine).0 ≡ ok ps
        → ((fetch r b).0 ≡ ok r.num_tokens)
          × ((fetch r b).1.buffer ≡ write_chunks bpc ids 0 ps b.buffer)
    fetch_of_load r b {ps} {bpc} hl h =
        let b1 = record b { engine = (load env backend cid (some r.num_chunks) 0 b.engine).1 } in
        let run =
          ap (λ x. continue x (λ ps. on_buffer (load_into l ids ps) >>= λ _. pure r.num_tokens) b1)
            h
          ∙ ap (λ x. continue x.0 (λ _. pure r.num_tokens) (record b1 { buffer = x.1 }))
              (load_into_lem l ids ps b.buffer hl) in
        (ap (λ x. x.0) run, ap (λ x. x.1.buffer) run)
