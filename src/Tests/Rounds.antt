-- ===== src/Tests/Rounds.antt =====
-- Examples of the vLLM connector's rounds, and of what it reports for a request.
use mathlib.Core.List.{flatten}
use llmcache.Prelude.{
  ◌≡◌, ◌⊎◌, refl, true, false, none, some, [], ◌∷◌, arith, Bool-cases, ℕ_discrete, String_discrete,
}
use llmcache.Int.{pos, ◌+ℤ◌}
use llmcache.Results.{ok}
use llmcache.Dict
use llmcache.Types.{is_expired}
use llmcache.Store.Cpu
use llmcache.Store.Cpu.{Cpu}
use llmcache.Store.Tiered.Promises.{Cpu-KeepsPinned}
use llmcache.Connectors.Transfer.{Buffer, dict_transfer}
use llmcache.Connectors.Transfer.Loaded.{chunk_bytes}
use llmcache.Connectors.Vllm.{Request, Connector, plain, save_op, get_num_new_matched_tokens}
use llmcache.Connectors.Vllm.Rounds.{idle, save_round, load_round, save_of}
use llmcache.Connectors.Vllm.Carried.{save_round-load_round}
use llmcache.Tests.Data.{env, hot, engine, tokens, chunks, descriptor, first_byte}
use llmcache.Tests.Engine.{registered, register_runs}
use llmcache.Types.Matching.{Collision}
use llmcache.Engine.Register.{single}
use llmcache.Connectors.Vllm.Matched.{IsReported, get_num_new_matched_tokens-IsReported}
use llmcache.Tests.Connectors.{layout, buffer, before, after, request, descriptor-Lasts}

abbrev keeping : Request
keeping = record request {
  request_id = "r";
  kv_transfer_params =
      some
        (record { cache_id = some "c"; save = true; ttl = some (pos 30); pin = true; name = none });
}

abbrev kept : Connector (Cpu × Unit {0}) Buffer
kept = idle after (
    some (record { loads = []; saves = save_of keeping "c" (plain (10 ∷ 11 ∷ 12 ∷ 13 ∷ [])) ∷ [] }))

keeping_runs :
    save_round env hot
      (dict_transfer layout)
      keeping
      (plain (10 ∷ 11 ∷ 12 ∷ 13 ∷ []))
      (idle before none)
    ≡ (ok tt, kept)
unfolding save_op dict_transfer Cpu.backend Cpu.put Cpu.ensure_room Cpu.drop_existing Dict.get
    flatten ℕ_discrete Cpu.evict_loop Cpu.insert Dict.move_to_end Dict.put
    llmcache.Types.ChunkKey_discrete Bool-cases Dict.remove llmcache.Types.chunk_token_ids
    String_discrete llmcache.Types.Matching.fingerprints llmcache.Types.absorb
    llmcache.Types.to_bytes llmcache.Types.token_fingerprint llmcache.Types.range_step
    llmcache.Types.word_bytes ◌+ℤ◌ llmcache.Sets.add
    llmcache.Connectors.Vllm.update_state_after_alloc llmcache.Connectors.Vllm.truthy
    llmcache.Connectors.Vllm.xfer_params llmcache.Connectors.Vllm.stage_load
    llmcache.Connectors.Vllm.stage_save llmcache.Connectors.Vllm.plan_save
    llmcache.Connectors.Vllm.build_connector_meta llmcache.Connectors.Vllm.wait_for_save
    llmcache.Connectors.Vllm.current_meta llmcache.Connectors.Vllm.prompt_tokens
    llmcache.Connectors.Vllm.extract_block_ids llmcache.Exec.for_each
keeping_runs = refl

save_round-load_round_example :
    ((load_round env hot (dict_transfer layout) request (plain (20 ∷ 21 ∷ 22 ∷ 23 ∷ [])) 3 kept).0
      ≡ ok tt)
    × (chunk_bytes
          (load_round env hot
            (dict_transfer layout)
            request
            (plain (20 ∷ 21 ∷ 22 ∷ 23 ∷ []))
            3
            kept).1.bridge.buffer
          2
          2
          (20 ∷ 21 ∷ 22 ∷ 23 ∷ [])
        ≡ chunk_bytes buffer 2 2 (10 ∷ 11 ∷ 12 ∷ 13 ∷ []))
unfolding llmcache.Connectors.Transfer.blocks_per_chunk Dict.get String_discrete Bool-cases
    llmcache.Sets.has ℕ_discrete llmcache.Connectors.Vllm.truthy
    llmcache.Connectors.Vllm.xfer_params llmcache.Connectors.Vllm.prompt_tokens
    llmcache.Connectors.Vllm.extract_block_ids
save_round-load_round_example =
    save_round-load_round env hot (Cpu-KeepsPinned none) layout keeping request
      (plain (10 ∷ 11 ∷ 12 ∷ 13 ∷ [])) (plain (20 ∷ 21 ∷ 22 ∷ 23 ∷ [])) 3 before none
      {d = descriptor} refl (omega arith) refl refl refl keeping_runs refl descriptor-Lasts refl
      refl (omega arith) (omega arith) (refl, (refl, (refl, (refl, tt)))) (omega arith)

-- A request that shares the first chunk only.
abbrev asking : Request
asking = record request { prompt_token_ids = some (pos 1 ∷ pos 2 ∷ pos 9 ∷ []) }

abbrev hearing : Connector (Cpu × Unit {0}) Buffer
hearing = idle (record { engine = registered; buffer = buffer }) none

abbrev heard : Connector (Cpu × Unit {0}) Buffer
heard =
    idle
      (record {
        engine = record registered {
          descriptors = ("c", record descriptor { hits = 1; last_used_at = some (pos 100) }) ∷ [];
          readings = 4;
        };
        buffer = buffer;
      })
      none

asking_runs : get_num_new_matched_tokens env hot asking 1 hearing ≡ (ok (1, false), heard)
unfolding get_num_new_matched_tokens Dict.get String_discrete Bool-cases is_expired
    llmcache.Connectors.Vllm.truthy llmcache.Connectors.Vllm.xfer_params
    llmcache.Connectors.Vllm.new_matched llmcache.Engine.Lifecycle.exists
    llmcache.Connectors.Vllm.prompt_tokens llmcache.Types.matched_chunk_count
    llmcache.Types.token_fingerprint llmcache.Types.to_bytes Dict.put
asking_runs = refl

get_num_new_matched_tokens-IsReported_example :
    IsReported (pos 1 ∷ pos 2 ∷ pos 9 ∷ []) tokens 1 (1, false) ⊎ Collision first_byte
unfolding llmcache.Connectors.Vllm.truthy llmcache.Connectors.Vllm.xfer_params String_discrete
    llmcache.Connectors.Vllm.prompt_tokens Bool-cases
get_num_new_matched_tokens-IsReported_example =
    get_num_new_matched_tokens-IsReported env hot tokens (single chunks) (some "c") (some (pos 30))
      true none engine asking 1 hearing register_runs descriptor-Lasts refl asking_runs
