-- ===== src/Tests/Connectors.antt =====
-- Examples of the connectors' theorems: two chunks of two blocks each.
use mathlib.Core.List.{flatten}
use llmcache.Prelude.{
  ◌≡◌, refl, none, some, [], ◌∷◌, length, true, false, Bool-cases, String_discrete, ℕ_discrete,
  arith,
}
use llmcache.Int.{pos, ◌+ℤ◌}
use llmcache.Results.{ok}
use llmcache.Dict
use llmcache.Types.{CacheDescriptor, is_expired}
use llmcache.Store.Cpu
use llmcache.Store.Cpu.{Cpu}
use llmcache.Store.Tiered.Promises.{Cpu-KeepsPinned}
use llmcache.Connectors.Transfer.{Layout, Buffer, dict_transfer, split_evenly, save_from, load_into}
use llmcache.Connectors.Transfer.Split.{split_evenly-flatten}
use llmcache.Connectors.Transfer.Pages.{labelled, save-load}
use llmcache.Connectors.Bridge.{Bridge}
use llmcache.Connectors.Sglang.{store, store_through, retrieve}
use llmcache.Engine.Live.{Lasts}
use llmcache.Connectors.Sglang.Roundtrip.{retrieve-store}
use llmcache.Types.{is_expired}
use llmcache.Connectors.Vllm.{
  SaveOp, LoadOp, Request, Blocks, plain, Connector, save_op, load_op, init,
  update_state_after_alloc,
}
use llmcache.Connectors.Transfer.Loaded.{chunk_bytes}
use llmcache.Connectors.Vllm.Transport.{save_op-load_op}
use llmcache.Connectors.Vllm.Plans.{Planned, update_state_after_alloc-Planned}
use llmcache.Tests.Data.{env, hot, engine, tokens, descriptor, payload_of, key_of}

abbrev pub layout : Layout
layout = record { block_size = 1; chunk_size = 2; num_layers = 1 }

abbrev pub buffer : Buffer
buffer = (10, 1 ∷ []) ∷ (11, 2 ∷ []) ∷ (12, 3 ∷ []) ∷ []

abbrev pub before : Bridge (Cpu × Unit {0}) Buffer
before = record { engine = engine; buffer = buffer }

abbrev saving : SaveOp
saving = record {
  request_id = "r";
  cache_id = "c";
  token_ids = tokens;
  block_ids = 10 ∷ 11 ∷ 12 ∷ 13 ∷ [];
  ttl = some (pos 30);
  pin = true;
  name = none;
}

abbrev loading : LoadOp
loading = record {
  request_id = "s";
  cache_id = "c";
  block_ids = 20 ∷ 21 ∷ 22 ∷ 23 ∷ [];
  num_chunks = 2;
}

abbrev saved_cpu : Cpu
saved_cpu = record {
  capacity_bytes = some 5;
  entries =
      (key_of "c" 0, labelled layout (1 ∷ 2 ∷ [])) ∷ (key_of "c" 1, labelled layout (3 ∷ [])) ∷ [];
  pinned = key_of "c" 0 ∷ key_of "c" 1 ∷ [];
  used = 3;
}

abbrev pub after : Bridge (Cpu × Unit {0}) Buffer
after = record before {
  engine = record engine {
    store = (saved_cpu, tt);
    descriptors = ("c", descriptor) ∷ [];
    readings = 1;
  };
}

saving_runs : save_op env hot (dict_transfer layout) saving before ≡ (ok tt, after)
unfolding save_op dict_transfer Cpu.backend Cpu.put Cpu.ensure_room Cpu.drop_existing Dict.get
    flatten ℕ_discrete Cpu.evict_loop Cpu.insert Dict.move_to_end Dict.put
    llmcache.Types.ChunkKey_discrete Bool-cases Dict.remove llmcache.Types.chunk_token_ids
    String_discrete llmcache.Types.Matching.fingerprints llmcache.Types.absorb
    llmcache.Types.to_bytes llmcache.Types.token_fingerprint llmcache.Types.range_step
    llmcache.Types.word_bytes ◌+ℤ◌ llmcache.Sets.add
saving_runs = refl

save_op-load_op_example :
    ((load_op env hot (dict_transfer layout) loading after).0 ≡ ok tt)
    × (chunk_bytes
          (load_op env hot (dict_transfer layout) loading after).1.buffer
          2
          2
          loading.block_ids
        ≡ chunk_bytes buffer 2 2 saving.block_ids)
unfolding llmcache.Connectors.Transfer.blocks_per_chunk Dict.get String_discrete Bool-cases
    is_expired llmcache.Sets.has ℕ_discrete
save_op-load_op_example =
    save_op-load_op env hot (Cpu-KeepsPinned none) layout saving loading before {d = descriptor}
      refl (omega arith) refl saving_runs refl refl refl (omega arith)
      (refl, (refl, (refl, (refl, tt)))) (omega arith)

save-load_example :
    (save_from layout
      (20 ∷ 21 ∷ [])
      1
      (load_into layout (20 ∷ 21 ∷ []) (payload_of (7 ∷ 8 ∷ 9 ∷ []) ∷ []) buffer).1).0
    ≡ ok (labelled layout (7 ∷ 8 ∷ 9 ∷ []) ∷ [])
unfolding llmcache.Connectors.Transfer.blocks_per_chunk llmcache.Sets.has ℕ_discrete
save-load_example =
    save-load layout (20 ∷ 21 ∷ []) (payload_of (7 ∷ 8 ∷ 9 ∷ []) ∷ []) buffer refl (omega arith)
      (refl, (refl, tt)) (omega arith)

split_evenly-flatten_example :
    (length (split_evenly (7 ∷ 8 ∷ 9 ∷ []) 2) ≡ 2)
    × (flatten (split_evenly (7 ∷ 8 ∷ 9 ∷ []) 2) ≡ 7 ∷ 8 ∷ 9 ∷ [])
split_evenly-flatten_example = split_evenly-flatten (7 ∷ 8 ∷ 9 ∷ []) 2 (omega arith)

abbrev pub request : Request
request = record {
  request_id = "s";
  kv_transfer_params =
      some (record { cache_id = some "c"; save = false; ttl = none; pin = false; name = none });
  prompt_token_ids = some tokens;
  all_token_ids = none;
}

abbrev idle : Connector (Cpu × Unit {0}) Buffer
idle = record { bridge = after; pending_loads = []; pending_saves = []; metadata = none }

update_state_after_alloc-Planned_example :
    ((update_state_after_alloc env hot request (plain (20 ∷ [])) 3 idle).0 ≡ ok tt)
    × Planned env hot request "c"
        (20 ∷ [])
        3
        (update_state_after_alloc env hot request (plain (20 ∷ [])) 3 idle).1
unfolding llmcache.Connectors.Vllm.truthy llmcache.Connectors.Vllm.xfer_params String_discrete
    Bool-cases llmcache.Engine.Lifecycle.exists Dict.get llmcache.Connectors.Vllm.extract_block_ids
update_state_after_alloc-Planned_example =
    update_state_after_alloc-Planned env hot request (plain (20 ∷ [])) 3 idle refl (omega arith)
      (omega arith) refl

storing_runs :
    store env hot
      (some (dict_transfer layout))
      "c"
      tokens
      saving.block_ids
      (some (pos 30))
      true
      none
      before
    ≡ (ok tt, after)
unfolding store store_through dict_transfer Cpu.backend Cpu.put Cpu.ensure_room Cpu.drop_existing
    Dict.get flatten ℕ_discrete Cpu.evict_loop Cpu.insert Dict.move_to_end Dict.put
    llmcache.Types.ChunkKey_discrete Bool-cases Dict.remove llmcache.Types.chunk_token_ids
    String_discrete llmcache.Types.Matching.fingerprints llmcache.Types.absorb
    llmcache.Types.to_bytes llmcache.Types.token_fingerprint llmcache.Types.range_step
    llmcache.Types.word_bytes ◌+ℤ◌ llmcache.Sets.add
storing_runs = refl

pub descriptor-Lasts : Lasts env hot descriptor
unfolding is_expired
descriptor-Lasts n = refl

retrieve-store_example :
    ((retrieve env hot (some (dict_transfer layout)) "c" loading.block_ids none after).0 ≡ ok 3)
    × (chunk_bytes
          (retrieve env hot (some (dict_transfer layout)) "c" loading.block_ids none after).1.buffer
          2
          2
          loading.block_ids
        ≡ chunk_bytes buffer 2 2 saving.block_ids)
unfolding llmcache.Connectors.Transfer.blocks_per_chunk Dict.get String_discrete Bool-cases
    llmcache.Sets.has ℕ_discrete
retrieve-store_example =
    retrieve-store env hot (Cpu-KeepsPinned none) layout "c" tokens saving.block_ids
      loading.block_ids (some (pos 30)) none before {d = descriptor} refl (omega arith) storing_runs
      refl descriptor-Lasts (refl, (refl, (refl, (refl, tt)))) (omega arith)
