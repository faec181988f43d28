-- ===== src/Tests/Engine.antt =====
-- Examples of the engine's theorems.
use llmcache.Prelude.{
  arith, ◌≢◌, ◌⊎◌, inl, inr, ite, Option-cases, ne_of_false, String, ◌≡◌, refl, none, some, List,
  [], ◌∷◌, true, false, Bool-cases, ℕ_discrete, String_discrete,
}
use llmcache.Int.{ℤ, pos, ◌+ℤ◌}
use llmcache.Results.{ok, err, cache_expired, cache_not_found}
use llmcache.Dict
use llmcache.Types.{
  is_expired, chunk_token_ids, token_fingerprint, absorb, to_bytes, ChunkKey_discrete,
}
use llmcache.Types.Matching.{fingerprints}
use llmcache.Store.Tiered.Promises.{Cpu-KeepsPinned}
use llmcache.Engine.State.{Engine, LookupResult}
use llmcache.Engine.Register.{Payloads, single, register}
use llmcache.Engine.Lifecycle.{lookup, get, exists, delete}
use llmcache.Engine.Hits.{IsHit, register-lookup}
use llmcache.Engine.Expiry.{Removes, get-expired}
use llmcache.Engine.Totality.{Ends, register-Ends}
use llmcache.Engine.Removal.{get-delete, delete-Holds}
use llmcache.Types.Matching.{Collision}
use llmcache.Types.{CacheDescriptor}
use llmcache.Store.Cpu
use llmcache.Store.Cpu.{Cpu}
use llmcache.Tests.Data.{
  empty_cpu, env, hot, engine, tokens, chunks, descriptor, first_byte, key_of, payload_of,
}

abbrev pub full_cpu : Cpu
full_cpu = record {
  capacity_bytes = some 5;
  entries = (key_of "c" 0, payload_of (7 ∷ 8 ∷ [])) ∷ (key_of "c" 1, payload_of (9 ∷ [])) ∷ [];
  pinned = key_of "c" 0 ∷ key_of "c" 1 ∷ [];
  used = 3;
}

abbrev pub registered : Engine (Cpu × Unit {0})
registered = record engine {
  store = (full_cpu, tt);
  descriptors = ("c", descriptor) ∷ [];
  readings = 1;
}

pub register_runs :
    register env hot tokens (single chunks) (some "c") (some (pos 30)) true none engine
    ≡ (ok descriptor, registered)
unfolding register String_discrete Bool-cases Dict.put Dict.get chunk_token_ids fingerprints
    token_fingerprint absorb to_bytes Cpu.put Cpu.backend Cpu.insert Cpu.ensure_room Cpu.evict_loop
    Cpu.drop_existing ChunkKey_discrete ℕ_discrete Dict.move_to_end Dict.remove ◌+ℤ◌
    llmcache.Sets.add
register_runs = refl

pub still_live : is_expired descriptor none (env.time registered.readings) ≡ false
unfolding is_expired
still_live = refl

abbrev request : List ℤ
request = pos 1 ∷ pos 2 ∷ pos 9 ∷ []

abbrev answer : LookupResult
answer = record { cache_id = "c"; num_tokens = 2; num_chunks = 1; full = false }

abbrev answered : Engine (Cpu × Unit {0})
answered = record registered {
  descriptors = ("c", record descriptor { hits = 1; last_used_at = some (pos 100) }) ∷ [];
  readings = 3;
}

lookup_runs : lookup env hot "c" (some request) registered ≡ (ok answer, answered)
unfolding lookup Dict.get Dict.put chunk_token_ids String_discrete Bool-cases
    llmcache.Types.matched_chunk_count token_fingerprint absorb to_bytes
    llmcache.Types.count_matches is_expired llmcache.Types.word_bytes llmcache.Types.range_step ◌+ℤ◌
lookup_runs = refl

register-lookup_example : IsHit 2 request tokens answer ⊎ Collision first_byte
register-lookup_example =
    register-lookup env hot tokens request (single chunks) (some "c") (some (pos 30)) true none
      engine register_runs still_live lookup_runs

-- The hot tier's `remove` never raises.
pub hot-Removes : Removes env hot
unfolding Cpu.backend Cpu.remove
hot-Removes k (s, c) = elim (Option-cases (Dict.get ChunkKey_discrete s.entries k)) [
  | inl n ↦ (false, rw (n, Cpu.remove) refl)
  | inr (v, e) ↦ (true, rw (e, Cpu.remove) refl)
]

abbrev late : CacheDescriptor
late = record descriptor { expires_at = some (pos 50) }

abbrev aged : Engine (Cpu × Unit {0})
aged = record engine { descriptors = ("c", late) ∷ [] }

get-expired_example :
    ((get env hot "c" aged).0 ≡ err (cache_expired "c"))
    × ((exists env hot "c" aged).0 ≡ ok false)
    × ((get env hot "c" (get env hot "c" aged).1).0 ≡ err (cache_not_found "c"))
unfolding Dict.get String_discrete Bool-cases is_expired
get-expired_example = get-expired env hot "c" aged hot-Removes refl refl

get-delete_example :
    Dict.get String_discrete (delete env hot "c" registered).1.descriptors "d"
    ≡ ite (String_discrete "c" "d") none (Dict.get String_discrete registered.descriptors "d")
get-delete_example = get-delete env hot "c" "d" registered

abbrev stocked : Engine (Cpu × Unit {0})
stocked = record aged {
  store = (hot.put (key_of "d" 0) (payload_of (4 ∷ [])) true (empty_cpu, tt)).1;
}

d_ne_c : ◌≢◌ {A = String} "d" "c"
d_ne_c = ne_of_false "d" "c" refl

held_at_start : (Cpu-KeepsPinned none).Holds stocked.store (key_of "d" 0) (payload_of (4 ∷ []))
unfolding Cpu.backend Cpu.put Cpu.ensure_room Cpu.drop_existing Dict.get Cpu.evict_loop
held_at_start =
    (Cpu-KeepsPinned none).put_holds (key_of "d" 0) (payload_of (4 ∷ [])) (empty_cpu, tt) refl

delete-Holds_example :
    (Cpu-KeepsPinned none).Holds
      (delete env hot "c" stocked).1.store
      (key_of "d" 0)
      (payload_of (4 ∷ []))
delete-Holds_example =
    delete-Holds env hot (Cpu-KeepsPinned none) "c" stocked (key_of "d" 0) (payload_of (4 ∷ []))
      d_ne_c held_at_start

register-Ends_example :
    Ends env hot (register env hot tokens (single chunks) none none false none engine).0
unfolding llmcache.Engine.Register.check_counts llmcache.Engine.Register.normalize_payloads
register-Ends_example =
    register-Ends env hot tokens (single chunks) none none false none engine (omega arith)
      (omega arith, (omega arith, (omega arith, tt))) refl
