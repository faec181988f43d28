-- ===== src/Tests/Store.antt =====
-- Examples of the stores' theorems.
use llmcache.Prelude.{
  ℕ, ◌≡◌, ◌≢◌, refl, ap, String, Option, none, some, List, [], ◌∷◌, true, false, String_discrete,
  ne_of_false, arith,
}
use llmcache.Results.{ok, err, storage_full}
use llmcache.Exec.{Exec}
use llmcache.Types.{ChunkKey, ChunkKey_discrete}
use llmcache.Payload.{KvPayload}
use llmcache.Dict
use llmcache.Store.Contract.{KeepsPinned}
use llmcache.Store.Cpu
use llmcache.Store.Cpu.{Cpu}
use llmcache.Store.Cpu.Invariant.{IsValid}
use llmcache.Store.Cpu.Pinning.{Holds, put_raises}
use llmcache.Store.Cpu.Put.{put-lru}
use llmcache.Store.Cpu.History
use llmcache.Store.Cpu.History.{Call, run, run-IsValid, run-Holds}
use llmcache.Store.Tiered.{over_cpu}
use llmcache.Store.Tiered.Promises.{over_cpu-KeepsPinned}
use llmcache.Store.Tiered.NoLoss.{tier_view, put-tier_view}
use llmcache.Store.Tiered.Reads.{Reads, get-tier_view}
use llmcache.Store.{StorageBackend}
use llmcache.Payload.{nbytes}
use llmcache.Store.Cpu.Unbounded.{unbounded-IsMap, capacity-Fine}
use llmcache.Tests.Data.{payload_of, key_of, three, shelf}

-- A callback that notes the cache ids of what is evicted.
abbrev note : ChunkKey → KvPayload → Exec (List String) (Unit {0})
note k v log = (ok tt, k.cache_id ∷ log)

abbrev big : KvPayload
big = payload_of (5 ∷ 6 ∷ 7 ∷ [])

three-IsValid : IsValid three
unfolding Dict.get ChunkKey_discrete llmcache.Prelude.Bool-cases llmcache.Store.Cpu.Bytes.total
three-IsValid = record {
  distinct = (refl, (refl, (refl, tt)));
  counted = refl;
  fits = λ capacity e. ground arith;
}

-- The oldest object goes, the pinned one and the one after it stay.
abbrev three_and_big : Cpu
three_and_big = record three {
  entries =
      (key_of "b" 0, payload_of (3 ∷ []))
      ∷ (key_of "d" 0, payload_of (4 ∷ []))
      ∷ (key_of "e" 0, big)
      ∷ [];
  used = 5;
}

put-lru_example :
    (true ≡ true
      → Cpu.put (some note) (key_of "e" 0) big false (three, [])
        ≡ (ok tt, (three_and_big, "a" ∷ [])))
    × (true ≡ false
        → (Cpu.put (some note) (key_of "e" 0) big false (three, [])).0 ≡ err storage_full)
unfolding llmcache.Store.Cpu.Spill.pinned_total llmcache.Store.Cpu.Spill.spill
    llmcache.Store.Cpu.Bytes.total llmcache.Store.Cpu.Eviction.notify_all Dict.remove
    ChunkKey_discrete llmcache.Prelude.Bool-cases llmcache.Sets.has
put-lru_example =
    put-lru note (λ k v c. refl) (key_of "e" 0) big false three [] 5 refl three-IsValid

abbrev calls : List Call
calls =
    History.put (key_of "e" 0) big false
    ∷ History.get (key_of "d" 0)
    ∷ History.remove (key_of "a" 0)
    ∷ History.put (key_of "f" 0) big true
    ∷ []

run-IsValid_example : IsValid (run (some note) (Cpu.init (some 5), []) calls).0
run-IsValid_example = run-IsValid (some note) (some 5) [] calls

other_key : (s t : String) {i j : ℕ} → s ≢ t → key_of s i ≢ key_of t j
other_key s t ne e = ne (ap (λ (k : ChunkKey). k.cache_id) e)

run-Holds_example : Holds (run (some note) (three, []) calls).0 (key_of "b" 0) (payload_of (3 ∷ []))
unfolding Dict.get ChunkKey_discrete llmcache.Prelude.Bool-cases llmcache.Sets.has
run-Holds_example =
    run-Holds (some note) (three, []) calls (key_of "b" 0) (payload_of (3 ∷ []))
      (
        other_key "b" "e" (ne_of_false "b" "e" refl),
        (
          (λ x. x),
          (
            other_key "b" "a" (ne_of_false "b" "a" refl),
            (other_key "b" "f" (ne_of_false "b" "f" refl), tt),
          ),
        ),
      )
      (record { resident = refl; is_pinned = refl })

-- Too large beside the pinned object: the old object under the key is lost.
abbrev huge : KvPayload
huge = payload_of (5 ∷ 6 ∷ 7 ∷ 8 ∷ 9 ∷ [])

put_raises_example :
    (Dict.get ChunkKey_discrete
        (Cpu.put (some note) (key_of "a" 0) huge true (three, [])).1.0.entries
        (key_of "a" 0)
      ≡ none)
    × ((Cpu.put (some note) (key_of "a" 0) huge true (three, [])).1.0.pinned ≡ three.pinned)
unfolding Cpu.put Cpu.ensure_room Cpu.drop_existing Dict.get ChunkKey_discrete
    llmcache.Prelude.Bool-cases Cpu.evict_loop Dict.remove llmcache.Sets.has Cpu.notify Cpu.evict
put_raises_example = put_raises (some note) (key_of "a" 0) huge true three [] storage_full refl

over_cpu-KeepsPinned_example : KeepsPinned (over_cpu shelf)
over_cpu-KeepsPinned_example = over_cpu-KeepsPinned shelf

-- A cold tier without a capacity.
abbrev cold : StorageBackend (Cpu × Unit {0})
cold = Cpu.backend none

abbrev below : Cpu
below = record {
  capacity_bytes = none;
  entries = (key_of "x" 0, big) ∷ [];
  pinned = [];
  used = nbytes big;
}

abbrev both : Cpu × (Cpu × Unit {0})
both = (three, (below, tt))

put-tier_view_example :
    ((j : ChunkKey)
      → j ≢ key_of "e" 0
      → tier_view cold (unbounded-IsMap none) ((over_cpu cold).put (key_of "e" 0) big true both).1 j
        ≡ tier_view cold (unbounded-IsMap none) both j)
    × (((over_cpu cold).put (key_of "e" 0) big true both).0 ≡ ok tt
        → tier_view cold
            (unbounded-IsMap none)
            ((over_cpu cold).put (key_of "e" 0) big true both).1
            (key_of "e" 0)
          ≡ some big)
put-tier_view_example =
    put-tier_view cold (unbounded-IsMap none) (key_of "e" 0) big true both
      (capacity-Fine none (below, tt) refl)

get-tier_view_example :
    Reads cold (unbounded-IsMap none) (key_of "x" 0) both ((over_cpu cold).get (key_of "x" 0) both)
get-tier_view_example =
    get-tier_view cold (unbounded-IsMap none) (key_of "x" 0) both
      (capacity-Fine none (below, tt) refl)
