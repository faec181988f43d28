-- ===== src/Tests/Calls.antt =====
-- Examples of the theorems on sequences of the engine's calls.
use llmcache.Prelude.{
  ◌≡◌, ◌≢◌, refl, String, false, none, some, List, [], ◌∷◌, length, ne_of_false, arith, ℕ_discrete,
  String_discrete,
}
use llmcache.Int.{pos}
use llmcache.Results.{ok}
use llmcache.Types.{is_expired}
use llmcache.Dict
use llmcache.Engine.Register.{single}
use llmcache.Engine.Calls
use llmcache.Engine.Lifecycle
use llmcache.Engine.Calls.{
  Call, put_chunk, lookup, delete, pin, extend_ttl, load, sweep_expired, list,
}
use llmcache.Engine.Calls.Sequences.{run, AllAbout}
use llmcache.Engine.Calls.Survival.{run-load}
use llmcache.Engine.Calls.Soundness.{IsSound, run-IsSound, run-sweep_expired}
use llmcache.Engine.Sweep.{late, unexpired}
use llmcache.Store.Tiered.Promises.{Cpu-KeepsPinned}
use llmcache.Tests.Data.{descriptor, env, hot, engine, tokens, chunks, payload_of}
use llmcache.Tests.Engine.{hot-Removes, registered, register_runs}
use llmcache.Engine.Live.{Lasts}

-- Calls on ids that are missing: nothing changes.
abbrev before : List Call
before = lookup "none" none ∷ delete "none" ∷ []

-- A second registration, which does not fit whole, and calls that raise.
abbrev calls : List Call
calls =
    Calls.register tokens (single chunks) (some "d") none false none
    ∷ lookup "none" (some tokens)
    ∷ put_chunk "d" 5 (payload_of (1 ∷ 2 ∷ 3 ∷ [])) 0 false
    ∷ pin "d"
    ∷ extend_ttl "d" (pos 7)
    ∷ load "d" none 0
    ∷ sweep_expired
    ∷ delete "d"
    ∷ list
    ∷ []

d_ne_c : ◌≢◌ {A = String} "d" "c"
d_ne_c = ne_of_false "d" "c" refl

none_ne_c : ◌≢◌ {A = String} "none" "c"
none_ne_c = ne_of_false "none" "c" refl

fresh_ne_c : ◌≢◌ {A = String} "fresh" "c"
fresh_ne_c = ne_of_false "fresh" "c" refl

descriptor-Lasts : Lasts env hot descriptor
unfolding is_expired
descriptor-Lasts n = refl

about_others : AllAbout env hot (λ other. other ≢ "c") (Lasts env hot descriptor) calls
about_others = (
  (λ given e. ground (arith, d_ne_c), λ _. fresh_ne_c),
  (
    none_ne_c,
    (d_ne_c, (d_ne_c, (d_ne_c, (d_ne_c, (descriptor-Lasts, (d_ne_c, (descriptor-Lasts, tt))))))),
  ),
)

run-load_example : (Lifecycle.load env hot "c" none 0 (run env hot registered calls)).0 ≡ ok chunks
unfolding llmcache.Engine.Register.normalize_payloads Dict.get ℕ_discrete is_expired run
    llmcache.Engine.Register.register Lifecycle.delete Lifecycle.lookup
run-load_example =
    run-load env hot (Cpu-KeepsPinned none) engine before tokens (single chunks) (some "c")
      (some (pos 30)) none calls none 0 refl (refl, tt) refl register_runs about_others refl

run-IsSound_example : IsSound 2 (run env hot engine calls).descriptors
run-IsSound_example = run-IsSound env hot engine calls refl

run-sweep_expired_example :
    ((Lifecycle.sweep_expired env hot (run env hot engine calls)).0
      ≡ ok (length (late (pos 100) (Dict.values (run env hot engine calls).descriptors))))
    × ((c : String)
        → Dict.get String_discrete
            (Lifecycle.sweep_expired env hot (run env hot engine calls)).1.descriptors
            c
          ≡ unexpired (pos 100) (Dict.get String_discrete (run env hot engine calls).descriptors c))
run-sweep_expired_example = run-sweep_expired env hot engine calls refl hot-Removes refl
