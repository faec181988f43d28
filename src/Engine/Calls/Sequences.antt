-- ===== src/Engine/Calls/Sequences.antt =====
-- Every sequence of permitted calls keeps what the rules say.
use llmcache.Prelude.{ℕ, ◌≡◌, String, some, List, [], ◌∷◌}
use llmcache.Types.{CacheDescriptor}
use llmcache.Store.{StorageBackend}
use llmcache.Engine.State.{Env, Engine}
use llmcache.Engine.Register
use llmcache.Engine.Lifecycle
use llmcache.Engine.Calls.{
  Call, Rules, register, put_chunk, commit, get, exists, delete, pin, unpin, lookup, load,
  extend_ttl, sweep_expired, list,
}
use llmcache.Engine.Calls.Sweeps.{sweep_rule, list_rule}
use llmcache.Engine.Calls.Reads.{
  delete_rule, live_rule, exists_rule, lookup_rule, load_rule, extend_ttl_rule, pin_rule,
  unpin_rule,
}
use llmcache.Engine.Calls.Writes.{put_chunk_rule, commit_rule, register_rule}

module _ {S : Type 0} (env : Env) (store : StorageBackend S) where
  -- The engine after a call, however it ends.
  unfoldable pub step : Engine S → Call → Engine S
  step e (register tokens payloads cid ttl p name) =
      (Register.register env store tokens payloads cid ttl p name e).1
  step e (put_chunk cid idx o worker p) = (Register.put_chunk env store cid idx o worker p e).1
  step e (commit cid tokens layers workers ttl p name) =
      (Register.commit env store cid tokens layers workers ttl p name e).1
  step e (get cid) = (Lifecycle.get env store cid e).1
  step e (exists cid) = (Lifecycle.exists env store cid e).1
  step e (delete cid) = (Lifecycle.delete env store cid e).1
  step e (pin cid) = (Lifecycle.pin env store cid e).1
  step e (unpin cid) = (Lifecycle.unpin env store cid e).1
  step e (lookup cid request) = (Lifecycle.lookup env store cid request e).1
  step e (load cid wanted worker) = (Lifecycle.load env store cid wanted worker e).1
  step e (extend_ttl cid ttl) = (Lifecycle.extend_ttl env store cid ttl e).1
  step e sweep_expired = (Lifecycle.sweep_expired env store e).1
  step e list = (Lifecycle.list env store e).1

  unfoldable pub run : Engine S → List Call → Engine S
  unfolding step
  run e [] = e
  run e (call ∷ calls) = run (step e call) calls

  -- The call is about cache ids in `Mine` only; `Sweeps` permits those about every id.
  abbrev pub About : (String → Type 0) → Type 0 → Call → Type 0
  About Mine Sweeps (register tokens payloads cid ttl p name) =
      ((given : String) → cid ≡ some given → Mine given) × ((n : ℕ) → Mine (env.new_id n))
  About Mine Sweeps (put_chunk cid idx o worker p) = Mine cid
  About Mine Sweeps (commit cid tokens layers workers ttl p name) = Mine cid
  About Mine Sweeps (get cid) = Mine cid
  About Mine Sweeps (exists cid) = Mine cid
  About Mine Sweeps (delete cid) = Mine cid
  About Mine Sweeps (pin cid) = Mine cid
  About Mine Sweeps (unpin cid) = Mine cid
  About Mine Sweeps (lookup cid request) = Mine cid
  About Mine Sweeps (load cid wanted worker) = Mine cid
  About Mine Sweeps (extend_ttl cid ttl) = Mine cid
  About Mine Sweeps sweep_expired = Sweeps
  About Mine Sweeps list = Sweeps

  abbrev pub AllAbout : (String → Type 0) → Type 0 → List Call → Type 0
  AllAbout Mine Sweeps [] = Unit
  AllAbout Mine Sweeps (call ∷ calls) = About Mine Sweeps call × AllAbout Mine Sweeps calls

  module _ {Mine : String → Type 0} {Sweeps : Type 0} {Good : String → CacheDescriptor → Type 0}
      {Q : Engine S → Type 0} (rules : Rules env store Mine Sweeps Good Q) where
    pub step_rule : (e : Engine S) (call : Call) → About Mine Sweeps call → Q e → Q (step e call)
    unfolding step Lifecycle.get
    step_rule e (register tokens payloads cid ttl p name) about h =
        register_rule env store rules tokens payloads cid ttl p name e about h
    step_rule e (put_chunk cid idx o worker p) about h =
        put_chunk_rule env store rules cid idx o worker p e about h
    step_rule e (commit cid tokens layers workers ttl p name) about h =
        commit_rule env store rules cid tokens layers workers ttl p name e about h
    step_rule e (get cid) about h = (live_rule env store rules cid e about h).0
    step_rule e (exists cid) about h = exists_rule env store rules cid e about h
    step_rule e (delete cid) about h = delete_rule env store rules cid e about h
    step_rule e (pin cid) about h = pin_rule env store rules cid e about h
    step_rule e (unpin cid) about h = unpin_rule env store rules cid e about h
    step_rule e (lookup cid request) about h = lookup_rule env store rules cid request e about h
    step_rule e (load cid wanted worker) about h =
        load_rule env store rules cid wanted worker e about h
    step_rule e (extend_ttl cid ttl) about h = extend_ttl_rule env store rules cid ttl e about h
    step_rule e sweep_expired about h = sweep_rule env store rules e about h
    step_rule e list about h = list_rule env store rules e about h

    pub run_rule :
        (e : Engine S) (calls : List Call) → AllAbout Mine Sweeps calls → Q e → Q (run e calls)
    unfolding run
    run_rule e [] about h = h
    run_rule e (call ∷ calls) about h =
        run_rule (step e call) calls about.1 (step_rule e call about.0 h)
