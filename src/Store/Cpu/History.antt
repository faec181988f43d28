-- ===== src/Store/Cpu/History.antt =====
-- Any sequence of calls of the hot tier, some of which may raise.
use llmcache.Prelude.{ℕ, Option, Bool, List, [], ◌∷◌, ◌≡◌}
use llmcache.Exec.{Exec}
use llmcache.Types.{ChunkKey}
use llmcache.Payload.{KvPayload}
use llmcache.Store.Cpu
use llmcache.Store.Cpu.{Cpu}
use llmcache.Store.Cpu.Invariant.{
  IsValid, init-IsValid, put-IsValid, get-IsValid, remove-IsValid, pin-IsValid, unpin-IsValid,
}
use llmcache.Store.Cpu.Pinning.{Holds, put-Holds, get-Holds, remove-Holds, pin-Holds, unpin-Holds}

pub data Call : Type 0 where
  put : ChunkKey → KvPayload → Bool → Call
  get : ChunkKey → Call
  remove : ChunkKey → Call
  pin : ChunkKey → Call
  unpin : ChunkKey → Call

-- The call may unpin, remove or replace the object under the key.
abbrev pub Disturbs : ChunkKey → Call → Type 0
Disturbs j (put k o p) = j ≡ k
Disturbs j (get k) = ⊥
Disturbs j (remove k) = j ≡ k
Disturbs j (pin k) = ⊥
Disturbs j (unpin k) = j ≡ k

abbrev pub Undisturbed : ChunkKey → List Call → Type 0
Undisturbed j [] = Unit
Undisturbed j (call ∷ calls) = (¬ Disturbs j call) × Undisturbed j calls

module _ {C : Type 0} (on_evict : Option (ChunkKey → KvPayload → Exec C (Unit {0}))) where
  -- The state after a call, however it ends.
  unfoldable pub step : Cpu × C → Call → Cpu × C
  step t (put k o p) = (Cpu.put on_evict k o p t).1
  step t (get k) = (Cpu.get on_evict k t).1
  step t (remove k) = (Cpu.remove on_evict k t).1
  step t (pin k) = (Cpu.pin on_evict k t).1
  step t (unpin k) = (Cpu.unpin on_evict k t).1

  unfoldable pub run : Cpu × C → List Call → Cpu × C
  unfolding step
  run t [] = t
  run t (call ∷ calls) = run (step t call) calls

  step-IsValid : (t : Cpu × C) (call : Call) → IsValid t.0 → IsValid (step t call).0
  unfolding step
  step-IsValid (s, c) (put k o p) h = put-IsValid on_evict k o p s c h
  step-IsValid (s, c) (get k) h = get-IsValid on_evict k s c h
  step-IsValid (s, c) (remove k) h = remove-IsValid on_evict k s c h
  step-IsValid (s, c) (pin k) h = pin-IsValid on_evict k s c h
  step-IsValid (s, c) (unpin k) h = unpin-IsValid on_evict k s c h

  run_keeps : (t : Cpu × C) (calls : List Call) → IsValid t.0 → IsValid (run t calls).0
  unfolding run
  run_keeps t [] h = h
  run_keeps t (call ∷ calls) h = run_keeps (step t call) calls (step-IsValid t call h)

  -- Whatever calls are made on a new store, and however the callback ends, the byte count is the
  -- sum of the sizes of the stored objects, no key is stored twice, and the bytes are within the
  -- capacity.
  pub run-IsValid :
      (capacity_bytes : Option ℕ) (c : C) (calls : List Call)
      → IsValid (run (Cpu.init capacity_bytes, c) calls).0
  run-IsValid capacity_bytes c calls =
      run_keeps (Cpu.init capacity_bytes, c) calls (init-IsValid capacity_bytes)

  step-Holds :
      (t : Cpu × C) (call : Call) (j : ChunkKey) (o : KvPayload)
      → ¬ Disturbs j call
      → Holds t.0 j o
      → Holds (step t call).0 j o
  unfolding step
  step-Holds (s, c) (put k o' p) j o u h = put-Holds on_evict k o' p s c j o u h
  step-Holds (s, c) (get k) j o u h = get-Holds on_evict k s c j o h
  step-Holds (s, c) (remove k) j o u h = remove-Holds on_evict k s c j o h u
  step-Holds (s, c) (pin k) j o u h = pin-Holds on_evict k s c j o h
  step-Holds (s, c) (unpin k) j o u h = unpin-Holds on_evict k s c j o h u

  -- An object that is stored and pinned stays stored and pinned through any calls that do not
  -- replace, remove or unpin it, whatever else is put and however the calls end.
  pub run-Holds :
      (t : Cpu × C) (calls : List Call) (j : ChunkKey) (o : KvPayload)
      → Undisturbed j calls
      → Holds t.0 j o
      → Holds (run t calls).0 j o
  unfolding run
  run-Holds t [] j o u h = h
  run-Holds t (call ∷ calls) j o u h =
      run-Holds (step t call) calls j o u.1 (step-Holds t call j o u.0 h)
