-- ===== src/Store/Tiered/Promises.antt =====
-- Pinned objects stay in the hot tier, alone or over any cold tier, whether or not the cold tier
-- raises.
use llmcache.Prelude.{
  ◌≡◌, ◌≢◌, refl, Bool, true, false, Option, none, some, arith, ap, ◌∙◌, sym, subst, if◌then◌else◌,
}
use llmcache.Results.{Result, ok, err}
use llmcache.Exec.{Exec, continue, pure}
use llmcache.Types.{ChunkKey, ChunkKey_discrete}
use llmcache.Payload.{KvPayload}
use llmcache.Store.{StorageBackend}
use llmcache.Store.Contract.{KeepsPinned}
use llmcache.Store.Cpu
use llmcache.Store.Cpu.{Cpu}
use llmcache.Store.Cpu.Pinning.{
  Holds, put-Holds, put_returns, get-entry, get-Holds, remove-Holds, pin-Holds, unpin-Holds,
}
use llmcache.Store.Tiered.{
  put, get, fall_through, promote, remove, pin, unpin, demote, cpu_hot, over_cpu, backend, on_cold,
}

module _ {C : Type 0} (on_evict : Option (ChunkKey → KvPayload → Exec C (Unit {0}))) where
  -- The hot tier alone keeps what is pinned, with any callback.
  pub Cpu-KeepsPinned : KeepsPinned (Cpu.backend on_evict)
  unfolding Cpu.backend
  Cpu-KeepsPinned = record {
    Holds = λ t j o. Holds t.0 j o;
    put_holds = λ k o t returned. (put_returns on_evict k o true t.0 t.1 returned).1 refl;
    put_keeps = λ k o p t j o' ne h. put-Holds on_evict k o p t.0 t.1 j o' ne h;
    get_returns = λ k o t h. (get-entry on_evict k t.0 t.1).0 ∙ ap ok h.resident;
    get_keeps = λ k t j o h. get-Holds on_evict k t.0 t.1 j o h;
    remove_keeps = λ k t j o ne h. remove-Holds on_evict k t.0 t.1 j o h ne;
    pin_keeps = λ k t j o h. pin-Holds on_evict k t.0 t.1 j o h;
    unpin_keeps = λ k t j o ne h. unpin-Holds on_evict k t.0 t.1 j o h ne;
  }

-- A tiered store over a hot tier that keeps pinned objects in its own state.
module _ {H C : Type 0} (hot : StorageBackend (H × C)) (cold : StorageBackend C)
    (promise : KeepsPinned hot)
    (frame : (h : H) (c c' : C) (j : ChunkKey) (o : KvPayload)
      → promise.Holds (h, c) j o
      → promise.Holds (h, c') j o) where
  abbrev Held : ChunkKey → KvPayload → H × C → Type 0
  Held j o t = promise.Holds t j o

  -- A call on the hot tier, then one that keeps what is held.
  then_keeps :
      {A B : Type 0} (j : ChunkKey) (o : KvPayload) (r : Result A) (rest : A → Exec (H × C) B)
      (t : H × C)
      → Held j o t
      → ((a : A) → Held j o (rest a t).1)
      → Held j o (continue r rest t).1
  then_keeps j o (ok a) rest t h next = next a
  then_keeps j o (err e) rest t h next = h

  cold_keeps :
      {A : Type 0} (j : ChunkKey) (o : KvPayload) (m : Exec C A) (t : H × C)
      → Held j o t
      → Held j o (on_cold m t).1
  cold_keeps j o m (h, c) held = frame h c (m c).1 j o held

  write_through_keeps :
      (k : ChunkKey) (obj : KvPayload) (p : Bool) (j : ChunkKey) (o : KvPayload) (t : H × C)
      → Held j o t
      → Held j o ((if p then on_cold (cold.put k obj true) else pure tt) t).1
  write_through_keeps k obj true j o t held = cold_keeps j o (cold.put k obj true) t held
  write_through_keeps k obj false j o t held = held

  ok_of_continue :
      {A B : Type 0} (r : Result A) (rest : A → Exec (H × C) B) (t : H × C) {b : B}
      → (continue r rest t).0 ≡ ok b
      → (a : A) × (r ≡ ok a)
  ok_of_continue (ok a) rest t e = (a, refl)
  ok_of_continue (err x) rest t e = absurd (ground arith)

  promote_keeps :
      (k : ChunkKey) (found : Option KvPayload) (t : H × C) (j : ChunkKey) (o : KvPayload)
      → j ≢ k
      → Held j o t
      → Held j o (promote hot cold k found t).1
  unfolding promote
  promote_keeps k none t j o ne held = held
  promote_keeps k (some obj) t j o ne held =
      then_keeps j o (hot.put k obj false t).0 _ (hot.put k obj false t).1
        (promise.put_keeps k obj false t j o ne held)
        (λ _. promise.put_keeps k obj false t j o ne held)

  fall_through_keeps :
      (k : ChunkKey) (found : Option KvPayload) (t : H × C) (j : ChunkKey) (o : KvPayload)
      → j ≢ k
      → Held j o t
      → Held j o (fall_through hot cold k found t).1
  unfolding fall_through
  fall_through_keeps k (some obj) t j o ne held = held
  fall_through_keeps k none t j o ne held =
      then_keeps j o (cold.get k t.1).0 (promote hot cold k) (on_cold (cold.get k) t).1
        (cold_keeps j o (cold.get k) t held)
        (λ found.
          promote_keeps k found (on_cold (cold.get k) t).1 j o ne
            (cold_keeps j o (cold.get k) t held))

  get-Held :
      (k : ChunkKey) (t : H × C) (o : KvPayload)
      → Held k o t
      → get hot cold k t ≡ (ok (some o), (hot.get k t).1)
  unfolding get
  get-Held k t o held =
      ap (λ r. continue r (fall_through hot cold k) (hot.get k t).1)
        (promise.get_returns k o t held)

  get_keeps :
      (k : ChunkKey) (t : H × C) (j : ChunkKey) (o : KvPayload)
      → Held j o t
      → Held j o (get hot cold k t).1
  get_keeps k t j o held = elim (ChunkKey_discrete j k) [
    | yes e ↦
        subst (λ r. Held j o r.1) (sym (get-Held k t o (rw e at held)))
          (promise.get_keeps k t j o held)
    | no ne ↦
        unfold get in
        then_keeps j o (hot.get k t).0 (fall_through hot cold k) (hot.get k t).1
          (promise.get_keeps k t j o held)
          (λ found.
            fall_through_keeps k found (hot.get k t).1 j o ne (promise.get_keeps k t j o held))
  ]

  pub tiered-KeepsPinned : KeepsPinned (backend hot cold)
  unfolding backend put get remove pin unpin
  tiered-KeepsPinned = record {
    Holds = promise.Holds;
    put_holds = λ k o t returned.
        let (_, e) = ok_of_continue (hot.put k o true t).0 _ (hot.put k o true t).1 returned in
        let held : Held k o (hot.put k o true t).1 = promise.put_holds k o t e in
        then_keeps k o (hot.put k o true t).0 _ (hot.put k o true t).1 held
          (λ _. write_through_keeps k o true k o (hot.put k o true t).1 held);
    put_keeps = λ k o p t j o' ne h.
        let held : Held j o' (hot.put k o p t).1 = promise.put_keeps k o p t j o' ne h in
        then_keeps j o' (hot.put k o p t).0 _ (hot.put k o p t).1 held
          (λ _. write_through_keeps k o p j o' (hot.put k o p t).1 held);
    get_returns = λ k o t h. ap (λ r. r.0) (get-Held k t o h);
    get_keeps = λ k t j o h. get_keeps k t j o h;
    remove_keeps = λ k t j o ne h.
        let held : Held j o (hot.remove k t).1 = promise.remove_keeps k t j o ne h in
        then_keeps j o (hot.remove k t).0 _ (hot.remove k t).1 held (λ _.
          then_keeps j o (cold.remove k (hot.remove k t).1.1).0 _
            (on_cold (cold.remove k) (hot.remove k t).1).1
            (cold_keeps j o (cold.remove k) (hot.remove k t).1 held)
            (λ _. cold_keeps j o (cold.remove k) (hot.remove k t).1 held));
    pin_keeps = λ k t j o h.
        let held : Held j o (hot.pin k t).1 = promise.pin_keeps k t j o h in
        then_keeps j o (hot.pin k t).0 _ (hot.pin k t).1 held
          (λ _. cold_keeps j o (cold.pin k) (hot.pin k t).1 held);
    unpin_keeps = λ k t j o ne h.
        let held : Held j o (hot.unpin k t).1 = promise.unpin_keeps k t j o ne h in
        then_keeps j o (hot.unpin k t).0 _ (hot.unpin k t).1 held
          (λ _. cold_keeps j o (cold.unpin k) (hot.unpin k t).1 held);
  }

-- The promise of pinned objects holds of a `CPUBackend` over any cold tier, whatever that does.
pub over_cpu-KeepsPinned : {C : Type 0} (cold : StorageBackend C) → KeepsPinned (over_cpu cold)
unfolding over_cpu cpu_hot
over_cpu-KeepsPinned cold =
    tiered-KeepsPinned (cpu_hot cold) cold (Cpu-KeepsPinned (some (demote cold)))
      (λ h c c' j o held. unfold Cpu-KeepsPinned in held)
