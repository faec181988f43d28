-- ===== src/Store/Tiered/NoLoss.antt =====
-- A `CPUBackend` over a cold tier that is a map: eviction demotes, and loses nothing.
use llmcache.Prelude.{
  ◌≡◌, ◌≢◌, refl, Bool, true, false, Option, none, some, arith, ◌∙◌, subst, inl, inr, Bool-cases,
  if◌then◌else◌,
}
use llmcache.Results.{Result, ok, err}
use llmcache.Exec.{Exec, continue, pure}
use llmcache.Types.{ChunkKey, ChunkKey_discrete}
use llmcache.Payload.{KvPayload, nbytes}
use llmcache.Dict
use llmcache.Dict.{get-remove, get-put, get-move_to_end}
use llmcache.Store.{StorageBackend}
use llmcache.Store.Contract.{IsMap}
use llmcache.Store.Cpu
use llmcache.Store.Cpu.{Cpu, evict, drop_existing, insert, ensure_room}
use llmcache.Store.Cpu.Loop.{IsVictim, told, tier_induction, ensure_room_cases, put_cases}
use llmcache.Store.Cpu.Pinning.{put_returns}
use llmcache.Store.Tiered.{put, demote, cpu_hot, over_cpu, on_cold}

abbrev pub dec : Discrete ChunkKey
dec = ChunkKey_discrete

abbrev pub or_else : Option KvPayload → Option KvPayload → Option KvPayload
or_else (some o) _ = some o
or_else none o = o

module _ {C : Type 0} (cold : StorageBackend C) (map : IsMap cold) where
  -- What a reader of the store should find: the hot object, or else the cold one.
  abbrev pub tier_view : Cpu × C → ChunkKey → Option KvPayload
  tier_view (s, c) j = or_else (Dict.get dec s.entries j) (map.view c j)

  module _ (key : ChunkKey) (seen : ChunkKey → Option KvPayload) (below : Option KvPayload) where
    -- Nothing is lost under the other keys, and the cold tier still has what it had under `key`.
    pub record Lossless (t : Cpu × C) : Type 0 where
      pub others : (j : ChunkKey) → j ≢ key → tier_view t j ≡ seen j
      pub beneath : map.view t.1 key ≡ below
      pub fine : map.Fine t.1

    evict-Lossless :
        (s : Cpu) (c : C) (k : ChunkKey) (v : KvPayload)
        → IsVictim key s k v
        → Lossless (s, c)
        → Lossless (evict k v s, told (some (demote cold)) k v c)
    unfolding evict told demote
    evict-Lossless s c k v iv h = record {
      others = λ j ne. ground (
        arith,
        h.others j ne,
        iv.present,
        get-remove dec s.entries k j,
        map.view-put k v false c j h.fine,
      );
      beneath = ground (arith, h.beneath, iv.not_protected, map.view-put k v false c key h.fine);
      fine = map.put-Fine k v false c h.fine;
    }

    drop_existing-Lossless : (s : Cpu) (c : C) → Lossless (s, c) → Lossless (drop_existing key s, c)
    unfolding drop_existing
    drop_existing-Lossless s c h = record {
      others = λ j ne. ground (arith, h.others j ne, get-remove dec s.entries key j);
      beneath = h.beneath;
      fine = h.fine;
    }

    insert-Lossless :
        (obj : KvPayload) (p : Bool) (s : Cpu) (c : C)
        → Lossless (s, c)
        → Lossless (insert key obj p s, c)
    unfolding insert
    insert-Lossless obj p s c h = record {
      others = λ j ne. ground (
        arith,
        h.others j ne,
        get-move_to_end dec (Dict.put dec s.entries key obj) key j,
        get-put dec s.entries key j obj,
      );
      beneath = h.beneath;
      fine = h.fine;
    }

    ensure_room-Lossless :
        (incoming : _) (s : Cpu) (c : C)
        → Lossless (s, c)
        → Lossless (ensure_room (some (demote cold)) incoming key (s, c)).1
    ensure_room-Lossless incoming s c h =
        ensure_room_cases (some (demote cold)) incoming key s c (λ r. Lossless r.1) (λ _. h)
          (λ _ _ _ _. h)
          (λ capacity _.
            tier_induction (some (demote cold)) capacity incoming key Lossless evict-Lossless
              (Dict.keys s.entries) s c h)

    pub hot_put-Lossless :
        (obj : KvPayload) (p : Bool) (s : Cpu) (c : C)
        → Lossless (s, c)
        → Lossless (Cpu.put (some (demote cold)) key obj p (s, c)).1
    hot_put-Lossless obj p s c h =
        put_cases (some (demote cold)) key obj p s c (λ r. Lossless r.1)
          (λ e t made. subst (λ r. Lossless r.1) made ready)
          (λ t made. insert-Lossless obj p t.0 t.1 (subst (λ r. Lossless r.1) made ready))
      where
        ready :
            Lossless (ensure_room (some (demote cold)) (nbytes obj) key (drop_existing key s, c)).1
        ready =
            ensure_room-Lossless (nbytes obj) (drop_existing key s) c (drop_existing-Lossless s c h)

  pub Lossless-start :
      (key : ChunkKey) (t : Cpu × C)
      → map.Fine t.1
      → Lossless key (tier_view t) (map.view t.1 key) t
  Lossless-start key t fine = record { others = λ j ne. refl; beneath = refl; fine = fine }

  abbrev pub hot_put : ChunkKey → KvPayload → Bool → Exec (Cpu × C) (Unit {0})
  hot_put = Cpu.put (some (demote cold))

  module _ (key : ChunkKey) (obj : KvPayload) (p : Bool) where
    abbrev write_through : Exec (Cpu × C) (Unit {0})
    write_through = if p then on_cold (cold.put key obj true) else pure tt

    write_through_others :
        (r : Result (Unit {0})) (t : Cpu × C) (j : ChunkKey)
        → j ≢ key
        → map.Fine t.1
        → tier_view (continue r (λ _. write_through) t).1 j ≡ tier_view t j
    write_through_others (err e) t j ne fine = refl
    write_through_others (ok _) t j ne fine = elim (Bool-cases p) [
      | inl e ↦ rw e (ground (arith, map.view-put key obj true t.1 j fine))
      | inr e ↦ rw e
    ]

    write_through_key :
        (r : Result (Unit {0})) (t : Cpu × C)
        → Dict.get dec t.0.entries key ≡ some obj
        → tier_view (continue r (λ _. write_through) t).1 key ≡ some obj
    write_through_key (err e) t h = rw h
    write_through_key (ok _) t h = elim (Bool-cases p) [ inl e ↦ rw (e, h) | inr e ↦ rw (e, h) ]

    hot_returned :
        (r : Result (Unit {0})) (t : Cpu × C)
        → (continue r (λ _. write_through) t).0 ≡ ok tt
        → r ≡ ok tt
    hot_returned (ok _) t e = refl
    hot_returned (err x) t e = absurd (ground arith)

    -- Over a cold tier that is a map, whose `put` never raises in the state that it is in, such as
    -- a `CPUBackend` without a capacity: a `put`, whether it returns or raises, loses nothing that
    -- is stored under another key, since what the hot tier evicts is found in the cold one. When it
    -- returns, its object is found.
    pub put-tier_view :
        (t : Cpu × C)
        → map.Fine t.1
        → ((j : ChunkKey)
            → j ≢ key
            → tier_view ((over_cpu cold).put key obj p t).1 j ≡ tier_view t j)
          × (((over_cpu cold).put key obj p t).0 ≡ ok tt
              → tier_view ((over_cpu cold).put key obj p t).1 key ≡ some obj)
    unfolding over_cpu put cpu_hot Cpu.backend
    put-tier_view t fine =
        let kept =
          hot_put-Lossless key (tier_view t) (map.view t.1 key) obj p t.0 t.1
            (Lossless-start key t fine) in
        (
          λ j ne.
              write_through_others (hot_put key obj p t).0 (hot_put key obj p t).1 j ne kept.fine
              ∙ kept.others j ne,
          λ returned.
              write_through_key (hot_put key obj p t).0 (hot_put key obj p t).1
                (put_returns (some (demote cold)) key obj p t.0 t.1
                  (hot_returned (hot_put key obj p t).0 (hot_put key obj p t).1 returned)).0,
        )
