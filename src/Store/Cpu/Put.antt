-- ===== src/Store/Cpu/Put.antt =====
-- What a `put` into the hot tier does with a capacity and a callback that does not raise.
use llmcache.Prelude.{
  ℕ, ◌+◌, ◌≡◌, refl, Bool, true, false, some, inl, inr, [], ◌∷◌, ◌++◌, arith, Option-cases, ltb,
  leb, ap, ◌∙◌, if◌then◌else◌,
}
use llmcache.Results.{Result, ok, err, storage_full}
use llmcache.Exec.{Exec, continue, modify}
use llmcache.Types.{ChunkKey, ChunkKey_discrete}
use llmcache.Payload.{KvPayload, nbytes}
use llmcache.Dict
use llmcache.Dict.{Dict, get-remove, remove_absent}
use llmcache.Sets
use llmcache.Store.Cpu.{Cpu, drop_existing, insert, ensure_room, evict_loop, put}
use llmcache.Store.Cpu.Bytes.{dec, total, total-remove}
use llmcache.Store.Cpu.Spill.{spill, pinned_total, spill_room, spill-absent}
use llmcache.Store.Cpu.Loop.{ensure_room_cases}
use llmcache.Store.Cpu.Eviction.{notify_all, IsQuiet, loop-spill}
use llmcache.Store.Cpu.Invariant.{IsValid}

abbrev others : ChunkKey → Cpu → Dict ChunkKey KvPayload
others key s = Dict.remove dec s.entries key

-- The state once an old object under the key is gone.
abbrev without_old : ChunkKey → Cpu → Cpu
without_old key s = record s { entries = others key s; used = total (others key s) }

drop_existing-without_old :
    (key : ChunkKey) (s : Cpu) → IsValid s → drop_existing key s ≡ without_old key s
unfolding drop_existing
drop_existing-without_old key s h = elim (Option-cases (Dict.get dec s.entries key)) [
  | inl n ↦ rw (n, drop_existing) (ground (arith, remove_absent dec s.entries key n, h.counted))
  | inr (v, e) ↦
      rw (e, drop_existing) (ground (arith, total-remove s.entries key h.distinct, h.counted))
]

module _ {C : Type 0} (callback : ChunkKey → KvPayload → Exec C (Unit {0}))
    (quiet : IsQuiet callback) (key : ChunkKey) (obj : KvPayload) (pin : Bool) (s : Cpu) (c : C)
    (capacity : ℕ) (limited : s.capacity_bytes ≡ some capacity) (valid : IsValid s) where
  abbrev spilled : Dict ChunkKey KvPayload × Dict ChunkKey KvPayload
  spilled = spill capacity (nbytes obj) s.pinned 0 (others key s)

  -- The object fits beside what is pinned.
  abbrev has_room : Bool
  has_room = leb (pinned_total s.pinned (others key s) + nbytes obj) capacity

  abbrev made_room : Cpu
  made_room = record s { entries = spilled.0; used = total spilled.0 }

  loop_outcome :
      evict_loop
        (some callback)
        capacity
        (nbytes obj)
        key
        (Dict.keys (others key s))
        (without_old key s, c)
      ≡ (
        if ltb capacity (total spilled.0 + nbytes obj) then err storage_full else ok tt,
        (made_room, notify_all callback spilled.1 c),
      )
  loop_outcome =
      unfold total in
      loop-spill callback quiet capacity (nbytes obj) key (others key s) [] (without_old key s) c
        (record {
          entries = refl;
          distinct = Dict.remove-Distinct dec s.entries key valid.distinct;
          counted = omega arith;
          absent = ground (arith, get-remove dec s.entries key key);
        })
      ∙ ground arith

  -- With room the whole of `_ensure_room` is the loop; without, it raises one way or the other.
  room-leb : leb (total spilled.0 + nbytes obj) capacity ≡ has_room
  room-leb = ground (arith, spill_room capacity (nbytes obj) s.pinned 0 (others key s))

  ensured :
      has_room ≡ true
      → ensure_room (some callback) (nbytes obj) key (without_old key s, c)
        ≡ (ok tt, (made_room, notify_all callback spilled.1 c))
  ensured room =
      ensure_room_cases (some callback) (nbytes obj) key (without_old key s) c
        (λ r. r ≡ (ok tt, (made_room, notify_all callback spilled.1 c)))
        (λ n. absurd (ground (arith, limited)))
        (λ cap e big none_pinned. absurd (ground (arith, limited)))
        (λ cap e.
          let same : cap ≡ capacity = ground (arith, limited) in
          rw same (loop_outcome ∙ ground (arith, room-leb)))

  refused :
      has_room ≡ false
      → (ensure_room (some callback) (nbytes obj) key (without_old key s, c)).0 ≡ err storage_full
  refused room =
      ensure_room_cases (some callback) (nbytes obj) key (without_old key s) c
        (λ r. r.0 ≡ err storage_full) (λ n. absurd (ground (arith, limited)))
        (λ cap e big none_pinned. refl)
        (λ cap e.
          let same : cap ≡ capacity = ground (arith, limited) in
          rw same (ap (λ r. r.0) loop_outcome ∙ ground (arith, room-leb)))

  -- The state after a `put` that succeeds.
  abbrev stored : Cpu
  stored = record s {
    entries = spilled.0 ++ (key, obj) ∷ [];
    used = total spilled.0 + nbytes obj;
    pinned = if pin then Sets.add ChunkKey_discrete s.pinned key else s.pinned;
  }

  insert-stored : insert key obj pin made_room ≡ stored
  unfolding insert
  insert-stored =
      ap
        (λ d. record s {
          entries = d;
          used = total spilled.0 + nbytes obj;
          pinned = if pin then Sets.add ChunkKey_discrete s.pinned key else s.pinned;
        })
        (Dict.move_to_end-put_absent dec spilled.0 key obj (
          spill-absent capacity (nbytes obj) s.pinned 0 (others key s) key
            (ground (arith, get-remove dec s.entries key key))))

  -- On a valid store with a capacity, and a callback that does not raise, `put` succeeds exactly
  -- when the object fits beside the pinned objects under other keys. Then the object is the most
  -- recently used, what was spilled to make room is what the specification says, and the callback
  -- has been called on it, oldest first. Otherwise `put` raises `StorageFullError`.
  pub put-lru :
      (has_room ≡ true
        → put (some callback) key obj pin (s, c)
          ≡ (ok tt, (stored, notify_all callback spilled.1 c)))
      × (has_room ≡ false → (put (some callback) key obj pin (s, c)).0 ≡ err storage_full)
  unfolding put
  put-lru = (
    λ room.
        ap (λ t. continue (ensure t).0 (λ _. inserting) (ensure t).1) dropped
        ∙ ap (λ r. continue r.0 (λ _. inserting) r.1) (ensured room)
        ∙ ap (λ t. (ok tt, (t, notify_all callback spilled.1 c))) insert-stored,
    λ room.
        ap (λ t. (continue (ensure t).0 (λ _. inserting) (ensure t).1).0) dropped
        ∙ failing (ensure (without_old key s)) (refused room),
  )
    where
      dropped : drop_existing key s ≡ without_old key s
      dropped = drop_existing-without_old key s valid

      ensure : Cpu → Result (Unit {0}) × (Cpu × C)
      ensure t = ensure_room (some callback) (nbytes obj) key (t, c)

      inserting : Exec (Cpu × C) (Unit {0})
      inserting = modify (λ (t, c). (insert key obj pin t, c))

      failing :
          (r : Result (Unit {0}) × (Cpu × C))
          → r.0 ≡ err storage_full
          → (continue r.0 (λ _. inserting) r.1).0 ≡ err storage_full
      failing (r, t) e = rw e
