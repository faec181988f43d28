-- ===== src/Store/Cpu/Spill.antt =====
-- What `_ensure_room` is to evict, without a state: the oldest of what is not pinned, and no more
-- than is needed.
use llmcache.Prelude.{
  ℕ, ◌+◌, ◌≤◌, ◌<◌, ◌≡◌, refl, Bool, true, false, none, List, [], ◌∷◌, ◌++◌, arith, leb,
  if◌then◌else◌, Bool-cases, inl, inr,
}
use llmcache.Types.{ChunkKey}
use llmcache.Payload.{KvPayload, nbytes}
use llmcache.Dict
use llmcache.Dict.{Dict}
use llmcache.Sets
use llmcache.Store.Cpu.Bytes.{dec, total}

module _ (pinned : List ChunkKey) where
  -- The bytes that no eviction can free.
  unfoldable pub pinned_total : Dict ChunkKey KvPayload → ℕ
  pinned_total [] = 0
  pinned_total ((k, v) ∷ d) = (if Sets.has dec pinned k then nbytes v else 0) + pinned_total d

  pinned_total-le : (d : Dict ChunkKey KvPayload) → pinned_total d ≤ total d
  unfolding pinned_total total
  pinned_total-le [] = omega arith
  pinned_total-le ((k, v) ∷ d) = ground (arith, pinned_total-le d)

  -- The entries that are pinned, and those that are not.
  unfoldable pub pinned_part : Dict ChunkKey KvPayload → Dict ChunkKey KvPayload
  pinned_part [] = []
  pinned_part ((k, v) ∷ d) =
      let rest = pinned_part d in if Sets.has dec pinned k then (k, v) ∷ rest else rest

  unfoldable pub free_part : Dict ChunkKey KvPayload → Dict ChunkKey KvPayload
  free_part [] = []
  free_part ((k, v) ∷ d) =
      let rest = free_part d in if Sets.has dec pinned k then rest else (k, v) ∷ rest

module _ (capacity incoming : ℕ) (pinned : List ChunkKey) where
  -- The entries that stay and those that go, oldest first, where `base` bytes stay before them.
  unfoldable pub spill :
      ℕ → Dict ChunkKey KvPayload → Dict ChunkKey KvPayload × Dict ChunkKey KvPayload
  unfolding total
  spill base [] = ([], [])
  spill base ((k, v) ∷ d) =
      let pass = spill (base + nbytes v) d in
      let take_out = spill base d in
      if leb (base + total ((k, v) ∷ d) + incoming) capacity
      then ((k, v) ∷ d, [])
      else if Sets.has dec pinned k
      then ((k, v) ∷ pass.0, pass.1)
      else (take_out.0, (k, v) ∷ take_out.1)

  -- There is room after the spill exactly if the pinned entries leave room.
  pub spill_room :
      (base : ℕ) (d : Dict ChunkKey KvPayload)
      → leb (base + total (spill base d).0 + incoming) capacity
        ≡ leb (base + pinned_total pinned d + incoming) capacity
  unfolding spill pinned_total
  spill_room base [] = refl
  spill_room base ((k, v) ∷ d) =
      ground (arith, pinned_total-le pinned d, spill_room (base + nbytes v) d, spill_room base d)

  -- What is not there is not among what stays.
  pub spill-absent :
      (base : ℕ) (d : Dict ChunkKey KvPayload) (j : ChunkKey)
      → Dict.get dec d j ≡ none
      → Dict.get dec (spill base d).0 j ≡ none
  unfolding spill Dict.get
  spill-absent base [] j h = refl
  spill-absent base ((k, v) ∷ d) j h =
      ground (arith, spill-absent (base + nbytes v) d j, spill-absent base d j)

  -- A pinned entry is never spilled.
  pub get-spill_pinned :
      (base : ℕ) (d : Dict ChunkKey KvPayload) (j : ChunkKey)
      → Sets.has dec pinned j ≡ true
      → Dict.get dec (spill base d).0 j ≡ Dict.get dec d j
  unfolding spill Dict.get
  get-spill_pinned base [] j h = refl
  get-spill_pinned base ((k, v) ∷ d) j h =
      ground (arith, get-spill_pinned (base + nbytes v) d j, get-spill_pinned base d j)

  -- The entries split into old and new ones: of the old ones the pinned stay and the others go,
  -- and all of the new ones stay. So the least recently used go first.
  abbrev pub IsOldest :
      Dict ChunkKey KvPayload → Dict ChunkKey KvPayload × Dict ChunkKey KvPayload → Type 0
  IsOldest d r =
      (old : Dict ChunkKey KvPayload) × (new : Dict ChunkKey KvPayload) × (d ≡ old ++ new)
      × (r.0 ≡ pinned_part pinned old ++ new)
      × (r.1 ≡ free_part pinned old)

  pass-IsOldest :
      (k : ChunkKey) (v : KvPayload) (d : Dict ChunkKey KvPayload)
      (r : Dict ChunkKey KvPayload × Dict ChunkKey KvPayload)
      → Sets.has dec pinned k ≡ true
      → IsOldest d r
      → IsOldest ((k, v) ∷ d) ((k, v) ∷ r.0, r.1)
  unfolding pinned_part free_part
  pass-IsOldest k v d r p (old, new, e, f, g) =
      ((k, v) ∷ old, new, ground arith, ground arith, ground arith)

  out-IsOldest :
      (k : ChunkKey) (v : KvPayload) (d : Dict ChunkKey KvPayload)
      (r : Dict ChunkKey KvPayload × Dict ChunkKey KvPayload)
      → Sets.has dec pinned k ≡ false
      → IsOldest d r
      → IsOldest ((k, v) ∷ d) (r.0, (k, v) ∷ r.1)
  unfolding pinned_part free_part
  out-IsOldest k v d r p (old, new, e, f, g) =
      ((k, v) ∷ old, new, ground arith, ground arith, ground arith)

  pub spill-IsOldest : (base : ℕ) (d : Dict ChunkKey KvPayload) → IsOldest d (spill base d)
  unfolding spill pinned_part free_part
  spill-IsOldest base [] = ([], [], refl, refl, refl)
  spill-IsOldest base ((k, v) ∷ d) = elim (Bool-cases fits) [
    | inl stop ↦ rw stop ([], (k, v) ∷ d, refl, refl, refl)
    | inr full ↦ rw full (elim (Bool-cases (Sets.has dec pinned k)) [
      | inl p ↦ rw p (pass-IsOldest k v d _ p (spill-IsOldest (base + nbytes v) d))
      | inr n ↦ rw n (out-IsOldest k v d _ n (spill-IsOldest base d))
    ])
  ]
    where
      fits : Bool
      fits = leb (base + total ((k, v) ∷ d) + incoming) capacity

  total-spill :
      (base : ℕ) (d : Dict ChunkKey KvPayload)
      → total (spill base d).0 + total (spill base d).1 ≡ total d
  unfolding spill total
  total-spill base [] = omega arith
  total-spill base ((k, v) ∷ d) =
      ground (arith, total-spill (base + nbytes v) d, total-spill base d)

  -- Without the last entry that goes, there would have been no room.
  pub spill_needed :
      (base : ℕ) (d : Dict ChunkKey KvPayload) (out : Dict ChunkKey KvPayload) (k : ChunkKey)
      (v : KvPayload)
      → (spill base d).1 ≡ out ++ (k, v) ∷ []
      → capacity < base + total (spill base d).0 + nbytes v + incoming
  unfolding spill total
  spill_needed base [] [] k v h = absurd (ground arith)
  spill_needed base [] (x ∷ out) k v h = absurd (ground arith)
  spill_needed base ((j, w) ∷ d) [] k v h =
      ground (arith, spill_needed (base + nbytes w) d [] k v, total-spill base d)
  spill_needed base ((j, w) ∷ d) (x ∷ out) k v h =
      ground (arith, spill_needed (base + nbytes w) d (x ∷ out) k v, spill_needed base d out k v)
