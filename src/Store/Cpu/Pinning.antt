-- ===== src/Store/Cpu/Pinning.antt =====
-- What the hot tier guarantees with any callback, also one that raises: pinned objects stay, a
-- stored object is found, and a `put` that raises has lost the object that it was to replace.
use llmcache.Prelude.{
  ℕ, ◌≡◌, ◌≢◌, refl, Bool, true, Option, none, some, inl, inr, arith, Option-cases, subst, ◌∙◌,
}
use llmcache.Results.{Error, ok, err}
use llmcache.Exec.{Exec}
use llmcache.Types.{ChunkKey}
use llmcache.Payload.{KvPayload, nbytes}
use llmcache.Dict
use llmcache.Dict.{Dict, get-remove, get-put, get-move_to_end}
use llmcache.Sets
use llmcache.Sets.{has-add, has-discard}
use llmcache.Store.Cpu.{
  Cpu, evict, drop_existing, insert, ensure_room, put, get, remove, pin, unpin,
}
use llmcache.Store.Cpu.Bytes.{dec}
use llmcache.Store.Cpu.Loop.{IsVictim, evict_loop_induction, ensure_room_cases, put_cases}

-- The object is resident and pinned under the key.
pub record Holds (s : Cpu) (j : ChunkKey) (o : KvPayload) : Type 0 where
  pub resident : Dict.get dec s.entries j ≡ some o
  pub is_pinned : Sets.has dec s.pinned j ≡ true

evict-Holds :
    (protect : ChunkKey) (j : ChunkKey) (o : KvPayload) (s : Cpu) (k : ChunkKey) (v : KvPayload)
    → IsVictim protect s k v
    → Holds s j o
    → Holds (evict k v s) j o
unfolding evict
evict-Holds protect j o s k v iv h = ground (arith, get-remove dec s.entries k j)

drop_existing-Holds :
    (key j : ChunkKey) (o : KvPayload) (s : Cpu)
    → j ≢ key
    → Holds s j o
    → Holds (drop_existing key s) j o
unfolding drop_existing
drop_existing-Holds key j o s ne h = ground (arith, get-remove dec s.entries key j)

insert-Holds :
    (key j : ChunkKey) (obj o : KvPayload) (p : Bool) (s : Cpu)
    → j ≢ key
    → Holds s j o
    → Holds (insert key obj p s) j o
unfolding insert
insert-Holds key j obj o p s ne h = ground (
  arith,
  get-move_to_end dec (Dict.put dec s.entries key obj) key j,
  get-put dec s.entries key j obj,
  has-add dec s.pinned key j,
)

insert-resident :
    (key : ChunkKey) (obj : KvPayload) (p : Bool) (s : Cpu)
    → Dict.get dec (insert key obj p s).entries key ≡ some obj
unfolding insert
insert-resident key obj p s = ground (
  arith,
  get-move_to_end dec (Dict.put dec s.entries key obj) key key,
  get-put dec s.entries key key obj,
)

insert-pinned :
    (key : ChunkKey) (obj : KvPayload) (s : Cpu)
    → Sets.has dec (insert key obj true s).pinned key ≡ true
unfolding insert
insert-pinned key obj s = ground (arith, has-add dec s.pinned key key)

module _ {C : Type 0} (on_evict : Option (ChunkKey → KvPayload → Exec C (Unit {0}))) where
  -- What holds before `_ensure_room` and is kept by every eviction holds after it.
  ensure_room_induction :
      (P : Cpu → Type 0) (incoming : ℕ) (key : ChunkKey) (s : Cpu) (c : C)
      → ((s : Cpu) (k : ChunkKey) (v : KvPayload) → IsVictim key s k v → P s → P (evict k v s))
      → P s
      → P (ensure_room on_evict incoming key (s, c)).1.0
  ensure_room_induction P incoming key s c step h =
      ensure_room_cases on_evict incoming key s c (λ r. P r.1.0) (λ _. h) (λ _ _ _ _. h)
        (λ capacity _.
          evict_loop_induction on_evict capacity incoming key P step (Dict.keys s.entries) s c h)

  module _ (key : ChunkKey) (obj : KvPayload) (p : Bool) (s : Cpu) (c : C) where
    -- A pinned object under another key stays, whether `put` returns or raises.
    pub put-Holds :
        (j : ChunkKey) (o : KvPayload)
        → j ≢ key
        → Holds s j o
        → Holds (put on_evict key obj p (s, c)).1.0 j o
    put-Holds j o ne h =
        put_cases on_evict key obj p s c (λ r. Holds r.1.0 j o)
          (λ e t made. subst (λ r. Holds r.1.0 j o) made kept)
          (λ t made. insert-Holds key j obj o p t.0 ne (subst (λ r. Holds r.1.0 j o) made kept))
      where
        kept : Holds (ensure_room on_evict (nbytes obj) key (drop_existing key s, c)).1.0 j o
        kept =
            ensure_room_induction (λ t. Holds t j o) (nbytes obj) key (drop_existing key s) c
              (evict-Holds key j o) (drop_existing-Holds key j o s ne h)

    -- After a `put` that returns, the object is resident, and pinned if that was asked.
    pub put_returns :
        (put on_evict key obj p (s, c)).0 ≡ ok tt
        → (Dict.get dec (put on_evict key obj p (s, c)).1.0.entries key ≡ some obj)
          × (p ≡ true → Holds (put on_evict key obj p (s, c)).1.0 key obj)
    put_returns =
        put_cases on_evict key obj p s c
          (λ r.
            r.0 ≡ ok tt
            → (Dict.get dec r.1.0.entries key ≡ some obj) × (p ≡ true → Holds r.1.0 key obj))
          (λ e t made returned. absurd (ground arith))
          (λ t made returned. (
            insert-resident key obj p t.0,
            λ is_true. record {
              resident = insert-resident key obj p t.0;
              is_pinned = rw is_true (insert-pinned key obj t.0);
            },
          ))

    -- After a `put` that raises nothing is stored under its key, not even what was there before,
    -- and the key is pinned exactly if it was: a pin can be left with no object.
    pub put_raises :
        (e : Error)
        → (put on_evict key obj p (s, c)).0 ≡ err e
        → (Dict.get dec (put on_evict key obj p (s, c)).1.0.entries key ≡ none)
          × ((put on_evict key obj p (s, c)).1.0.pinned ≡ s.pinned)
    put_raises e =
        put_cases on_evict key obj p s c
          (λ r. r.0 ≡ err e → (Dict.get dec r.1.0.entries key ≡ none) × (r.1.0.pinned ≡ s.pinned))
          (λ e' t made raised. subst (λ r. Lost r.1.0) made lost)
          (λ t made raised. absurd (ground arith))
      where
        Lost : Cpu → Type 0
        Lost t = (Dict.get dec t.entries key ≡ none) × (t.pinned ≡ s.pinned)

        lost : Lost (ensure_room on_evict (nbytes obj) key (drop_existing key s, c)).1.0
        lost =
            ensure_room_induction Lost (nbytes obj) key (drop_existing key s) c
              (λ t k v iv h. unfold evict in ground (arith, get-remove dec t.entries k key))
              (unfold drop_existing in ground (arith, get-remove dec s.entries key key))

  module _ (key : ChunkKey) (s : Cpu) (c : C) (j : ChunkKey) (o : KvPayload) (h : Holds s j o) where
    pub get-Holds : Holds (get on_evict key (s, c)).1.0 j o
    unfolding get
    get-Holds = elim (Option-cases (Dict.get dec s.entries key)) [
      | inl n ↦ rw (n, get) h
      | inr (v, e) ↦
          rw (e, get)
            (record {
              resident = get-move_to_end dec s.entries key j ∙ h.resident;
              is_pinned = h.is_pinned;
            })
    ]

    pub remove-Holds : j ≢ key → Holds (remove on_evict key (s, c)).1.0 j o
    unfolding remove
    remove-Holds ne = ground (arith, get-remove dec s.entries key j, has-discard dec s.pinned key j)

    pub pin-Holds : Holds (pin on_evict key (s, c)).1.0 j o
    unfolding pin
    pin-Holds = ground (arith, has-add dec s.pinned key j)

    pub unpin-Holds : j ≢ key → Holds (unpin on_evict key (s, c)).1.0 j o
    unfolding unpin
    unpin-Holds ne = ground (arith, has-discard dec s.pinned key j)

  -- A read returns what is stored, and changes only the order of use.
  pub get-entry :
      (key : ChunkKey) (s : Cpu) (c : C)
      → ((get on_evict key (s, c)).0 ≡ ok (Dict.get dec s.entries key))
        × ((j : ChunkKey)
            → Dict.get dec (get on_evict key (s, c)).1.0.entries j ≡ Dict.get dec s.entries j)
  unfolding get
  get-entry key s c = elim (Option-cases (Dict.get dec s.entries key)) [
    | inl n ↦ rw (n, get) (refl, λ j. refl)
    | inr (v, e) ↦ rw (e, get) (refl, λ j. get-move_to_end dec s.entries key j)
  ]
