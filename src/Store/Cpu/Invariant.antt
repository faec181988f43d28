-- ===== src/Store/Cpu/Invariant.antt =====
-- Every operation of the hot tier keeps its byte count exact, its keys distinct, and its entries
-- within the capacity.
use llmcache.Prelude.{
  ℕ, ◌+◌, ◌≤◌, ◌≡◌, refl, Bool, Option, none, some, inl, inr, [], ◌∷◌, ◌++◌, arith, Option-cases,
  subst, sym, ap, ◌∙◌,
}
use llmcache.Results.{Result, ok}
use llmcache.Exec.{Exec}
use llmcache.Types.{ChunkKey}
use llmcache.Payload.{KvPayload, nbytes}
use llmcache.Dict
use llmcache.Dict.{Dict, get-remove, remove_absent}
use llmcache.Store.Cpu.{
  Cpu, init, drop_existing, insert, evict, ensure_room, put, get, remove, pin, unpin,
}
use llmcache.Store.Cpu.Bytes.{dec, total, total-remove, total-append, total_one, total-move_to_end}
use llmcache.Store.Cpu.Loop.{
  IsVictim, evict_loop_induction, evict_loop_room, ensure_room_cases, put_cases,
}

pub record IsValid (s : Cpu) : Type 0 where
  pub distinct : Dict.Distinct dec s.entries
  pub counted : s.used ≡ total s.entries
  pub fits : (capacity : ℕ) → s.capacity_bytes ≡ some capacity → s.used ≤ capacity

evict-IsValid :
    (protect : ChunkKey) (s : Cpu) (key : ChunkKey) (v : KvPayload)
    → IsVictim protect s key v
    → IsValid s
    → IsValid (evict key v s)
unfolding evict
evict-IsValid protect s key v iv h = record {
  distinct = Dict.remove-Distinct dec s.entries key h.distinct;
  counted = ground (arith, total-remove s.entries key h.distinct, iv.present, h.counted);
  fits = λ capacity e. omega (arith, h.fits capacity e);
}

-- The state between the removal of an old object under `key` and the insertion of the new one.
record IsReady (key : ChunkKey) (capacity_bytes : Option ℕ) (s : Cpu) : Type 0 where
  valid : IsValid s
  absent : Dict.get dec s.entries key ≡ none
  same_capacity : s.capacity_bytes ≡ capacity_bytes

evict-IsReady :
    (key : ChunkKey) (cap : Option ℕ) (s : Cpu) (k : ChunkKey) (v : KvPayload)
    → IsVictim key s k v
    → IsReady key cap s
    → IsReady key cap (evict k v s)
unfolding evict
evict-IsReady key cap s k v iv h = record {
  valid = unfold evict in evict-IsValid key s k v iv h.valid;
  absent = ground (arith, get-remove dec s.entries k key, h.absent);
  same_capacity = h.same_capacity;
}

drop_existing-IsReady :
    (key : ChunkKey) (s : Cpu) → IsValid s → IsReady key s.capacity_bytes (drop_existing key s)
unfolding drop_existing
drop_existing-IsReady key s h = elim (Option-cases (Dict.get dec s.entries key)) [
  | inl n ↦ rw (n, drop_existing) (record { valid = h; absent = n; same_capacity = refl })
  | inr (v, e) ↦
      rw (e, drop_existing)
        (record {
          valid = record {
            distinct = Dict.remove-Distinct dec s.entries key h.distinct;
            counted = ground (arith, total-remove s.entries key h.distinct, h.counted);
            fits = λ capacity c. omega (arith, h.fits capacity c);
          };
          absent = ground (arith, get-remove dec s.entries key key);
          same_capacity = refl;
        })
]

insert-IsValid :
    (key : ChunkKey) (obj : KvPayload) (pin : Bool) (cap : Option ℕ) (s : Cpu)
    → IsReady key cap s
    → ((capacity : ℕ) → cap ≡ some capacity → s.used + nbytes obj ≤ capacity)
    → IsValid (insert key obj pin s)
unfolding insert
insert-IsValid key obj pin cap s h room = record {
  distinct = rw placed (Dict.append-Distinct dec s.entries key obj h.valid.distinct h.absent);
  counted = rw placed (
      ground (arith, h.valid.counted, total-append s.entries ((key, obj) ∷ []), total_one key obj));
  fits = λ capacity e. room capacity (sym h.same_capacity ∙ e);
}
  where
    placed :
        Dict.move_to_end dec (Dict.put dec s.entries key obj) key ≡ s.entries ++ (key, obj) ∷ []
    placed = Dict.move_to_end-put_absent dec s.entries key obj h.absent

module _ {C : Type 0} (on_evict : Option (ChunkKey → KvPayload → Exec C (Unit {0}))) where
  abbrev Made : ℕ → ChunkKey → Option ℕ → Result (Unit {0}) × (Cpu × C) → Type 0
  Made incoming key cap r =
      IsReady key cap r.1.0
      × (r.0 ≡ ok tt → (capacity : ℕ) → cap ≡ some capacity → r.1.0.used + incoming ≤ capacity)

  -- `_ensure_room` keeps the state ready, and when it returns, the object fits.
  ensure_room-Made :
      (incoming : ℕ) (key : ChunkKey) (cap : Option ℕ) (s : Cpu) (c : C)
      → IsReady key cap s
      → Made incoming key cap (ensure_room on_evict incoming key (s, c))
  ensure_room-Made incoming key cap s c h =
      ensure_room_cases on_evict incoming key s c (Made incoming key cap)
        (λ n. (h, λ _ capacity e. absurd (ground (arith, h.same_capacity))))
        (λ capacity e big none_pinned. (h, λ r. absurd (ground arith)))
        (λ capacity e. (
          evict_loop_induction on_evict capacity incoming key (IsReady key cap)
              (evict-IsReady key cap) (Dict.keys s.entries) s c h,
          λ r capacity' e'.
              let same : capacity ≡ capacity' = ground (arith, h.same_capacity) in
              omega
                (arith, evict_loop_room on_evict capacity incoming key (Dict.keys s.entries) s c r),
        ))

  -- `put` keeps the invariant, also when it raises.
  pub put-IsValid :
      (key : ChunkKey) (obj : KvPayload) (pin : Bool) (s : Cpu) (c : C)
      → IsValid s
      → IsValid (put on_evict key obj pin (s, c)).1.0
  put-IsValid key obj pin s c h =
      put_cases on_evict key obj pin s c (λ r. IsValid r.1.0)
        (λ e t made. subst (λ r. IsValid r.1.0) made ready.0.valid)
        (λ t made.
          insert-IsValid key obj pin s.capacity_bytes t.0
            (subst (λ r. IsReady key s.capacity_bytes r.1.0) made ready.0)
            (λ capacity e.
              subst (λ r. r.1.0.used + nbytes obj ≤ capacity) made
                (ready.1 (ap (λ r. r.0) made) capacity e)))
    where
      ready :
          Made
            (nbytes obj)
            key
            s.capacity_bytes
            (ensure_room on_evict (nbytes obj) key (drop_existing key s, c))
      ready =
          ensure_room-Made (nbytes obj) key s.capacity_bytes (drop_existing key s) c
            (drop_existing-IsReady key s h)

  pub get-IsValid :
      (key : ChunkKey) (s : Cpu) (c : C) → IsValid s → IsValid (get on_evict key (s, c)).1.0
  unfolding get
  get-IsValid key s c h = elim (Option-cases (Dict.get dec s.entries key)) [
    | inl n ↦ rw (n, get) h
    | inr (v, e) ↦
        rw (e, get)
          (record {
            distinct = Dict.move_to_end-Distinct dec s.entries key h.distinct;
            counted = ground (arith, h.counted, total-move_to_end s.entries key h.distinct);
            fits = h.fits;
          })
  ]

  pub remove-IsValid :
      (key : ChunkKey) (s : Cpu) (c : C) → IsValid s → IsValid (remove on_evict key (s, c)).1.0
  unfolding remove
  remove-IsValid key s c h = elim (Option-cases (Dict.get dec s.entries key)) [
    | inl n ↦ rw (n, remove) h
    | inr (v, e) ↦
        rw (e, remove)
          (record {
            distinct = Dict.remove-Distinct dec s.entries key h.distinct;
            counted = ground (arith, total-remove s.entries key h.distinct, h.counted);
            fits = λ capacity c. omega (arith, h.fits capacity c);
          })
  ]

  pub pin-IsValid :
      (key : ChunkKey) (s : Cpu) (c : C) → IsValid s → IsValid (pin on_evict key (s, c)).1.0
  unfolding pin
  pin-IsValid key s c h = elim (Option-cases (Dict.get dec s.entries key)) [
    | inl n ↦ rw (n, pin) h
    | inr (v, e) ↦
        rw (e, pin) (record { distinct = h.distinct; counted = h.counted; fits = h.fits })
  ]

  pub unpin-IsValid :
      (key : ChunkKey) (s : Cpu) (c : C) → IsValid s → IsValid (unpin on_evict key (s, c)).1.0
  unfolding unpin
  unpin-IsValid key s c h = record { distinct = h.distinct; counted = h.counted; fits = h.fits }

pub init-IsValid : (capacity_bytes : Option ℕ) → IsValid (init capacity_bytes)
unfolding init total
init-IsValid capacity_bytes = record {
  distinct = tt;
  counted = refl;
  fits = λ capacity e. omega arith;
}
