-- ===== src/Store/Cpu/Loop.antt =====
-- The loop of `_ensure_room`, one round at a time, and what every round keeps.
use llmcache.Prelude.{
  ℕ, ◌+◌, ◌≤◌, ◌<◌, ◌≡◌, ◌≢◌, refl, Bool, true, false, Option, none, some, ◌⊎◌, inl, inr, List, [],
  ◌∷◌, ltb, leb, arith, if_pos, if_neg, Bool-cases, Option-cases, subst, sym, ap, ◌∙◌,
  if◌then◌else◌, is_nil, ◌&&◌,
}
use llmcache.Results.{Error, Result, ok, err, storage_full, key_error}
use llmcache.Exec.{Exec, modify, continue, ◌>>◌}
use llmcache.Types.{ChunkKey, ChunkKey_discrete}
use llmcache.Payload.{KvPayload, nbytes}
use llmcache.Dict
use llmcache.Sets
use llmcache.Store.Cpu.{Cpu, evict, notify, evict_loop, ensure_room, drop_existing, insert, put}

-- The entry under `key` may be evicted for the sake of `protect`, and it is `victim`.
pub record IsVictim (protect : ChunkKey) (s : Cpu) (key : ChunkKey) (victim : KvPayload)
    : Type 0 where
  pub present : Dict.get ChunkKey_discrete s.entries key ≡ some victim
  pub not_pinned : Sets.has ChunkKey_discrete s.pinned key ≡ false
  pub not_protected : key ≢ protect

module _ {C : Type 0} (on_evict : Option (ChunkKey → KvPayload → Exec C (Unit {0}))) where
  -- The colder tier, once it was told of an eviction.
  unfoldable pub told : ChunkKey → KvPayload → C → C
  told key v c = elim on_evict [ none ↦ c | some callback ↦ (callback key v c).1 ]

module _ {C : Type 0} (P : Cpu × C → Type 0) (rest : Exec (Cpu × C) (Unit {0})) (s : Cpu) where
  after_callback :
      (r : Result (Unit {0})) (c : C)
      → P (s, c)
      → P (rest (s, c)).1
      → P (continue r (λ _. rest) (s, c)).1
  after_callback (ok _) c h next = next
  after_callback (err e) c h next = h

  -- The callback changes only the colder tier; what comes next runs if it did not raise.
  after_notify :
      (on_evict : Option (ChunkKey → KvPayload → Exec C (Unit {0}))) (key : ChunkKey)
      (v : KvPayload) (c : C)
      → P (s, told on_evict key v c)
      → P (rest (s, told on_evict key v c)).1
      → P ((notify on_evict key v >> rest) (s, c)).1
  unfolding notify told
  after_notify none key v c h next = next
  after_notify (some callback) key v c h next =
      after_callback (callback key v c).0 (callback key v c).1 h next

module _ {C : Type 0} (P : Cpu × C → Type 0) (rest : Exec (Cpu × C) (Unit {0})) (s : Cpu) where
  ok_after_callback :
      (r : Result (Unit {0})) (c : C)
      → ((c' : C) → (rest (s, c')).0 ≡ ok tt → P (rest (s, c')).1)
      → (continue r (λ _. rest) (s, c)).0 ≡ ok tt
      → P (continue r (λ _. rest) (s, c)).1
  ok_after_callback (ok _) c next h = next c h
  ok_after_callback (err e) c next h = absurd (ground arith)

  -- The same, where the whole returned.
  ok_after_notify :
      (on_evict : Option (ChunkKey → KvPayload → Exec C (Unit {0}))) (key : ChunkKey)
      (v : KvPayload) (c : C)
      → ((c' : C) → (rest (s, c')).0 ≡ ok tt → P (rest (s, c')).1)
      → ((notify on_evict key v >> rest) (s, c)).0 ≡ ok tt
      → P ((notify on_evict key v >> rest) (s, c)).1
  unfolding notify
  ok_after_notify none key v c next h = next c h
  ok_after_notify (some callback) key v c next h =
      ok_after_callback (callback key v c).0 (callback key v c).1 next h

module _ {C : Type 0} (on_evict : Option (ChunkKey → KvPayload → Exec C (Unit {0})))
    (capacity incoming : ℕ) (protect : ChunkKey) where
  abbrev loop : List ChunkKey → Exec (Cpu × C) (Unit {0})
  loop = evict_loop on_evict capacity incoming protect

  -- What one round does: stop, pass the key over, fail, or evict.
  abbrev Round : Cpu → C → ChunkKey → List ChunkKey → Type 0
  Round s c key keys =
      ((s.used + incoming ≤ capacity) × (loop (key ∷ keys) (s, c) ≡ (ok tt, (s, c))))
      ⊎ ((loop (key ∷ keys) (s, c) ≡ loop keys (s, c))
          ⊎ ((loop (key ∷ keys) (s, c) ≡ (err key_error, (s, c)))
              ⊎ ((victim : KvPayload) × IsVictim protect s key victim
                  × (loop (key ∷ keys) (s, c)
                      ≡ (notify on_evict key victim >> loop keys) (evict key victim s, c)))))

  round : (s : Cpu) (c : C) (key : ChunkKey) (keys : List ChunkKey) → Round s c key keys
  unfolding evict_loop
  round s c key keys = elim (Bool-cases (leb (s.used + incoming) capacity)) [
    | inl stop ↦ inl (ground arith, rw stop)
    | inr go ↦ rw go (elim (ChunkKey_discrete key protect) [
      | yes p ↦ inr (inl (rw (if_pos _ p)))
      | no p ↦ rw (if_neg _ p) (elim (Bool-cases (Sets.has ChunkKey_discrete s.pinned key)) [
        | inl e ↦ inr (inl (rw e))
        | inr e ↦ rw e (elim (Option-cases (Dict.get ChunkKey_discrete s.entries key)) [
          | inl n ↦ inr (inr (inl (rw n)))
          | inr (v, f) ↦
              inr (inr (inr (v, record { present = f; not_pinned = e; not_protected = p }, rw f)))
        ])
      ])
    ])
  ]

  module _ (s : Cpu) (c : C) (key : ChunkKey) (keys : List ChunkKey) where
    pub loop_stop :
        leb (s.used + incoming) capacity ≡ true → loop (key ∷ keys) (s, c) ≡ (ok tt, (s, c))
    unfolding evict_loop
    loop_stop e = rw e

    module _ (full : leb (s.used + incoming) capacity ≡ false) (ne : key ≢ protect) where
      pub loop_skip :
          Sets.has ChunkKey_discrete s.pinned key ≡ true
          → loop (key ∷ keys) (s, c) ≡ loop keys (s, c)
      unfolding evict_loop
      loop_skip e = rw full (rw (if_neg _ ne) (rw e))

      pub loop-evict :
          (v : KvPayload)
          → Sets.has ChunkKey_discrete s.pinned key ≡ false
          → Dict.get ChunkKey_discrete s.entries key ≡ some v
          → loop (key ∷ keys) (s, c) ≡ (notify on_evict key v >> loop keys) (evict key v s, c)
      unfolding evict_loop
      loop-evict v e f = rw full (rw (if_neg _ ne) (rw e (rw f)))

  -- What evicting any victim keeps, the loop keeps, however it ends.
  pub tier_induction :
      (P : Cpu × C → Type 0)
      → ((s : Cpu) (c : C) (key : ChunkKey) (v : KvPayload)
          → IsVictim protect s key v
          → P (s, c)
          → P (evict key v s, told on_evict key v c))
      → (keys : List ChunkKey) (s : Cpu) (c : C) → P (s, c)
      → P (loop keys (s, c)).1
  unfolding evict_loop
  tier_induction P step [] s c h = ground arith
  tier_induction P step (key ∷ keys) s c h = elim (round s c key keys) [
    | inl (_, e) ↦ subst (λ r. P r.1) (sym e) h
    | inr (inl e) ↦ subst (λ r. P r.1) (sym e) (tier_induction P step keys s c h)
    | inr (inr (inl e)) ↦ subst (λ r. P r.1) (sym e) h
    | inr (inr (inr (v, iv, e))) ↦
        subst (λ r. P r.1) (sym e)
          (after_notify P (loop keys) (evict key v s) on_evict key v c (step s c key v iv h) (
            tier_induction P step keys (evict key v s) (told on_evict key v c)
              (step s c key v iv h)))
  ]

  pub evict_loop_induction :
      (P : Cpu → Type 0)
      → ((s : Cpu) (key : ChunkKey) (v : KvPayload)
          → IsVictim protect s key v
          → P s
          → P (evict key v s))
      → (keys : List ChunkKey) (s : Cpu) (c : C) → P s
      → P (loop keys (s, c)).1.0
  evict_loop_induction P step = tier_induction (λ t. P t.0) (λ s c. step s)

  -- When the loop returns, the incoming object fits.
  pub evict_loop_room :
      (keys : List ChunkKey) (s : Cpu) (c : C)
      → (loop keys (s, c)).0 ≡ ok tt
      → (loop keys (s, c)).1.0.used + incoming ≤ capacity
  unfolding evict_loop
  evict_loop_room [] s c h = ground arith
  evict_loop_room (key ∷ keys) s c h = elim (round s c key keys) [
    | inl (fits, e) ↦ subst (λ r. r.1.0.used + incoming ≤ capacity) (sym e) fits
    | inr (inl e) ↦
        subst (λ r. r.1.0.used + incoming ≤ capacity) (sym e)
          (evict_loop_room keys s c (sym (ap (λ r. r.0) e) ∙ h))
    | inr (inr (inl e)) ↦ absurd (ground arith)
    | inr (inr (inr (v, iv, e))) ↦
        subst (λ r. r.1.0.used + incoming ≤ capacity) (sym e)
          (ok_after_notify (λ r. r.0.used + incoming ≤ capacity) (loop keys) (evict key v s)
            on_evict key v c (λ c' h'. evict_loop_room keys (evict key v s) c' h')
            (sym (ap (λ r. r.0) e) ∙ h))
  ]

module _ {C : Type 0} (on_evict : Option (ChunkKey → KvPayload → Exec C (Unit {0}))) (incoming : ℕ)
    (key : ChunkKey) (s : Cpu) (c : C) where
  -- The three ways through `_ensure_room`.
  pub ensure_room_cases :
      (Q : Result (Unit {0}) × (Cpu × C) → Type 0)
      → (s.capacity_bytes ≡ none → Q (ok tt, (s, c)))
      → ((capacity : ℕ)
          → s.capacity_bytes ≡ some capacity
          → capacity < incoming
          → s.pinned ≡ []
          → Q (err storage_full, (s, c)))
      → ((capacity : ℕ)
          → s.capacity_bytes ≡ some capacity
          → Q (evict_loop on_evict capacity incoming key (Dict.keys s.entries) (s, c)))
      → Q (ensure_room on_evict incoming key (s, c))
  unfolding ensure_room
  ensure_room_cases Q unbounded too_big walk = elim (Option-cases s.capacity_bytes) [
    | inl n ↦ rw (n, ensure_room) (unbounded n)
    | inr (capacity, e) ↦ rw (e, ensure_room) (test capacity e s.pinned refl)
  ]
    where
      test :
          (capacity : ℕ)
          → s.capacity_bytes ≡ some capacity
          → (p : List ChunkKey) → s.pinned ≡ p
          → Q (
              if ltb capacity incoming && is_nil p
              then (err storage_full, (s, c))
              else evict_loop on_evict capacity incoming key (Dict.keys s.entries) (s, c))
      test capacity e [] ep = elim (Bool-cases (ltb capacity incoming)) [
        | inl big ↦ rw big (too_big capacity e (ground arith) ep)
        | inr small ↦ rw small (walk capacity e)
      ]
      test capacity e (k ∷ ks) ep = elim (Bool-cases (ltb capacity incoming)) [
        | inl big ↦ rw big (walk capacity e)
        | inr small ↦ rw small (walk capacity e)
      ]

module _ {C : Type 0} (on_evict : Option (ChunkKey → KvPayload → Exec C (Unit {0})))
    (key : ChunkKey) (obj : KvPayload) (pin : Bool) (s : Cpu) (c : C) where
  -- `put` is its `_ensure_room`, and then the insertion if that returned.
  pub put_cases :
      (Q : Result (Unit {0}) × (Cpu × C) → Type 0)
      → ((e : Error) (t : Cpu × C)
          → ensure_room on_evict (nbytes obj) key (drop_existing key s, c) ≡ (err e, t)
          → Q (err e, t))
      → ((t : Cpu × C)
          → ensure_room on_evict (nbytes obj) key (drop_existing key s, c) ≡ (ok tt, t)
          → Q (ok tt, (insert key obj pin t.0, t.1)))
      → Q (put on_evict key obj pin (s, c))
  unfolding put
  put_cases Q failed done =
      split (ensure_room on_evict (nbytes obj) key (drop_existing key s, c)) refl
    where
      split :
          (r : Result (Unit {0}) × (Cpu × C))
          → ensure_room on_evict (nbytes obj) key (drop_existing key s, c) ≡ r
          → Q (continue r.0 (λ _. modify (λ (s, c). (insert key obj pin s, c))) r.1)
      split (ok _, t) e = done t e
      split (err x, t) e = failed x t e
