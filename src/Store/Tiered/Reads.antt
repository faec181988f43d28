-- ===== src/Store/Tiered/Reads.antt =====
-- A `get` of the tiered store loses nothing and answers as the readers would.
use llmcache.Prelude.{
  ◌≡◌, refl, false, Option, none, some, arith, ap, ◌∙◌, sym, subst, inl, inr, Option-cases,
}
use llmcache.Results.{Result, ok, err}
use llmcache.Exec.{continue, pure}
use llmcache.Types.{ChunkKey, ChunkKey_discrete}
use llmcache.Payload.{KvPayload}
use llmcache.Dict
use llmcache.Dict.{get-remove, get-put, get-move_to_end}
use llmcache.Store.{StorageBackend}
use llmcache.Store.Contract.{IsMap}
use llmcache.Store.Cpu
use llmcache.Store.Cpu.{Cpu, evict, drop_existing, insert, ensure_room}
use llmcache.Store.Cpu.Pinning.{put_returns, put_raises}
use llmcache.Store.Tiered.{get, fall_through, promote, demote, cpu_hot, over_cpu}
use llmcache.Store.Tiered.NoLoss.{
  dec, or_else, tier_view, hot_put, Lossless, hot_put-Lossless, Lossless-start,
}

module _ {C : Type 0} (cold : StorageBackend C) (map : IsMap cold) where
  -- After a promotion, whether it returned or raised, the readers find what they found.
  promote-tier_view :
      (key : ChunkKey) (obj : KvPayload) (t : Cpu × C)
      → Dict.get dec t.0.entries key ≡ none
      → map.view t.1 key ≡ some obj
      → map.Fine t.1
      → (j : ChunkKey)
      → tier_view cold map (hot_put cold map key obj false t).1 j ≡ tier_view cold map t j
  promote-tier_view key obj t miss found fine j = elim (ChunkKey_discrete j key) [
    | no ne ↦ lossless.others j ne
    | yes e ↦ rw e (at_key (hot_put cold map key obj false t).0 refl)
  ]
    where
      lossless :
          Lossless cold map key
            (tier_view cold map t)
            (map.view t.1 key)
            (hot_put cold map key obj false t).1
      lossless =
          hot_put-Lossless cold map key (tier_view cold map t) (map.view t.1 key) obj false t.0 t.1
            (Lossless-start cold map key t fine)

      at_key :
          (r : Result (Unit {0}))
          → (hot_put cold map key obj false t).0 ≡ r
          → tier_view cold map (hot_put cold map key obj false t).1 key ≡ tier_view cold map t key
      at_key (ok _) e = ground (arith, (put_returns (some (demote cold)) key obj false t.0 t.1 e).0)
      at_key (err x) e =
          ground
            (arith, (put_raises (some (demote cold)) key obj false t.0 t.1 x e).0, lossless.beneath)

  -- A read is faithful: readers find afterwards what they found before, and it returned that.
  abbrev pub Reads : ChunkKey → Cpu × C → Result (Option KvPayload) × (Cpu × C) → Type 0
  Reads key t r =
      ((j : ChunkKey) → tier_view cold map r.1 j ≡ tier_view cold map t j)
      × ((found : Option KvPayload) → r.0 ≡ ok found → found ≡ tier_view cold map t key)

  after_promotion :
      (key : ChunkKey) (obj : KvPayload) (t u : Cpu × C)
      → tier_view cold map t key ≡ some obj
      → ((j : ChunkKey) → tier_view cold map u j ≡ tier_view cold map t j)
      → (r : Result (Unit {0})) → Reads key t (continue r (λ _. pure (some obj)) u)
  after_promotion key obj t u e same (ok _) = (same, λ found f. ground arith)
  after_promotion key obj t u e same (err x) = (same, λ found f. absurd (ground arith))

  below-Reads :
      (key : ChunkKey) (s : Cpu) (c d : C) (found : Option KvPayload)
      → Dict.get dec s.entries key ≡ none
      → map.view c key ≡ found
      → ((j : ChunkKey) → map.view d j ≡ map.view c j)
      → map.Fine d
      → Reads key (s, c) (promote (cpu_hot cold) cold key found (s, d))
  unfolding promote cpu_hot Cpu.backend
  below-Reads key s c d none miss f same fine =
      (λ j. ap (or_else (Dict.get dec s.entries j)) (same j), λ found e. ground arith)
  below-Reads key s c d (some obj) miss f same fine =
      after_promotion key obj (s, c) (hot_put cold map key obj false (s, d)).1 (rw miss f)
        (λ j.
          promote-tier_view key obj (s, d) miss (same key ∙ f) fine j
          ∙ ap (or_else (Dict.get dec s.entries j)) (same j))
        (hot_put cold map key obj false (s, d)).0

  module _ (key : ChunkKey) (s : Cpu) (c : C) where
    get_miss :
        Dict.get dec s.entries key ≡ none
        → (over_cpu cold).get key (s, c)
          ≡ continue (cold.get key c).0 (promote (cpu_hot cold) cold key) (s, (cold.get key c).1)
    unfolding over_cpu get fall_through cpu_hot Cpu.backend Cpu.get
    get_miss miss = rw (miss, Cpu.get)

    get_hit :
        (o : KvPayload)
        → Dict.get dec s.entries key ≡ some o
        → (over_cpu cold).get key (s, c)
          ≡ (ok (some o), (record s { entries = Dict.move_to_end dec s.entries key }, c))
    unfolding over_cpu get fall_through cpu_hot Cpu.backend Cpu.get
    get_hit o hit = rw (hit, Cpu.get)

  -- Over a cold tier that is a map, whose `put` and `get` never raise in the state that it is in,
  -- such as a `CPUBackend` without a capacity: a `get` returns what the readers find under its key,
  -- if it returns (the promotion of a cold object raises when the hot tier is full of pinned ones),
  -- and changes nothing that they find under any key, also when it raises.
  pub get-tier_view :
      (key : ChunkKey) (t : Cpu × C) → map.Fine t.1 → Reads key t ((over_cpu cold).get key t)
  get-tier_view key (s, c) fine = elim (Option-cases (Dict.get dec s.entries key)) [
    | inl miss ↦
        subst (Reads key (s, c))
          (ap (λ r. continue r (promote (cpu_hot cold) cold key) (s, (cold.get key c).1))
              (sym (map.get_returns key c fine))
            ∙ sym (get_miss key s c miss))
          (below-Reads key s c (cold.get key c).1 (map.view c key) miss refl
            (λ j. map.view-get key c j fine) (map.get-Fine key c fine))
    | inr (o, hit) ↦ subst (Reads key (s, c)) (sym (get_hit key s c o hit)) (
      λ j. ap (λ x. or_else x (map.view c j)) (get-move_to_end dec s.entries key j),
      λ found e. ground arith,
    )
  ]
