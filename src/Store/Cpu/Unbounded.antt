-- ===== src/Store/Cpu/Unbounded.antt =====
-- A `CPUBackend` without a capacity of src/llmcache/store/cpu.py is a map: nothing raises, and
-- nothing is evicted.
use llmcache.Prelude.{ℕ, ◌≡◌, refl, ap, ◌∙◌, Bool, Option, none, some, arith, ite, Option-cases}
use llmcache.Results.{ok}
use llmcache.Exec.{Exec, continue, modify}
use llmcache.Types.{ChunkKey, ChunkKey_discrete}
use llmcache.Payload.{KvPayload, nbytes}
use llmcache.Dict
use llmcache.Dict.{get-remove, get-put, get-move_to_end}
use llmcache.Store.Contract.{IsMap}
use llmcache.Store.Cpu.{Cpu, drop_existing, insert, ensure_room, put, get, backend}
use llmcache.Store.Cpu.Loop.{ensure_room_cases}
use llmcache.Store.Cpu.Pinning.{get-entry}

drop_existing-capacity :
    (key : ChunkKey) (s : Cpu) → (drop_existing key s).capacity_bytes ≡ s.capacity_bytes
unfolding drop_existing
drop_existing-capacity key s =
    ground (arith, Option-cases (Dict.get ChunkKey_discrete s.entries key))

insert_dropped :
    (key : ChunkKey) (obj : KvPayload) (p : Bool) (s : Cpu) (j : ChunkKey)
    → Dict.get ChunkKey_discrete (insert key obj p (drop_existing key s)).entries j
      ≡ ite (ChunkKey_discrete key j) (some obj) (Dict.get ChunkKey_discrete s.entries j)
unfolding insert drop_existing
insert_dropped key obj p s j = ground (
  arith,
  get-move_to_end ChunkKey_discrete
      (Dict.put ChunkKey_discrete (drop_existing key s).entries key obj) key j,
  get-put ChunkKey_discrete (drop_existing key s).entries key j obj,
  get-remove ChunkKey_discrete s.entries key j,
  Option-cases (Dict.get ChunkKey_discrete s.entries key),
)

module _ {C : Type 0} (on_evict : Option (ChunkKey → KvPayload → Exec C (Unit {0}))) where
  room_unbounded :
      (incoming : ℕ) (key : ChunkKey) (s : Cpu) (c : C)
      → s.capacity_bytes ≡ none
      → ensure_room on_evict incoming key (s, c) ≡ (ok tt, (s, c))
  room_unbounded incoming key s c h =
      ensure_room_cases on_evict incoming key s c (λ r. r ≡ (ok tt, (s, c))) (λ _. refl)
        (λ capacity e _ _. absurd (ground arith)) λ capacity e. absurd (ground arith)

  put_unbounded :
      (key : ChunkKey) (obj : KvPayload) (p : Bool) (s : Cpu) (c : C)
      → s.capacity_bytes ≡ none
      → put on_evict key obj p (s, c) ≡ (ok tt, (insert key obj p (drop_existing key s), c))
  unfolding put
  put_unbounded key obj p s c h =
      ap (λ r. continue r.0 (λ _. modify (λ (s, c). (insert key obj p s, c))) r.1)
        (room_unbounded (nbytes obj) key (drop_existing key s) c (drop_existing-capacity key s ∙ h))

  get-capacity :
      (key : ChunkKey) (s : Cpu) (c : C)
      → (get on_evict key (s, c)).1.0.capacity_bytes ≡ s.capacity_bytes
  unfolding get
  get-capacity key s c = ground (arith, Option-cases (Dict.get ChunkKey_discrete s.entries key))

  pub unbounded-IsMap : IsMap (backend on_evict)
  unfolding backend insert
  unbounded-IsMap = record {
    Fine = λ t. t.0.capacity_bytes ≡ none;
    view = λ t j. Dict.get ChunkKey_discrete t.0.entries j;
    put_returns = λ k o p t h. ap (λ r. r.0) (put_unbounded k o p t.0 t.1 h);
    put-Fine = λ k o p t h.
        ap (λ r. r.1.0.capacity_bytes) (put_unbounded k o p t.0 t.1 h)
        ∙ drop_existing-capacity k t.0
        ∙ h;
    view-put = λ k o p t j h.
        ap (λ r. Dict.get ChunkKey_discrete r.1.0.entries j) (put_unbounded k o p t.0 t.1 h)
        ∙ insert_dropped k o p t.0 j;
    get_returns = λ k t h. (get-entry on_evict k t.0 t.1).0;
    get-Fine = λ k t h. get-capacity k t.0 t.1 ∙ h;
    view-get = λ k t j h. (get-entry on_evict k t.0 t.1).1 j;
  }

  pub capacity-Fine : (t : Cpu × C) → t.0.capacity_bytes ≡ none → unbounded-IsMap.Fine t
  unfolding unbounded-IsMap
  capacity-Fine t h = h
