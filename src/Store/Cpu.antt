-- ===== src/Store/Cpu.antt =====
-- src/llmcache/store/cpu.py: the hot tier. Entries stand in order of use, the oldest first. The
-- callback `on_evict` works on a state `C` of its own, the colder tier's; byte counts are numbers,
-- and the invariant shows that no subtraction falls below 0.
pub mod Bytes
pub mod Spill
pub mod Loop
pub mod Invariant
pub mod Eviction
pub mod Put
pub mod Pinning
pub mod History
pub mod Unbounded
use llmcache.Prelude.{
  ℕ, ◌+◌, ◌-◌, Bool, true, false, ◌&&◌, ◌||◌, not, Option, none, some, List, [], ◌∷◌, length,
  is_nil, ltb, leb, if◌then◌else◌, ite,
}
use llmcache.Results.{ok, err, storage_full, key_error}
use llmcache.Exec.{Exec, pure, raise, gets, modify, ◌>>=◌, ◌>>◌}
use llmcache.Types.{ChunkKey, ChunkKey_discrete}
use llmcache.Payload.{KvPayload, nbytes}
use llmcache.Dict
use llmcache.Dict.{Dict}
use llmcache.Sets
use llmcache.Store.{StoreStats, StorageBackend}

pub record Cpu : Type 0 where
  pub capacity_bytes : Option ℕ
  pub entries : Dict ChunkKey KvPayload
  pub pinned : List ChunkKey
  pub used : ℕ

pub init : Option ℕ → Cpu
init capacity_bytes = record {
  capacity_bytes = capacity_bytes;
  entries = [];
  pinned = [];
  used = 0;
}

-- `sum(self._data[k].nbytes for k in self._pinned if k in self._data)`
abbrev size_of : Option KvPayload → ℕ
size_of none = 0
size_of (some obj) = nbytes obj

unfoldable pub pinned_bytes : Dict ChunkKey KvPayload → List ChunkKey → ℕ
pinned_bytes entries [] = 0
pinned_bytes entries (k ∷ ks) =
    size_of (Dict.get ChunkKey_discrete entries k) + pinned_bytes entries ks

-- `put`, before it makes room: an object under the same key is dropped.
unfoldable pub drop_existing : ChunkKey → Cpu → Cpu
drop_existing key s = elim (Dict.get ChunkKey_discrete s.entries key) [
  | none ↦ s
  | some old ↦ record s {
    entries = Dict.remove ChunkKey_discrete s.entries key;
    used = s.used - nbytes old;
  }
]

-- `put`, after it has made room.
unfoldable pub insert : ChunkKey → KvPayload → Bool → Cpu → Cpu
insert key obj pin s = record s {
  entries = Dict.move_to_end ChunkKey_discrete (Dict.put ChunkKey_discrete s.entries key obj) key;
  used = s.used + nbytes obj;
  pinned = if pin then Sets.add ChunkKey_discrete s.pinned key else s.pinned;
}

unfoldable pub evict : ChunkKey → KvPayload → Cpu → Cpu
evict key victim s = record s {
  entries = Dict.remove ChunkKey_discrete s.entries key;
  used = s.used - nbytes victim;
}

module _ {C : Type 0} (on_evict : Option (ChunkKey → KvPayload → Exec C (Unit {0}))) where
  -- `if self.on_evict is not None: self.on_evict(key, victim)`
  unfoldable pub notify : ChunkKey → KvPayload → Exec (Cpu × C) (Unit {0})
  notify key victim (s, c) = elim on_evict [
    | none ↦ (ok tt, (s, c))
    | some callback ↦ let (r, c') = callback key victim c in (r, (s, c'))
  ]

  -- The loop of `_ensure_room` over a list of the keys, and the test behind it.
  unfoldable pub evict_loop : ℕ → ℕ → ChunkKey → List ChunkKey → Exec (Cpu × C) (Unit {0})
  evict_loop capacity incoming protect [] (s, c) =
      if ltb capacity (s.used + incoming) then (err storage_full, (s, c)) else (ok tt, (s, c))
  evict_loop capacity incoming protect (key ∷ keys) (s, c) =
      let rest = evict_loop capacity incoming protect keys in
      if leb (s.used + incoming) capacity
      then (ok tt, (s, c))
      else ite (ChunkKey_discrete key protect) (rest (s, c)) (
          if Sets.has ChunkKey_discrete s.pinned key
          then rest (s, c)
          else elim (Dict.get ChunkKey_discrete s.entries key) [
            | none ↦ (err key_error, (s, c))
            | some victim ↦ (notify key victim >> rest) (evict key victim s, c)
          ])

  unfoldable pub ensure_room : ℕ → ChunkKey → Exec (Cpu × C) (Unit {0})
  ensure_room incoming protect (s, c) = elim s.capacity_bytes [
    | none ↦ (ok tt, (s, c))
    | some capacity ↦
        if ltb capacity incoming && is_nil s.pinned
        then (err storage_full, (s, c))
        else evict_loop capacity incoming protect (Dict.keys s.entries) (s, c)
  ]

  unfoldable pub put : ChunkKey → KvPayload → Bool → Exec (Cpu × C) (Unit {0})
  put key obj pin = do
    modify (λ (s, c). (drop_existing key s, c))
    ensure_room (nbytes obj) key
    modify (λ (s, c). (insert key obj pin s, c))

  unfoldable pub get : ChunkKey → Exec (Cpu × C) (Option KvPayload)
  get key (s, c) = elim (Dict.get ChunkKey_discrete s.entries key) [
    | none ↦ (ok none, (s, c))
    | some obj ↦ (
      ok (some obj),
      (record s { entries = Dict.move_to_end ChunkKey_discrete s.entries key }, c),
    )
  ]

  unfoldable pub contains : ChunkKey → Exec (Cpu × C) Bool
  contains key (s, c) = (
    ok (elim (Dict.get ChunkKey_discrete s.entries key) [ none ↦ false | some _ ↦ true ]),
    (s, c),
  )

  unfoldable pub remove : ChunkKey → Exec (Cpu × C) Bool
  remove key (s, c) = elim (Dict.get ChunkKey_discrete s.entries key) [
    | none ↦ (ok false, (s, c))
    | some obj ↦ (
      ok true,
      (
        record s {
          entries = Dict.remove ChunkKey_discrete s.entries key;
          used = s.used - nbytes obj;
          pinned = Sets.discard ChunkKey_discrete s.pinned key;
        },
        c,
      ),
    )
  ]

  unfoldable pub pin : ChunkKey → Exec (Cpu × C) (Unit {0})
  pin key (s, c) = elim (Dict.get ChunkKey_discrete s.entries key) [
    | none ↦ (ok tt, (s, c))
    | some _ ↦ (ok tt, (record s { pinned = Sets.add ChunkKey_discrete s.pinned key }, c))
  ]

  unfoldable pub unpin : ChunkKey → Exec (Cpu × C) (Unit {0})
  unpin key (s, c) = (ok tt, (record s { pinned = Sets.discard ChunkKey_discrete s.pinned key }, c))

  unfoldable pub keys : Exec (Cpu × C) (List ChunkKey)
  keys (s, c) = (ok (Dict.keys s.entries), (s, c))

  unfoldable pub stats : Exec (Cpu × C) StoreStats
  unfolding pinned_bytes
  stats (s, c) = (
    ok (record {
      num_objects = length s.entries;
      used_bytes = s.used;
      capacity_bytes = s.capacity_bytes;
      pinned_objects = length s.pinned;
      pinned_bytes = pinned_bytes s.entries s.pinned;
    }),
    (s, c),
  )

  -- `CPUBackend`, as the engine sees it.
  unfoldable pub backend : StorageBackend (Cpu × C)
  backend = record {
    put = put;
    get = get;
    contains = contains;
    remove = remove;
    pin = pin;
    unpin = unpin;
    keys = keys;
    stats = stats;
  }
