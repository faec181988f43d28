-- ===== src/Store/Cpu/Bytes.antt =====
-- The bytes that a dictionary of payloads holds, as its entries come and go.
use llmcache.Prelude.{ℕ, ◌+◌, ◌≡◌, inl, inr, [], ◌∷◌, ◌++◌, arith, refl, Option-cases}
use llmcache.Types.{ChunkKey, ChunkKey_discrete}
use llmcache.Payload.{KvPayload, nbytes}
use llmcache.Dict
use llmcache.Dict.{Dict, remove_absent}
use llmcache.Store.Cpu.{size_of}

abbrev pub dec : Discrete ChunkKey
dec = ChunkKey_discrete

-- The bytes of all entries.
unfoldable pub total : Dict ChunkKey KvPayload → ℕ
total [] = 0
total ((k, v) ∷ d) = nbytes v + total d

pub total-remove :
    (d : Dict ChunkKey KvPayload) (k : ChunkKey)
    → Dict.Distinct dec d
    → total (Dict.remove dec d k) + size_of (Dict.get dec d k) ≡ total d
unfolding total Dict.remove Dict.get
total-remove [] k h = omega arith
total-remove ((j, v) ∷ d) k h = ground (arith, total-remove d k h.1, remove_absent dec d j)

pub total-append : (d e : Dict ChunkKey KvPayload) → total (d ++ e) ≡ total d + total e
unfolding total
total-append [] e = omega arith
total-append ((j, v) ∷ d) e = omega (arith, total-append d e)

pub total_one : (k : ChunkKey) (v : KvPayload) → total ((k, v) ∷ []) ≡ nbytes v
unfolding total
total_one k v = omega arith

pub total-move_to_end :
    (d : Dict ChunkKey KvPayload) (k : ChunkKey)
    → Dict.Distinct dec d
    → total (Dict.move_to_end dec d k) ≡ total d
unfolding Dict.move_to_end
total-move_to_end d k h = elim (Option-cases (Dict.get dec d k)) [
  | inl n ↦ rw (n, Dict.move_to_end)
  | inr (v, e) ↦
      rw (e, Dict.move_to_end)
        (ground (
          arith,
          total-append (Dict.remove dec d k) ((k, v) ∷ []),
          total_one k v,
          total-remove d k h,
        ))
]

pub total_cons :
    (k : ChunkKey) (v : KvPayload) (d : Dict ChunkKey KvPayload)
    → total ((k, v) ∷ d) ≡ nbytes v + total d
unfolding total
total_cons k v d = refl
