-- ===== src/Connectors/Transfer/Loaded.antt =====
-- The bytes of whole chunks in the blocks of a buffer, after a load.
use native.Mathlib.Nat.{zero-mul}
use mathlib.Core.List.{flatten}
use llmcache.Prelude.{
  ℕ, zero, suc, ◌*◌, ◌≡◌, ◌<◌, ◌≤◌, refl, ap, ap₂, sym, ◌∙◌, subst, List, [], ◌∷◌, map, length,
  take, drop, ℕ_discrete, arith, length-drop,
}
use llmcache.Types.Chunks.{cut}
use llmcache.Payload.{KvPayload}
use llmcache.Sets.{IsSetLike}
use llmcache.Connectors.Transfer.{Layout, Buffer, write_chunks}
use llmcache.Connectors.Transfer.Blocks.{read}
use llmcache.Connectors.Transfer.Pages.{labelled, write_chunks-read}

-- The bytes that the blocks of each of the first `n` chunks hold.
abbrev pub chunk_bytes : Buffer → ℕ → ℕ → List ℕ → List (List ℕ)
chunk_bytes buffer n bpc ids = map (λ r. flatten (read buffer r)) (cut n bpc ids)

take-cuts : (k m n : ℕ) (xs : List ℕ) → k ≤ m → take k (cut m n xs) ≡ cut k n xs
unfolding cut
take-cuts zero m n xs le = refl
take-cuts (suc k) zero n xs le = absurd (omega arith)
take-cuts (suc k) (suc m) n xs le = ap (◌∷◌ (take n xs)) (take-cuts k m n (drop n xs) (omega arith))

take-map : {A B : Type 0} (f : A → B) (k : ℕ) (xs : List A) → take k (map f xs) ≡ map f (take k xs)
take-map f zero xs = refl
take-map f (suc k) [] = refl
take-map f (suc k) (x ∷ xs) = ap (◌∷◌ (f x)) (take-map f k xs)

bytes-labelled :
    (l : Layout) (xs : List (List ℕ)) → map (λ (p : KvPayload). p.bytes) (map (labelled l) xs) ≡ xs
bytes-labelled l [] = refl
bytes-labelled l (x ∷ xs) = ap (◌∷◌ x) (bytes-labelled l xs)

-- Of the payloads of `m` chunks, the first `n` have the bytes of the first `n` chunks.
pub bytes_of_take :
    (l : Layout) (buffer : Buffer) (n m bpc : ℕ) (ids : List ℕ)
    → n ≤ m
    → map (λ (p : KvPayload). p.bytes) (take n (map (labelled l) (chunk_bytes buffer m bpc ids)))
      ≡ chunk_bytes buffer n bpc ids
bytes_of_take l buffer n m bpc ids le =
    ap (map (λ (p : KvPayload). p.bytes)) (take-map (labelled l) n (chunk_bytes buffer m bpc ids))
    ∙ bytes-labelled l (take n (chunk_bytes buffer m bpc ids))
    ∙ take-map (λ r. flatten (read buffer r)) n (cut m bpc ids)
    ∙ ap (map (λ r. flatten (read buffer r))) (take-cuts n m bpc ids le)

-- Loading `n` payloads leaves their bytes in the blocks.
pub loaded_bytes :
    (bpc : ℕ) (ids : List ℕ) (ps : List KvPayload) (buffer : Buffer) (n : ℕ)
    → 0 < bpc
    → length ps ≡ n
    → IsSetLike ℕ_discrete ids
    → n * bpc ≤ length ids
    → chunk_bytes (write_chunks bpc ids 0 ps buffer) n bpc ids ≡ map (λ (p : KvPayload). p.bytes) ps
loaded_bytes bpc ids ps buffer n pos count distinct fits =
    ap₂ (λ k r. chunk_bytes (write_chunks bpc ids 0 ps buffer) k bpc r) (sym count)
      (ap (λ k. drop k ids) (sym (zero-mul bpc)))
    ∙ write_chunks-read bpc ids pos 0 ps buffer
        (subst (λ k. IsSetLike ℕ_discrete (drop k ids)) (sym (zero-mul bpc)) distinct)
        (rw count (omega (arith, length-drop (0 * bpc) ids, fits)))
