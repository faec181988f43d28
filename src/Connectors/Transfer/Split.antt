-- ===== src/Connectors/Transfer/Split.antt =====
-- `_split` of src/llmcache/connectors/transfer.py divides a payload and loses nothing of it.
use native.Mathlib.Nat.{zero-mul}
use mathlib.Core.List.{flatten}
use llmcache.Prelude.{
  ℕ, zero, suc, ◌+◌, ◌-◌, ◌*◌, ◌/◌, ◌≡◌, ◌≤◌, ◌<◌, refl, ap, ap₂, sym, ◌∙◌, List, [], ◌∷◌, map,
  length, take, drop, range_from, arith, take_all, drop-drop,
}
use llmcache.Types.Chunks.{cut, flatten-cut, length-cut, enough_chunks, mul_mono}
use llmcache.Types.{slice}
use llmcache.Connectors.Transfer.{pad, split_part_size, split_evenly}

length-pad : (parts : List (List ℕ)) → pad parts (length parts) ≡ parts
unfolding pad
length-pad [] = refl
length-pad (p ∷ parts) = ap (◌∷◌ p) (ap (pad parts) (omega arith) ∙ length-pad parts)

pub run_of_slice :
    (n i : ℕ) (xs : List ℕ) → slice xs (i * n) ((i + 1) * n) ≡ take n (drop (i * n) xs)
run_of_slice n i xs = ap (λ k. take k (drop (i * n) xs)) width
  where
    width : (i + 1) * n - i * n ≡ n
    width = omega arith

-- Consecutive slices of one size.
pub runs-cut :
    (n j m : ℕ) (xs : List ℕ)
    → map (λ i. slice xs (i * n) ((i + 1) * n)) (range_from j m) ≡ cut m n (drop (j * n) xs)
unfolding cut
runs-cut n j zero xs = refl
runs-cut n j (suc m) xs = ap₂ ◌∷◌ (run_of_slice n j xs) (
    runs-cut n (suc j) m xs
    ∙ ap (cut m n) (ap (λ k. drop k xs) next ∙ sym (drop-drop (j * n) n xs)))
  where
    next : suc j * n ≡ j * n + n
    next = omega arith

pad-all : (parts : List (List ℕ)) (n : ℕ) → length parts ≡ n → take n (pad parts n) ≡ parts
pad-all parts n h =
    ap (λ k. take k (pad parts k)) (sym h)
    ∙ ap (take (length parts)) (length-pad parts)
    ∙ take_all (length parts) parts (omega arith)

-- Splitting is cutting, into parts of one size.
split_evenly-cut :
    (bytes : List ℕ) (m : ℕ)
    → split_evenly bytes (suc m) ≡ cut (suc m) (split_part_size (length bytes) (suc m)) bytes
unfolding split_evenly
split_evenly-cut bytes m =
    ap (λ parts. take (suc m) (pad parts (suc m))) (runs-cut size 0 (suc m) bytes ∙ start)
    ∙ pad-all (cut (suc m) size bytes) (suc m) (length-cut (suc m) size bytes)
  where
    size : ℕ
    size = split_part_size (length bytes) (suc m)

    start : cut (suc m) size (drop (0 * size) bytes) ≡ cut (suc m) size bytes
    start = ap (λ k. cut (suc m) size (drop k bytes)) (zero-mul size)

enough_parts : (len m : ℕ) → len ≤ suc m * split_part_size len (suc m)
unfolding split_part_size
enough_parts len m = omega (
  arith,
  enough_chunks len (suc m) (omega arith),
  mul_mono ((len + suc m - 1) / suc m) (split_part_size len (suc m)) (suc m) (omega arith),
)

-- Splitting a payload's bytes over `n` blocks, for a positive `n`, gives `n` parts, which put
-- together are the bytes.
pub split_evenly-flatten :
    (bytes : List ℕ) (n : ℕ)
    → 0 < n
    → (length (split_evenly bytes n) ≡ n) × (flatten (split_evenly bytes n) ≡ bytes)
split_evenly-flatten bytes zero h = absurd (omega arith)
split_evenly-flatten bytes (suc m) h = rw (split_evenly-cut bytes m) (
  length-cut (suc m) (split_part_size (length bytes) (suc m)) bytes,
  flatten-cut (suc m) (split_part_size (length bytes) (suc m)) bytes
      (enough_parts (length bytes) m),
)
