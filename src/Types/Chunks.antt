-- ===== src/Types/Chunks.antt =====
-- `chunk_token_ids` cuts the tokens into consecutive runs.
use native.Mathlib.Nat.{suc-mul, zero-mul}
use mathlib.Core.List.{flatten}
use llmcache.Prelude.{
  ℕ, zero, suc, ◌+◌, ◌-◌, ◌*◌, ◌/◌, ◌≤◌, ◌<◌, ◌≡◌, refl, ap, ap₂, ◌∙◌, sym, List, [], ◌∷◌, ◌++◌,
  map, length, take, drop, range_from, arith, length-drop, length-take, take-append-drop, take-add,
  take_of_take-add, drop_of_take-add, drop-drop, inl, inr, dec_lt, Bool-cases, ◌==◌,
}
use llmcache.Int.{ℤ}
use llmcache.Results.{ok}
use llmcache.Types.{slice, chunk_token_ids}

-- The first `m` runs of `n` tokens.
unfoldable pub cut {ℓ} : {A : Type ℓ} → ℕ → ℕ → List A → List (List A)
cut zero n xs = []
cut (suc m) n xs = take n xs ∷ cut m n (drop n xs)

module _ {ℓ} {A : Type ℓ} where
  pub slices-cut :
      (n j m : ℕ) (xs : List A)
      → map (λ i. slice xs i (i + n)) (map (λ k. k * n) (range_from j m))
        ≡ cut m n (drop (j * n) xs)
  unfolding cut
  slices-cut n j zero xs = refl
  slices-cut n j (suc m) xs = ap₂ ◌∷◌ (ap (λ k. take k (drop (j * n) xs)) (omega arith)) (
      slices-cut n (suc j) m xs
      ∙ ap (cut m n) (ap (λ k. drop k xs) (suc-mul j n) ∙ sym (drop-drop (j * n) n xs)))

  -- All runs but the last are full, and the last is not empty.
  abbrev pub IsChunked : ℕ → List (List A) → Type 0
  IsChunked n [] = Unit
  IsChunked n (c ∷ []) = (0 < length c) × (length c ≤ n)
  IsChunked n (c ∷ c' ∷ cs) = (length c ≡ n) × IsChunked n (c' ∷ cs)

  pub flatten-cut : (m n : ℕ) (xs : List A) → length xs ≤ m * n → flatten (cut m n xs) ≡ xs
  unfolding cut flatten
  flatten-cut zero n [] h = refl
  flatten-cut zero n (x ∷ xs) h = absurd (omega arith)
  flatten-cut (suc m) n xs h =
      ap (◌++◌ (take n xs)) (flatten-cut m n (drop n xs) (omega (arith, length-drop n xs)))
      ∙ take-append-drop n xs

  cut-IsChunked :
      (m n : ℕ) (xs : List A) → length xs ≤ m * n → m * n < length xs + n → IsChunked n (cut m n xs)
  unfolding cut
  cut-IsChunked zero n xs h k = tt
  cut-IsChunked (suc zero) n xs h k =
      (omega (arith, length-take n xs), omega (arith, length-take n xs))
  cut-IsChunked (suc (suc m)) n xs h k = (
    omega (arith, length-take n xs),
    cut-IsChunked (suc m) n (drop n xs) (omega (arith, length-drop n xs))
        (omega (arith, length-drop n xs)),
  )

  pub length-cut : (m n : ℕ) (xs : List A) → length (cut m n xs) ≡ m
  unfolding cut
  length-cut zero n xs = refl
  length-cut (suc m) n xs = ap suc (length-cut m n (drop n xs))

abbrev pub num_chunks_for : ℕ → ℕ → ℕ
num_chunks_for len n = (len + n - 1) / n

pub chunk_token_ids-cut :
    (tokens : List ℤ) (n : ℕ)
    → 0 < n
    → chunk_token_ids tokens n ≡ ok (cut (num_chunks_for (length tokens) n) n tokens)
unfolding chunk_token_ids
chunk_token_ids-cut tokens n h = elim (Bool-cases (n == 0)) [
  | inl e ↦ absurd (ground arith)
  | inr e ↦
      rw e
        (ap ok (slices-cut n 0 count tokens ∙ ap (λ k. cut count n (drop k tokens)) (zero-mul n)))
]
  where
    count : ℕ
    count = num_chunks_for (length tokens) n

pub enough_chunks : (len n : ℕ) → 0 < n → len ≤ num_chunks_for len n * n
enough_chunks len n h = omega arith

pub no_chunk_more : (len n : ℕ) → 0 < n → num_chunks_for len n * n < len + n
no_chunk_more len n h = omega arith

-- Chunking a run of tokens by a positive size never fails; the chunks put together are the tokens,
-- there are `ceil(len / size)` of them, and all are full but the last, which is not empty.
pub chunk_token_ids-IsChunked :
    (tokens : List ℤ) (n : ℕ)
    → 0 < n
    → (chunks : List (List ℤ)) × (chunk_token_ids tokens n ≡ ok chunks)
      × (flatten chunks ≡ tokens)
      × (length chunks ≡ num_chunks_for (length tokens) n)
      × IsChunked n chunks
chunk_token_ids-IsChunked tokens n h = (
  cut count n tokens,
  chunk_token_ids-cut tokens n h,
  flatten-cut count n tokens (enough_chunks (length tokens) n h),
  length-cut count n tokens,
  cut-IsChunked count n tokens (enough_chunks (length tokens) n h)
      (no_chunk_more (length tokens) n h),
)
  where
    count : ℕ
    count = num_chunks_for (length tokens) n

-- Runs whose first `k` chunks are the same agree on their first `k * n` tokens.
pub take-cut :
    (k n l m : ℕ) (xs ys : List ℤ)
    → k ≤ l
    → k ≤ m
    → take k (cut l n xs) ≡ take k (cut m n ys)
    → take (k * n) xs ≡ take (k * n) ys
unfolding cut
take-cut zero n l m xs ys p q h = rw zero-mul
take-cut (suc k) n zero m xs ys p q h = absurd (omega arith)
take-cut (suc k) n (suc l) zero xs ys p q h = absurd (omega arith)
take-cut (suc k) n (suc l) (suc m) xs ys p q h =
    rw (e, take-add, take-add) (ground (arith, take-cut k n l m (drop n xs) (drop n ys)))
  where
    e : suc k * n ≡ n + k * n
    e = omega arith

-- The first `k` chunks of a run are those of its first `k * n` tokens.
cut-take : (k n l : ℕ) (xs : List ℤ) → k ≤ l → take k (cut l n xs) ≡ cut k n (take (k * n) xs)
unfolding cut
cut-take zero n l xs h = refl
cut-take (suc k) n zero xs h = absurd (omega arith)
cut-take (suc k) n (suc l) xs h =
    rw (e, take_of_take-add, drop_of_take-add)
      (ap (◌∷◌ (take n xs)) (cut-take k n l (drop n xs) (omega arith)))
  where
    e : suc k * n ≡ n + k * n
    e = omega arith

pub mul_mono : (a b n : ℕ) → a ≤ b → a * n ≤ b * n
mul_mono a b n h = grind arith

-- Fewer tokens need no more chunks.
pub num_chunks_for_mono : (a b n : ℕ) → 0 < n → a ≤ b → num_chunks_for a n ≤ num_chunks_for b n
num_chunks_for_mono a b n pos le = grind (
  arith,
  enough_chunks b n pos,
  no_chunk_more a n pos,
  mul_mono (suc (num_chunks_for b n)) (num_chunks_for a n) n,
)

-- A run longer than `k` chunks has more than `k` of them.
more_chunks : (k n len : ℕ) → 0 < n → k * n < len → k < num_chunks_for len n
more_chunks k n len h lt = elim (dec_lt k (num_chunks_for len n)) [
  | yes p ↦ p
  | no p ↦
      absurd
        (omega (arith, enough_chunks len n h, mul_mono (num_chunks_for len n) k n (omega arith)))
]

chunk_start_lt : (k n len : ℕ) → 0 < n → k < num_chunks_for len n → k * n < len
chunk_start_lt k n len h lt =
    omega (arith, no_chunk_more len n h, mul_mono (suc k) (num_chunks_for len n) n lt)

-- Runs that agree on their first `k + 1` chunks' worth of tokens have the same first chunks.
pub cut_of_take :
    (k n : ℕ) (xs ys : List ℤ)
    → 0 < n
    → k < num_chunks_for (length ys) n
    → take (suc k * n) xs ≡ take (suc k * n) ys
    → take (suc k) (cut (num_chunks_for (length xs) n) n xs)
      ≡ take (suc k) (cut (num_chunks_for (length ys) n) n ys)
cut_of_take k n xs ys pos lt h =
    cut-take (suc k) n _ xs (more_chunks k n (length xs) pos longer)
    ∙ ap (cut (suc k) n) h
    ∙ sym (cut-take (suc k) n _ ys lt)
  where
    longer : k * n < length xs
    longer = omega (
      arith,
      chunk_start_lt k n (length ys) pos lt,
      ap length h,
      length-take (suc k * n) xs,
      length-take (suc k * n) ys,
    )
