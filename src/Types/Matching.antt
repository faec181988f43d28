-- ===== src/Types/Matching.antt =====
-- `matched_chunk_count` counts the leading chunks that the request shares with the registered
-- tokens, unless two different byte strings have one digest.
use mathlib.Core.List.{List-discrete}
use llmcache.Prelude.{
  ℕ, suc, ◌+◌, ◌*◌, ◌≤◌, ◌<◌, String, ◌≡◌, ◌≢◌, refl, ap₂, List, [], ◌∷◌, length, take, drop,
  get_elem?, ◌⊎◌, inl, inr, arith, ℕ_discrete, String_discrete, Option-cases, drop_of_get-none,
  drop_of_get-some, ite,
}
use llmcache.Int.{ℤ}
use llmcache.Results.{Result, ok, ◌>>=◌, >>=-eq-ok}
use llmcache.Types.{
  CacheDescriptor, chunk_token_ids, absorb, token_fingerprint, count_matches, matched_chunk_count,
}
use llmcache.Types.Encoding.{fed_inj}
use llmcache.Types.Chunks.{
  cut, num_chunks_for, length-cut, chunk_token_ids-cut, take-cut, cut_of_take,
}

abbrev pub Collision : (List ℕ → String) → Type 0
Collision digest = (a : List ℕ) × (b : List ℕ) × (a ≢ b) × (digest a ≡ digest b)

-- `k` is the number of leading elements that the two lists share, or at most it.
pub record IsCommon (cs ds : List (List ℤ)) (k : ℕ) : Type 0 where
  pub within : k ≤ length ds
  pub available : k ≤ length cs
  pub shared : take k cs ≡ take k ds
  pub maximal : k < length ds → take (suc k) cs ≢ take (suc k) ds

IsCommon-cons :
    (c d : List ℤ) (cs ds : List (List ℤ)) {k : ℕ}
    → c ≡ d
    → IsCommon cs ds k
    → IsCommon (c ∷ cs) (d ∷ ds) (suc k)
IsCommon-cons c d cs ds {k} e h = record {
  within = omega (arith, h.within);
  available = omega (arith, h.available);
  shared = ap₂ ◌∷◌ e h.shared;
  maximal = λ lt same. h.maximal (omega arith) (ground arith);
}

IsCommon-stop : (c d : List ℤ) (cs ds : List (List ℤ)) → c ≢ d → IsCommon (c ∷ cs) (d ∷ ds) 0
IsCommon-stop c d cs ds ne = record {
  within = omega arith;
  available = omega arith;
  shared = refl;
  maximal = λ lt same. ne (ground arith);
}

IsCommon-end : (d : List ℤ) (ds : List (List ℤ)) → IsCommon [] (d ∷ ds) 0
IsCommon-end d ds = record {
  within = omega arith;
  available = omega arith;
  shared = refl;
  maximal = λ lt same. ground arith;
}

IsCommon-nil : (cs : List (List ℤ)) → IsCommon cs [] 0
IsCommon-nil cs = record {
  within = omega arith;
  available = omega arith;
  shared = refl;
  maximal = λ lt same. absurd (omega arith);
}

module _ (digest : List ℕ → String) where
  -- `[token_fingerprint(c) for c in token_chunks]`
  unfoldable pub fingerprints : List (List ℤ) → Result (List String)
  fingerprints [] = ok []
  fingerprints (c ∷ cs) =
      token_fingerprint digest c >>= λ fp. fingerprints cs >>= λ fps. ok (fp ∷ fps)

  fingerprint_inj :
      (c d : List ℤ) {fp : String}
      → token_fingerprint digest c ≡ ok fp
      → token_fingerprint digest d ≡ ok fp
      → (c ≡ d) ⊎ Collision digest
  unfolding token_fingerprint
  fingerprint_inj c d p q =
      let (x, hx, p') = >>=-eq-ok (absorb [] c) _ p in
      let (y, hy, q') = >>=-eq-ok (absorb [] d) _ q in
      elim (List-discrete ℕ_discrete x y) [
        | yes e ↦ inl (fed_inj c d hx (rw e hy))
        | no ne ↦ inr (x, y, ne, ground arith)
      ]

  abbrev Counts : List (List ℤ) → List (List ℤ) → ℕ → ℕ → Type 0
  Counts cs ds matched r = ((k : ℕ) × (r ≡ matched + k) × IsCommon cs ds k) ⊎ Collision digest

  Counts-cons :
      (c d : List ℤ) (cs ds : List (List ℤ)) (matched r : ℕ)
      → (c ≡ d) ⊎ Collision digest
      → Counts cs ds (suc matched) r
      → Counts (c ∷ cs) (d ∷ ds) matched r
  Counts-cons c d cs ds matched r (inr col) _ = inr col
  Counts-cons c d cs ds matched r (inl e) (inr col) = inr col
  Counts-cons c d cs ds matched r (inl e) (inl (k, er, h)) =
      inl (suc k, omega arith, IsCommon-cons c d cs ds e h)

  Counts-stop :
      (c d : List ℤ) (cs ds : List (List ℤ)) (matched r : ℕ)
      → c ≢ d
      → r ≡ matched
      → Counts (c ∷ cs) (d ∷ ds) matched r
  Counts-stop c d cs ds matched r ne e = inl (0, omega arith, IsCommon-stop c d cs ds ne)

  -- One round of the loop: the request has a chunk, and its fingerprint is compared.
  Counts-step :
      (c d : List ℤ) (cs ds : List (List ℤ)) (matched r : ℕ) (fp : String) (rest : Result ℕ)
      → token_fingerprint digest d ≡ ok fp
      → (token_fingerprint digest c >>= λ found. ite (String_discrete found fp) rest (ok matched))
        ≡ ok r
      → (rest ≡ ok r → Counts cs ds (suc matched) r)
      → Counts (c ∷ cs) (d ∷ ds) matched r
  Counts-step c d cs ds matched r fp rest hd e go =
      let (found, hc, e') = >>=-eq-ok (token_fingerprint digest c) _ e in
      elim (String_discrete found fp) [
        | yes p ↦
            Counts-cons c d cs ds matched r (fingerprint_inj c d (rw p at hc) hd)
              (go (ground arith))
        | no ne ↦ Counts-stop c d cs ds matched r (λ same. ne (ground arith)) (ground arith)
      ]

  count_matches-Counts :
      (cs ds : List (List ℤ)) (i matched : ℕ) (fps : List String) {r : ℕ}
      → fingerprints ds ≡ ok fps
      → count_matches digest cs i matched fps ≡ ok r
      → Counts (drop i cs) ds matched r
  unfolding fingerprints count_matches
  count_matches-Counts cs [] i matched [] {r} h e = inl (0, ground arith, IsCommon-nil (drop i cs))
  count_matches-Counts cs [] i matched (fp ∷ fps) h e = absurd (ground arith)
  count_matches-Counts cs (d ∷ ds) i matched [] h e =
      let (fp', hd, h') = >>=-eq-ok (token_fingerprint digest d) _ h in
      let (fps', hds, h'') = >>=-eq-ok (fingerprints ds) _ h' in absurd (ground arith)
  count_matches-Counts cs (d ∷ ds) i matched (fp ∷ fps) {r} h e =
      let (fp', hd, h') = >>=-eq-ok (token_fingerprint digest d) _ h in
      let (fps', hds, h'') = >>=-eq-ok (fingerprints ds) _ h' in
      let hd' : token_fingerprint digest d ≡ ok fp = ground arith in
      let hds' : fingerprints ds ≡ ok fps = ground arith in
      elim (Option-cases (get_elem? cs i)) [
        | inl n ↦ rw (drop_of_get-none cs i n) (inl (0, ground arith, IsCommon-end d ds))
        | inr (c, s) ↦ rw (drop_of_get-some cs i s) (
            Counts-step c d (drop (suc i) cs) ds matched r fp _ hd' (ground arith)
              (count_matches-Counts cs ds (suc i) (suc matched) fps hds'))
      ]

-- `m` chunks of `n` tokens can be reused: the request agrees with the registered tokens that far,
-- and no further chunk does.
pub record IsReusable (n : ℕ) (request tokens : List ℤ) (m : ℕ) : Type 0 where
  pub within : m ≤ num_chunks_for (length tokens) n
  pub agrees : take (m * n) request ≡ take (m * n) tokens
  pub maximal :
      m < num_chunks_for (length tokens) n → take (suc m * n) request ≢ take (suc m * n) tokens

IsReusable-of_IsCommon :
    (n : ℕ) (request tokens : List ℤ) (m : ℕ)
    → 0 < n
    → IsCommon
        (cut (num_chunks_for (length request) n) n request)
        (cut (num_chunks_for (length tokens) n) n tokens)
        m
    → IsReusable n request tokens m
IsReusable-of_IsCommon n request tokens m pos h = record {
  within = omega (arith, h.within, counted);
  agrees =
      take-cut m n _ _ request tokens (omega (arith, h.available, counted_request))
        (omega (arith, h.within, counted)) h.shared;
  maximal =
      λ lt same. h.maximal (omega (arith, counted)) (cut_of_take m n request tokens pos lt same);
}
  where
    counted :
        length (cut (num_chunks_for (length tokens) n) n tokens) ≡ num_chunks_for (length tokens) n
    counted = length-cut (num_chunks_for (length tokens) n) n tokens

    counted_request :
        length (cut (num_chunks_for (length request) n) n request)
        ≡ num_chunks_for (length request) n
    counted_request = length-cut (num_chunks_for (length request) n) n request

-- Whenever the count succeeds on the fingerprints of the registered tokens, it is the number of
-- leading chunks on which the request agrees with them, and not one less or more: the agreement
-- covers that many chunks' tokens, and no further chunk. Otherwise two different byte strings that
-- have one digest are at hand.
pub matched_chunk_count-IsReusable :
    (digest : List ℕ → String) (request tokens : List ℤ) (d : CacheDescriptor)
    (chunks : List (List ℤ)) {m : ℕ}
    → 0 < d.chunk_size
    → chunk_token_ids tokens d.chunk_size ≡ ok chunks
    → fingerprints digest chunks ≡ ok d.chunk_fingerprints
    → matched_chunk_count digest request d ≡ ok m
    → IsReusable d.chunk_size request tokens m ⊎ Collision digest
unfolding matched_chunk_count
matched_chunk_count-IsReusable digest request tokens d chunks {m} pos hc hf e =
    finish (count_matches-Counts digest asked known 0 0 d.chunk_fingerprints hf' e')
  where
    n : ℕ
    n = d.chunk_size

    asked : List (List ℤ)
    asked = cut (num_chunks_for (length request) n) n request

    known : List (List ℤ)
    known = cut (num_chunks_for (length tokens) n) n tokens

    hf' : fingerprints digest known ≡ ok d.chunk_fingerprints
    hf' = ground (arith, chunk_token_ids-cut tokens n pos)

    e' : count_matches digest asked 0 0 d.chunk_fingerprints ≡ ok m
    e' = ground (arith, chunk_token_ids-cut request n pos)

    finish : Counts digest asked known 0 m → IsReusable n request tokens m ⊎ Collision digest
    finish (inr col) = inr col
    finish (inl (k, em, h)) =
        let same : k ≡ m = omega arith in
        inl (IsReusable-of_IsCommon n request tokens m pos (rw same at h))
