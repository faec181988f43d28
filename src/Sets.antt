-- ===== src/Sets.antt =====
-- Python's `set`, as the list of its members in some order.
use llmcache.Prelude.{◌≡◌, refl, Bool, true, false, List, [], ◌∷◌, ◌++◌, ite, arith}

module _ {K : Type 0} (dec : Discrete K) where
  -- `k in s`
  unfoldable pub has : List K → K → Bool
  has [] k = false
  has (j ∷ s) k = ite (dec j k) true (has s k)

  -- `s.add(k)`
  unfoldable pub add : List K → K → List K
  add [] k = k ∷ []
  add (j ∷ s) k = ite (dec j k) (j ∷ s) (j ∷ add s k)

  -- `s.discard(k)`
  unfoldable pub discard : List K → K → List K
  discard [] k = []
  discard (j ∷ s) k = let rest = discard s k in ite (dec j k) rest (j ∷ rest)

  abbrev pub IsSetLike : List K → Type 0
  IsSetLike [] = Unit
  IsSetLike (k ∷ s) = (has s k ≡ false) × IsSetLike s

  pub has-add : (s : List K) (k j : K) → has (add s k) j ≡ ite (dec k j) true (has s j)
  unfolding has add
  has-add [] k j = refl
  has-add (i ∷ s) k j = ground (arith, has-add s k j)

  pub has-discard : (s : List K) (k j : K) → has (discard s k) j ≡ ite (dec k j) false (has s j)
  unfolding has discard
  has-discard [] k j = ground arith
  has-discard (i ∷ s) k j = ground (arith, has-discard s k j)

  pub add-IsSetLike : (s : List K) (k : K) → IsSetLike s → IsSetLike (add s k)
  unfolding has add
  add-IsSetLike [] k h = (refl, tt)
  add-IsSetLike (j ∷ s) k h = ground (arith, add-IsSetLike s k h.1, has-add s k j)

  pub discard-IsSetLike : (s : List K) (k : K) → IsSetLike s → IsSetLike (discard s k)
  unfolding discard
  discard-IsSetLike [] k h = tt
  discard-IsSetLike (j ∷ s) k h = ground (arith, discard-IsSetLike s k h.1, has-discard s k j)

  pub has-append :
      (s t : List K) (k : K) → has s k ≡ false → has t k ≡ false → has (s ++ t) k ≡ false
  unfolding has
  has-append [] t k h h' = h'
  has-append (j ∷ s) t k h h' = ground (arith, has-append s t k)
