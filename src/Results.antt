-- ===== src/Results.antt =====
-- Exceptions as values: src/llmcache/errors.py, and the built-in ones that the code raises.
use llmcache.Prelude.{ℕ, String, ◌≡◌, refl, arith}

-- The first seven are `CacheError` and its subclasses; the rest are Python's own.
pub data Error : Type 0 where
  cache_error : Error
  cache_not_found : String → Error
  cache_expired : String → Error
  cache_mismatch : String → ℕ → ℕ → Error
  storage_full : Error
  serialization_error : Error
  connector_error : Error
  value_error : Error
  key_error : Error
  type_error : Error
  system_exit : Error
  overflow_error : Error
  runtime_error : Error
  zero_division_error : Error

pub data Result {ℓ} (A : Type ℓ) : Type ℓ where
  ok : A → Result A
  err : Error → Result A

module _ {ℓ κ} {A : Type ℓ} {B : Type κ} where
  infixl 10 ◌>>=◌
  abbrev pub ◌>>=◌ : Result A → (A → Result B) → Result B
  err x >>= step = err x
  ok value >>= step = step value

  -- A bind that succeeds has gone through a value.
  pub >>=-eq-ok :
      (r : Result A) (step : A → Result B) {out : B}
      → (r >>= step) ≡ ok out
      → (value : A) × (r ≡ ok value) × (step value ≡ ok out)
  >>=-eq-ok (err x) step e = absurd (ground arith)
  >>=-eq-ok (ok value) step e = (value, refl, e)
