-- ===== src/Text/Decimal.antt =====
-- Printing a number and reading it back.
use Prim.Native.Char.{Char}
use llmcache.Prelude.{
  ℕ, zero, suc, ◌/◌, ◌%◌, ◌<◌, ◌≡◌, ◌≢◌, refl, false, none, some, [], ◌∷◌, arith, ◌==◌, Bool-cases,
  inl, inr, ◌∙◌, ap,
}
use llmcache.Sets
use llmcache.Text.{Chars, Char_discrete, digit, digit_value, emit, decimal, scan, int_of}

digit_value-digit : (n : ℕ) → n < 10 → digit_value (digit n) ≡ some n
unfolding digit digit_value
digit_value-digit zero h = refl
digit_value-digit (suc zero) h = refl
digit_value-digit (suc (suc zero)) h = refl
digit_value-digit (suc (suc (suc zero))) h = refl
digit_value-digit (suc (suc (suc (suc zero)))) h = refl
digit_value-digit (suc (suc (suc (suc (suc zero))))) h = refl
digit_value-digit (suc (suc (suc (suc (suc (suc zero)))))) h = refl
digit_value-digit (suc (suc (suc (suc (suc (suc (suc zero))))))) h = refl
digit_value-digit (suc (suc (suc (suc (suc (suc (suc (suc zero)))))))) h = refl
digit_value-digit (suc (suc (suc (suc (suc (suc (suc (suc (suc zero))))))))) h = refl
digit_value-digit (suc (suc (suc (suc (suc (suc (suc (suc (suc (suc n)))))))))) h =
    absurd (omega arith)

scan-digit : (n : ℕ) (out : Chars) → scan (digit (n % 10) ∷ out) (n / 10) ≡ scan out n
unfolding scan
scan-digit n out = rw (digit_value-digit (n % 10) (omega arith), scan) (ap (scan out) (omega arith))

scan-emit : (fuel n : ℕ) (out : Chars) → n < fuel → scan (emit fuel n out) 0 ≡ scan out n
unfolding emit
scan-emit zero n out h = absurd (omega arith)
scan-emit (suc fuel) n out h = elim (Bool-cases (n / 10 == 0)) [
  | inl e ↦ rw e (ground (arith, scan-digit n out))
  | inr e ↦ rw e (scan-emit fuel (n / 10) (digit (n % 10) ∷ out) (ground arith) ∙ scan-digit n out)
]

emit-ne-nil : (fuel n : ℕ) (c : Char) (out : Chars) → emit fuel n (c ∷ out) ≢ []
unfolding emit
emit-ne-nil zero n c out = cc
emit-ne-nil (suc fuel) n c out =
    ground (arith, emit-ne-nil fuel (n / 10) (digit (n % 10)) (c ∷ out))

decimal-ne-nil : (n : ℕ) → decimal n ≢ []
unfolding decimal emit
decimal-ne-nil n = ground (arith, emit-ne-nil n (n / 10) (digit (n % 10)) [])

int_of-scan : (s : Chars) → s ≢ [] → int_of s ≡ scan s 0
unfolding int_of
int_of-scan [] h = absurd (h refl)
int_of-scan (c ∷ s) h = refl

pub int_of-decimal : (n : ℕ) → int_of (decimal n) ≡ some n
unfolding scan decimal
int_of-decimal n = int_of-scan (decimal n) (decimal-ne-nil n) ∙ scan-emit (suc n) n [] (omega arith)

-- A character that is no digit does not occur in a printed number.
emit-has :
    (fuel n : ℕ) (out : Chars) (c : Char)
    → digit_value c ≡ none
    → Sets.has Char_discrete (emit fuel n out) c ≡ Sets.has Char_discrete out c
unfolding emit Sets.has
emit-has zero n out c h = refl
emit-has (suc fuel) n out c h =
    ground (arith, emit-has fuel (n / 10) (digit (n % 10) ∷ out) c h, digit_value-digit (n % 10))

pub decimal-has :
    (n : ℕ) (c : Char) → digit_value c ≡ none → Sets.has Char_discrete (decimal n) c ≡ false
unfolding decimal Sets.has
decimal-has n c h = emit-has (suc n) n [] c h
