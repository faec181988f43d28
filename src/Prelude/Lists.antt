-- ===== src/Prelude/Lists.antt =====
-- Lists measured and cut by native numbers, under the library's names.
use Prim.Native.Nat.{ℕ, zero, suc, ◌+◌, ◌-◌, ◌≤◌, min}
use mathlib.Core.Path.{◌≡◌, refl, ap}
use mathlib.Core.List.{List, [], ◌∷◌, ◌++◌, map}
use mathlib.Core.Option.{Option, none, some}
use native.Mathlib.Omega.{arith}
use native.Mathlib.Nat.{zero-add, suc-add}

module _ {ℓ} {A : Type ℓ} where
  abbrev pub length : List A → ℕ
  length [] = 0
  length (x ∷ xs) = suc (length xs)

  abbrev pub take : ℕ → List A → List A
  take zero xs = []
  take (suc n) [] = []
  take (suc n) (x ∷ xs) = x ∷ take n xs

  abbrev pub drop : ℕ → List A → List A
  drop zero xs = xs
  drop (suc n) [] = []
  drop (suc n) (x ∷ xs) = drop n xs

  abbrev pub get_elem? : List A → ℕ → Option A
  get_elem? [] i = none
  get_elem? (x ∷ xs) zero = some x
  get_elem? (x ∷ xs) (suc i) = get_elem? xs i

  abbrev pub is_nil : List A → mathlib.Core.Bool.Bool
  is_nil [] = mathlib.Core.Bool.true
  is_nil (x ∷ xs) = mathlib.Core.Bool.false

  pub length-append : (xs ys : List A) → length (xs ++ ys) ≡ length xs + length ys
  length-append [] ys = omega arith
  length-append (x ∷ xs) ys = omega (arith, length-append xs ys)

  pub length-take : (n : ℕ) (xs : List A) → length (take n xs) ≡ min n (length xs)
  length-take zero xs = omega arith
  length-take (suc n) [] = omega arith
  length-take (suc n) (x ∷ xs) = omega (arith, length-take n xs)

  pub length-drop : (n : ℕ) (xs : List A) → length (drop n xs) ≡ length xs - n
  length-drop zero xs = omega arith
  length-drop (suc n) [] = omega arith
  length-drop (suc n) (x ∷ xs) = omega (arith, length-drop n xs)

  pub take-append-drop : (n : ℕ) (xs : List A) → take n xs ++ drop n xs ≡ xs
  take-append-drop zero xs = refl
  take-append-drop (suc n) [] = refl
  take-append-drop (suc n) (x ∷ xs) = rw (take-append-drop n xs)

  pub take-append_left : (xs ys : List A) → take (length xs) (xs ++ ys) ≡ xs
  take-append_left [] ys = refl
  take-append_left (x ∷ xs) ys = ap (◌∷◌ x) (take-append_left xs ys)

  pub take_all : (n : ℕ) (xs : List A) → length xs ≤ n → take n xs ≡ xs
  take_all zero [] h = refl
  take_all zero (x ∷ xs) h = absurd (omega arith)
  take_all (suc n) [] h = refl
  take_all (suc n) (x ∷ xs) h = ap (◌∷◌ x) (take_all n xs (omega arith))

  pub drop-drop : (m n : ℕ) (xs : List A) → drop n (drop m xs) ≡ drop (m + n) xs
  drop-drop zero n xs = rw zero-add
  drop-drop (suc m) zero [] = rw suc-add
  drop-drop (suc m) (suc n) [] = rw suc-add
  drop-drop (suc m) n (x ∷ xs) = rw suc-add (drop-drop m n xs)

  pub take-add : (m n : ℕ) (xs : List A) → take (m + n) xs ≡ take m xs ++ take n (drop m xs)
  take-add zero n xs = rw zero-add
  take-add (suc m) zero [] = rw suc-add
  take-add (suc m) (suc n) [] = rw suc-add
  take-add (suc m) n (x ∷ xs) = rw suc-add (ap (◌∷◌ x) (take-add m n xs))

  pub take_of_take-add : (m n : ℕ) (xs : List A) → take m (take (m + n) xs) ≡ take m xs
  take_of_take-add zero n xs = refl
  take_of_take-add (suc m) zero [] = rw suc-add
  take_of_take-add (suc m) (suc n) [] = rw suc-add
  take_of_take-add (suc m) n (x ∷ xs) = rw suc-add (ap (◌∷◌ x) (take_of_take-add m n xs))

  pub drop_of_take-add : (m n : ℕ) (xs : List A) → drop m (take (m + n) xs) ≡ take n (drop m xs)
  drop_of_take-add zero n xs = rw zero-add
  drop_of_take-add (suc m) zero [] = rw suc-add
  drop_of_take-add (suc m) (suc n) [] = rw suc-add
  drop_of_take-add (suc m) n (x ∷ xs) = rw suc-add (drop_of_take-add m n xs)

  pub drop_of_get-none : (xs : List A) (i : ℕ) → get_elem? xs i ≡ none → drop i xs ≡ []
  drop_of_get-none [] zero h = refl
  drop_of_get-none [] (suc i) h = refl
  drop_of_get-none (x ∷ xs) zero h = absurd (ground arith)
  drop_of_get-none (x ∷ xs) (suc i) h = drop_of_get-none xs i h

  pub drop_of_get-some :
      (xs : List A) (i : ℕ) {x : A} → get_elem? xs i ≡ some x → drop i xs ≡ x ∷ drop (suc i) xs
  drop_of_get-some [] i h = absurd (ground arith)
  drop_of_get-some (y ∷ xs) zero h = ground arith
  drop_of_get-some (y ∷ xs) (suc i) h = drop_of_get-some xs i h

  pub append_left_cancel : (xs ys zs : List A) → xs ++ ys ≡ xs ++ zs → ys ≡ zs
  append_left_cancel [] ys zs h = h
  append_left_cancel (x ∷ xs) ys zs h = ground (arith, append_left_cancel xs ys zs)

  pub prefix_of_append :
      (xs xs' ys ys' : List A) → length xs ≡ length xs' → xs ++ ys ≡ xs' ++ ys' → xs ≡ xs'
  prefix_of_append [] [] ys ys' e h = refl
  prefix_of_append [] (x ∷ xs) ys ys' e h = absurd (omega arith)
  prefix_of_append (x ∷ xs) [] ys ys' e h = absurd (omega arith)
  prefix_of_append (x ∷ xs) (x' ∷ xs') ys ys' e h = ground (arith, prefix_of_append xs xs' ys ys')

module _ {ℓ κ} {A : Type ℓ} {B : Type κ} where
  pub length-map : (f : A → B) (xs : List A) → length (map f xs) ≡ length xs
  length-map f [] = refl
  length-map f (x ∷ xs) = ap suc (length-map f xs)

-- `range(i, i + n)`.
abbrev pub range_from : ℕ → ℕ → List ℕ
range_from i zero = []
range_from i (suc n) = i ∷ range_from (suc i) n

pub length-range_from : (i n : ℕ) → length (range_from i n) ≡ n
length-range_from i zero = refl
length-range_from i (suc n) = ap suc (length-range_from (suc i) n)
