-- ===== src/Tests/Codec.antt =====
-- A codec that meets what the code relies on of `json`: documents in postfix order, each symbol a
-- pair of numbers, read by a machine with a stack.
use Prim.Native.Char.{char, code, IsLt, IsScalar}
use Prim.Native.Nat.{compare, Ordering}
use llmcache.Prelude.{
  ℕ, ◌≡◌, refl, ap, ◌∙◌, String, true, false, Option, none, some, List, [], ◌∷◌, ◌==◌,
  if◌then◌else◌,
}
use llmcache.Int.{pos, negsuc}
use llmcache.Results.{Result, ok, err, value_error}
use llmcache.Payload.{Json, Items, Fields, null, bool, int, str, arr, obj, nil, cons, end, field}
use llmcache.Payload.Framing.{JsonCodec}

abbrev pub BothLt : Ordering → Ordering → Type 0
BothLt Ordering.lt o = IsLt o
BothLt Ordering.eq _ = ⊥
BothLt Ordering.gt _ = ⊥

abbrev pub LtOrBothLt : Ordering → Ordering → Ordering → Type 0
LtOrBothLt Ordering.lt _ _ = Unit
LtOrBothLt Ordering.eq o p = BothLt o p
LtOrBothLt Ordering.gt o p = BothLt o p

abbrev pub below : (o : Ordering) → Option (IsLt o)
below Ordering.lt = some tt
below Ordering.eq = none
below Ordering.gt = none

abbrev pub both_below : (o p : Ordering) → Option (BothLt o p)
both_below Ordering.lt p = below p
both_below Ordering.eq p = none
both_below Ordering.gt p = none

abbrev pub is_scalar : (o p q : Ordering) → Option (LtOrBothLt o p q)
is_scalar Ordering.lt p q = some tt
is_scalar Ordering.eq p q = both_below p q
is_scalar Ordering.gt p q = both_below p q

below_complete : (o : Ordering) (h : IsLt o) → below o ≡ some h
below_complete Ordering.lt h = refl
below_complete Ordering.eq h = elim h [ ]
below_complete Ordering.gt h = elim h [ ]

both_below_complete : (o p : Ordering) (h : BothLt o p) → both_below o p ≡ some h
both_below_complete Ordering.lt p h = below_complete p h
both_below_complete Ordering.eq p h = elim h [ ]
both_below_complete Ordering.gt p h = elim h [ ]

is_scalar_complete : (o p q : Ordering) (h : LtOrBothLt o p q) → is_scalar o p q ≡ some h
is_scalar_complete Ordering.lt p q h = refl
is_scalar_complete Ordering.eq p q h = both_below_complete p q h
is_scalar_complete Ordering.gt p q h = both_below_complete p q h

abbrev pub check : (n : ℕ) → Option (IsScalar n)
check n = is_scalar (compare n 55296) (compare 57343 n) (compare n 1114112)

check_complete : (n : ℕ) (h : IsScalar n) → check n ≡ some h
check_complete n h = is_scalar_complete (compare n 55296) (compare 57343 n) (compare n 1114112) h

pub data Slot : Type 0 where
  json : Json → Slot
  items : Items → Slot
  fields : Fields → Slot
  word : String → Slot

abbrev pub push_char : (n : ℕ) → Option (IsScalar n) → List Slot → Option (List Slot)
push_char n (some h) (word s ∷ st) = some (word (String.◌∷◌ (char n h) s) ∷ st)
push_char n (some h) st = none
push_char n none st = none

abbrev pub push_str : List Slot → Option (List Slot)
push_str (word s ∷ st) = some (json (str s) ∷ st)
push_str st = none

abbrev pub push_cons : List Slot → Option (List Slot)
push_cons (json j ∷ items xs ∷ st) = some (items (cons j xs) ∷ st)
push_cons st = none

abbrev pub push_arr : List Slot → Option (List Slot)
push_arr (items xs ∷ st) = some (json (arr xs) ∷ st)
push_arr st = none

abbrev pub push_field : List Slot → Option (List Slot)
push_field (word k ∷ json j ∷ fields fs ∷ st) = some (fields (field k j fs) ∷ st)
push_field st = none

abbrev pub push_obj : List Slot → Option (List Slot)
push_obj (fields fs ∷ st) = some (json (obj fs) ∷ st)
push_obj st = none

pub step : ℕ → ℕ → List Slot → Option (List Slot)
step op arg st =
    if op == 0
    then some (json null ∷ st)
    else if op == 1
    then some (json (bool (arg == 1)) ∷ st)
    else if op == 2
    then some (json (int (pos arg)) ∷ st)
    else if op == 3
    then some (json (int (negsuc arg)) ∷ st)
    else if op == 4
    then some (word "" ∷ st)
    else if op == 5
    then push_char arg (check arg) st
    else if op == 6
    then push_str st
    else if op == 7
    then some (items nil ∷ st)
    else if op == 8
    then push_cons st
    else if op == 9
    then push_arr st
    else if op == 10
    then some (fields end ∷ st)
    else if op == 11
    then push_field st
    else push_obj st

pub run : List ℕ → List Slot → Option (List Slot)
run [] st = some st
run (op ∷ []) st = none
run (op ∷ arg ∷ rest) st = elim (step op arg st) [ none ↦ none | some st' ↦ run rest st' ]

pub enc_word : String → List ℕ → List ℕ
enc_word String.[] rest = 4 ∷ 0 ∷ rest
enc_word (String.◌∷◌ c s) rest = enc_word s (5 ∷ code c ∷ rest)

mutual
  pub enc : Json → List ℕ → List ℕ
  enc null rest = 0 ∷ 0 ∷ rest
  enc (bool b) rest = 1 ∷ (if b then 1 else 0) ∷ rest
  enc (int (pos n)) rest = 2 ∷ n ∷ rest
  enc (int (negsuc n)) rest = 3 ∷ n ∷ rest
  enc (str s) rest = enc_word s (6 ∷ 0 ∷ rest)
  enc (arr xs) rest = enc_items xs (9 ∷ 0 ∷ rest)
  enc (obj fs) rest = enc_fields fs (12 ∷ 0 ∷ rest)

  pub enc_items : Items → List ℕ → List ℕ
  enc_items nil rest = 7 ∷ 0 ∷ rest
  enc_items (cons x xs) rest = enc_items xs (enc x (8 ∷ 0 ∷ rest))

  pub enc_fields : Fields → List ℕ → List ℕ
  enc_fields end rest = 10 ∷ 0 ∷ rest
  enc_fields (field k v fs) rest = enc_fields fs (enc v (enc_word k (11 ∷ 0 ∷ rest)))

run-enc_word :
    (s : String) (rest : List ℕ) (st : List Slot)
    → run (enc_word s rest) st ≡ run rest (word s ∷ st)
unfolding run step enc_word
run-enc_word String.[] rest st = refl
run-enc_word (String.◌∷◌ (char n h) s) rest st =
    run-enc_word s (5 ∷ n ∷ rest) st
    ∙ ap
        (λ o. elim (push_char n o (word s ∷ st)) as (λ _. Option (List Slot)) [
          | none ↦ none
          | some st' ↦ run rest st'
        ])
        (check_complete n h)

mutual
  unfolding run step enc enc_items enc_fields

  pub run-enc :
      (j : Json) (rest : List ℕ) (st : List Slot) → run (enc j rest) st ≡ run rest (json j ∷ st)
  run-enc null rest st = refl
  run-enc (bool true) rest st = refl
  run-enc (bool false) rest st = refl
  run-enc (int (pos n)) rest st = refl
  run-enc (int (negsuc n)) rest st = refl
  run-enc (str s) rest st = run-enc_word s (6 ∷ 0 ∷ rest) st
  run-enc (arr xs) rest st = run-enc_items xs (9 ∷ 0 ∷ rest) st
  run-enc (obj fs) rest st = run-enc_fields fs (12 ∷ 0 ∷ rest) st

  run-enc_items :
      (xs : Items) (rest : List ℕ) (st : List Slot)
      → run (enc_items xs rest) st ≡ run rest (items xs ∷ st)
  run-enc_items nil rest st = refl
  run-enc_items (cons x xs) rest st =
      run-enc_items xs (enc x (8 ∷ 0 ∷ rest)) st ∙ run-enc x (8 ∷ 0 ∷ rest) (items xs ∷ st)

  run-enc_fields :
      (fs : Fields) (rest : List ℕ) (st : List Slot)
      → run (enc_fields fs rest) st ≡ run rest (fields fs ∷ st)
  run-enc_fields end rest st = refl
  run-enc_fields (field k v fs) rest st =
      run-enc_fields fs (enc v (enc_word k (11 ∷ 0 ∷ rest))) st
      ∙ run-enc v (enc_word k (11 ∷ 0 ∷ rest)) (fields fs ∷ st)
      ∙ run-enc_word k (11 ∷ 0 ∷ rest) (json v ∷ fields fs ∷ st)

abbrev pub answer : Option (List Slot) → Result Json
answer (some (json j ∷ [])) = ok j
answer _ = err value_error

unfoldable pub postfix : JsonCodec
unfolding run step enc enc_items enc_fields enc_word
postfix = record {
  dumps = λ j. enc j [];
  loads = λ bytes. answer (run bytes []);
  loads-dumps = λ fs. ap answer (run-enc (obj fs) [] []);
}
