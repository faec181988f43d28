-- ===== src/Text.antt =====
-- Python's texts, as the lists of their characters, where the code takes them apart: prefixes,
-- suffixes, `partition`, `rsplit`, and decimal numbers. `int` is that of plain decimal digits: the
-- code prints such, and the signs, blanks and underscores that `int` also takes are left out.
pub mod Laws
pub mod Decimal
pub mod Visible
use Prim.Native.Char.{Char, code}
use Prim.Native.String
use text.Mathlib.TextBridge.{of_list}
use text.Mathlib.TextEquality.{Char-path}
use llmcache.Prelude.{
  ℕ, zero, suc, ◌+◌, ◌-◌, ◌*◌, ◌/◌, ◌%◌, ◌≡◌, ap, String, Bool, true, false, ◌&&◌, ◌||◌, is_nil,
  Option, none, some, List, [], ◌∷◌, length, drop, ltb, leb, ◌==◌, if◌then◌else◌, ite, ℕ_discrete,
}

abbrev pub Chars : Type 0
Chars = List Char

unfoldable pub Char_discrete : Discrete Char
unfolding ℕ_discrete
Char_discrete c d = elim (ℕ_discrete (code c) (code d)) [
  | yes e ↦ yes (Char-path c d e)
  | no n ↦ no (λ e. n (ap code e))
]

unfoldable pub chars : String → Chars
chars String.[] = []
chars (String.◌∷◌ c s) = c ∷ chars s

abbrev pub from_chars : Chars → String
from_chars = of_list

-- `s.startswith(p)`
unfoldable pub starts_with : Chars → Chars → Bool
starts_with s [] = true
starts_with [] (d ∷ p) = false
starts_with (c ∷ s) (d ∷ p) = ite (Char_discrete c d) (starts_with s p) false

-- `s.endswith(p)`
unfoldable pub ends_with : Chars → Chars → Bool
unfolding starts_with
ends_with s p = leb (length p) (length s) && starts_with (drop (length s - length p) s) p

-- `s.partition(c)`, where `c` occurs
unfoldable pub split_first : Char → Chars → Option (Chars × Chars)
split_first c [] = none
split_first c (d ∷ s) =
    let rest = split_first c s in
    ite (Char_discrete d c) (some ([], s))
      (elim rest [ none ↦ none | some (a, b) ↦ some (d ∷ a, b) ])

-- `s.rsplit(c, 1)`, where `c` occurs
unfoldable pub split_last : Char → Chars → Option (Chars × Chars)
split_last c [] = none
split_last c (d ∷ s) = elim (split_last c s) [
  | some (a, b) ↦ some (d ∷ a, b)
  | none ↦ ite (Char_discrete d c) (some ([], s)) none
]

unfoldable pub digit : ℕ → Char
digit n =
    if n == 0
    then "0"
    else if n == 1
    then "1"
    else if n == 2
    then "2"
    else if n == 3
    then "3"
    else if n == 4
    then "4"
    else if n == 5
    then "5"
    else if n == 6
    then "6"
    else if n == 7
    then "7"
    else if n == 8
    then "8"
    else "9"

unfoldable pub digit_value : Char → Option ℕ
digit_value c = if leb b'0' (code c) && leb (code c) b'9' then some (code c - b'0') else none

-- The decimal digits of `n` before `out`; a number below the fuel needs no more rounds.
unfoldable pub emit : ℕ → ℕ → Chars → Chars
emit zero n out = out
emit (suc fuel) n out =
    let longer = emit fuel (n / 10) (digit (n % 10) ∷ out) in
    if n / 10 == 0 then digit (n % 10) ∷ out else longer

-- `str(n)`
unfoldable pub decimal : ℕ → Chars
unfolding emit digit
decimal n = emit (suc n) n []

unfoldable pub scan : Chars → ℕ → Option ℕ
scan [] n = some n
scan (c ∷ s) n = elim (digit_value c) [ none ↦ none | some d ↦ scan s (n * 10 + d) ]

-- `int(s)`
unfoldable pub int_of : Chars → Option ℕ
unfolding scan digit_value
int_of [] = none
int_of (c ∷ s) = scan (c ∷ s) 0

-- A printable character of ASCII other than the blank, and a text of such.
abbrev pub is_visible : Char → Bool
is_visible c = leb 33 (code c) && leb (code c) 126

unfoldable pub all_visible : Chars → Bool
all_visible [] = true
all_visible (c ∷ s) = is_visible c && all_visible s

-- `c.isspace()`
unfoldable pub is_blank : Char → Bool
is_blank c =
    (leb 9 (code c) && leb (code c) 13)
    || (leb 28 (code c) && leb (code c) 32)
    || code c == 133
    || code c == 160
    || code c == 5760
    || (leb 8192 (code c) && leb (code c) 8202)
    || code c == 8232
    || code c == 8233
    || code c == 8239
    || code c == 8287
    || code c == 12288

-- `s.rstrip()`
unfoldable pub strip_end : Chars → Chars
unfolding is_blank
strip_end [] = []
strip_end (c ∷ s) = let rest = strip_end s in if is_nil rest && is_blank c then [] else c ∷ rest

abbrev pub cons_first : Char → List Chars → List Chars
cons_first d [] = (d ∷ []) ∷ []
cons_first d (p ∷ ps) = (d ∷ p) ∷ ps

-- `s.split(c)`
unfoldable pub split_all : Char → Chars → List Chars
split_all c [] = [] ∷ []
split_all c (d ∷ s) =
    let rest = split_all c s in ite (Char_discrete d c) ([] ∷ rest) (cons_first d rest)
