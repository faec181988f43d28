-- ===== src/Text/Laws.antt =====
-- What the operations on texts give on a text that was put together.
use Prim.Native.Char.{Char}
use llmcache.Prelude.{
  ◌≡◌, refl, ap, ◌∙◌, String, true, false, none, some, [], ◌∷◌, ◌++◌, length, drop, arith,
  length-append, ◌+◌, ◌-◌, sym, Bool, ◌&&◌, leb, drop-drop, false,
}
use llmcache.Sets
use llmcache.Text.{
  split_all, Chars, Char_discrete, chars, from_chars, starts_with, ends_with, split_first,
  split_last,
}

pub chars-from_chars : (s : Chars) → chars (from_chars s) ≡ s
unfolding chars
chars-from_chars [] = refl
chars-from_chars (c ∷ s) = ap (◌∷◌ c) (chars-from_chars s)

pub from_chars-chars : (s : String) → from_chars (chars s) ≡ s
unfolding chars
from_chars-chars String.[] = refl
from_chars-chars (String.◌∷◌ c s) = ap (λ t. String.◌∷◌ c t) (from_chars-chars s)

pub starts_with-append : (p s : Chars) → starts_with (p ++ s) p ≡ true
unfolding starts_with
starts_with-append [] s = refl
starts_with-append (c ∷ p) s = ground (arith, starts_with-append p s)

pub drop-append : (p s : Chars) → drop (length p) (p ++ s) ≡ s
drop-append [] s = refl
drop-append (c ∷ p) s = drop-append p s

starts_with_self : (p : Chars) → starts_with p p ≡ true
unfolding starts_with
starts_with_self [] = refl
starts_with_self (c ∷ p) = ground (arith, starts_with_self p)

pub ends_with-append : (s p : Chars) → ends_with (s ++ p) p ≡ true
unfolding ends_with
ends_with-append s p =
    let n : length (s ++ p) - length p ≡ length s = omega (arith, length-append s p) in
    let e : drop (length (s ++ p) - length p) (s ++ p) ≡ p = rw n (drop-append s p) in
    ground (arith, length-append s p, e, starts_with_self p)

pub split_first-append :
    (a b : Chars) (c : Char)
    → Sets.has Char_discrete a c ≡ false
    → split_first c (a ++ c ∷ b) ≡ some (a, b)
unfolding split_first Sets.has
split_first-append [] b c h = ground arith
split_first-append (d ∷ a) b c h = ground (arith, split_first-append a b c)

split_last-none :
    (b : Chars) (c : Char) → Sets.has Char_discrete b c ≡ false → split_last c b ≡ none
unfolding split_last Sets.has
split_last-none [] c h = refl
split_last-none (d ∷ b) c h = ground (arith, split_last-none b c)

pub split_last-append :
    (a b : Chars) (c : Char)
    → Sets.has Char_discrete b c ≡ false
    → split_last c (a ++ c ∷ b) ≡ some (a, b)
unfolding split_last
split_last-append [] b c h = ground (arith, split_last-none b c h)
split_last-append (d ∷ a) b c h = ground (arith, split_last-append a b c h)

-- A text that ends in `t` is compared in `t` alone with a suffix that is as long.
pub ends_with_same_length :
    (s t p : Chars) → length t ≡ length p → ends_with (s ++ t) p ≡ starts_with t p
unfolding ends_with
ends_with_same_length s t p e =
    let n : length (s ++ t) - length p ≡ length s = omega (arith, length-append s t) in
    let tail : drop (length (s ++ t) - length p) (s ++ t) ≡ t = rw n (drop-append s t) in
    ground (arith, length-append s t, tail)

starts_with-drop :
    (s a b : Chars) → starts_with s (a ++ b) ≡ true → starts_with (drop (length a) s) b ≡ true
unfolding starts_with
starts_with-drop s [] b h = h
starts_with-drop [] (d ∷ a) b h = absurd (ground arith)
starts_with-drop (c ∷ s) (d ∷ a) b h = ground (arith, starts_with-drop s a b)

-- What ends in a text ends in that text's ending.
pub ends_with_suffix : (s a b : Chars) → ends_with s (a ++ b) ≡ true → ends_with s b ≡ true
unfolding ends_with
ends_with_suffix s a b h =
    let (short, tail) = both (leb (length (a ++ b)) (length s)) _ h in
    let n : length s - length (a ++ b) + length a ≡ length s - length b =
      ground (arith, length-append a b, short) in
    let found : starts_with (drop (length s - length b) s) b ≡ true =
      ap (λ m. starts_with (drop m s) b) (sym n)
      ∙ ap (λ q. starts_with q b) (sym (drop-drop (length s - length (a ++ b)) (length a) s))
      ∙ starts_with-drop (drop (length s - length (a ++ b)) s) a b tail in
    ground (arith, length-append a b, short, found)
  where
    both : (x y : Bool) → (x && y) ≡ true → (x ≡ true) × (y ≡ true)
    both true y h = (refl, h)
    both false y h = absurd (ground arith)

pub split_all_absent :
    (c : Char) (s : Chars) → Sets.has Char_discrete s c ≡ false → split_all c s ≡ s ∷ []
unfolding split_all Sets.has
split_all_absent c [] h = refl
split_all_absent c (d ∷ s) h = ground (arith, split_all_absent c s)

-- A text that begins with a character has it.
pub starts_with_absent :
    (c : Char) (s : Chars) → Sets.has Char_discrete s c ≡ false → starts_with s (c ∷ []) ≡ false
unfolding starts_with Sets.has
starts_with_absent c [] h = refl
starts_with_absent c (d ∷ s) h = ground arith
