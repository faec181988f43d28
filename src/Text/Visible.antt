-- ===== src/Text/Visible.antt =====
-- Texts of printable characters without blanks.
use Prim.Native.Char.{Char}
use llmcache.Prelude.{◌≡◌, refl, true, false, [], ◌∷◌, ◌++◌, none, arith}
use llmcache.Sets
use llmcache.Text.{Chars, Char_discrete, is_visible, all_visible, is_blank, strip_end, split_last}

pub all_visible-append :
    (s t : Chars) → all_visible s ≡ true → all_visible t ≡ true → all_visible (s ++ t) ≡ true
unfolding all_visible
all_visible-append [] t h k = k
all_visible-append (c ∷ s) t h k = ground (arith, all_visible-append s t)

visible_kept : (c : Char) → is_visible c ≡ true → is_blank c ≡ false
unfolding is_blank
visible_kept c h = ground arith

-- Such a text does not end in a blank.
pub strip_end_lem : (s : Chars) → all_visible s ≡ true → strip_end s ≡ s
unfolding strip_end all_visible
strip_end_lem [] h = refl
strip_end_lem (c ∷ s) h = ground (arith, strip_end_lem s, visible_kept c)

pub split_last_absent :
    (c : Char) (s : Chars) → Sets.has Char_discrete s c ≡ false → split_last c s ≡ none
unfolding split_last Sets.has
split_last_absent c [] h = refl
split_last_absent c (d ∷ s) h = ground (arith, split_last_absent c s)
