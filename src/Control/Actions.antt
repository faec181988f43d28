-- ===== src/Control/Actions.antt =====
-- Which action the last segment of a path names.
use llmcache.Prelude.{
  ◌≡◌, refl, ap, sym, ◌∙◌, String, true, false, some, List, [], ◌∷◌, ◌++◌, length, arith,
  append_assoc, Bool-cases, inl, inr, ℕ_discrete,
}
use llmcache.Text.{Chars, Char_discrete, chars, from_chars, starts_with, ends_with}
use llmcache.Text.Laws.{
  chars-from_chars, from_chars-chars, starts_with-append, ends_with-append, ends_with_same_length,
  ends_with_suffix,
}
use llmcache.Control.Routes.{caches_prefix, Action, pin, unpin, ttl, suffixes, find_action}
use llmcache.Control.Paths.{between}

abbrev pub pin_suffix : Chars
pin_suffix = "/" ∷ "p" ∷ "i" ∷ "n" ∷ []

abbrev pub unpin_suffix : Chars
unpin_suffix = "/" ∷ "u" ∷ "n" ∷ "p" ∷ "i" ∷ "n" ∷ []

abbrev pub ttl_suffix : Chars
ttl_suffix = "/" ∷ "t" ∷ "t" ∷ "l" ∷ []

abbrev npin : Chars
npin = "n" ∷ "p" ∷ "i" ∷ "n" ∷ []

abbrev pub path_with : String → Chars → Chars
path_with cid suffix = caches_prefix ++ (chars cid ++ suffix)

ends_own : (cid : String) (suffix : Chars) → ends_with (path_with cid suffix) suffix ≡ true
ends_own cid suffix =
    ap (λ s. ends_with s suffix) (sym (append_assoc caches_prefix (chars cid) suffix))
    ∙ ends_with-append (caches_prefix ++ chars cid) suffix

-- The last characters decide.
ends_other :
    (cid : String) (a t p : Chars)
    → length t ≡ length p
    → ends_with (path_with cid (a ++ t)) p ≡ starts_with t p
ends_other cid a t p e =
    ap (λ s. ends_with s p)
      (ap (λ s. caches_prefix ++ s) (sym (append_assoc (chars cid) a t))
        ∙ sym (append_assoc caches_prefix (chars cid ++ a) t))
    ∙ ends_with_same_length (caches_prefix ++ (chars cid ++ a)) t p e

first_suffix :
    (cid : String) (suffix : Chars) (action : Action) (rest : List (Chars × Action))
    → find_action (path_with cid suffix) ((suffix, action) ∷ rest) ≡ some (cid, action)
unfolding find_action
first_suffix cid suffix action rest = rw (ends_own cid suffix) (
    rw (starts_with-append caches_prefix (chars cid ++ suffix)) (
      ap (λ c. some (from_chars c, action)) (between (chars cid) suffix)
      ∙ ap (λ c. some (c, action)) (from_chars-chars cid)))

next_suffix :
    (path suffix : Chars) (action : Action) (rest : List (Chars × Action))
    → ends_with path suffix ≡ false
    → find_action path ((suffix, action) ∷ rest) ≡ find_action path rest
unfolding find_action
next_suffix path suffix action rest h = rw h refl

module _ (cid : String) where
  unpin_no_pin : ends_with (path_with cid unpin_suffix) pin_suffix ≡ false
  unfolding starts_with Char_discrete ℕ_discrete
  unpin_no_pin = ends_other cid ("/" ∷ "u" ∷ []) npin pin_suffix refl

  ttl_no_pin : ends_with (path_with cid ttl_suffix) pin_suffix ≡ false
  unfolding starts_with Char_discrete ℕ_discrete
  ttl_no_pin = ends_other cid [] ttl_suffix pin_suffix refl

  ttl_no_npin : ends_with (path_with cid ttl_suffix) npin ≡ false
  unfolding starts_with Char_discrete ℕ_discrete
  ttl_no_npin = ends_other cid [] ttl_suffix npin refl

  ttl_no_unpin : ends_with (path_with cid ttl_suffix) unpin_suffix ≡ false
  ttl_no_unpin = elim (Bool-cases (ends_with (path_with cid ttl_suffix) unpin_suffix)) [
    | inl e ↦ absurd (
        ground (
          arith,
          sym (ends_with_suffix (path_with cid ttl_suffix) ("/" ∷ "u" ∷ []) npin e) ∙ ttl_no_npin,
        ))
    | inr e ↦ e
  ]

  -- The path that names an action on a cache id leads to it, whatever the id is.
  pub find_action-pin :
      find_action (chars (from_chars (path_with cid pin_suffix))) suffixes ≡ some (cid, pin)
  find_action-pin =
      ap (λ s. find_action s suffixes) (chars-from_chars (path_with cid pin_suffix))
      ∙ first_suffix cid pin_suffix pin ((unpin_suffix, unpin) ∷ (ttl_suffix, ttl) ∷ [])

  pub find_action-unpin :
      find_action (chars (from_chars (path_with cid unpin_suffix))) suffixes ≡ some (cid, unpin)
  find_action-unpin =
      let path = path_with cid unpin_suffix in
      ap (λ s. find_action s suffixes) (chars-from_chars path)
      ∙ next_suffix path pin_suffix pin ((unpin_suffix, unpin) ∷ (ttl_suffix, ttl) ∷ [])
          unpin_no_pin
      ∙ first_suffix cid unpin_suffix unpin ((ttl_suffix, ttl) ∷ [])

  pub find_action-ttl :
      find_action (chars (from_chars (path_with cid ttl_suffix))) suffixes ≡ some (cid, ttl)
  find_action-ttl =
      let path = path_with cid ttl_suffix in
      ap (λ s. find_action s suffixes) (chars-from_chars path)
      ∙ next_suffix path pin_suffix pin ((unpin_suffix, unpin) ∷ (ttl_suffix, ttl) ∷ []) ttl_no_pin
      ∙ next_suffix path unpin_suffix unpin ((ttl_suffix, ttl) ∷ []) ttl_no_unpin
      ∙ first_suffix cid ttl_suffix ttl []
