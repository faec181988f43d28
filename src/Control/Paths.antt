-- ===== src/Control/Paths.antt =====
-- Where the paths of the API lead.
use Prim.Native.Char.{Char}
use llmcache.Prelude.{
  ◌-◌, ◌≤◌, ◌≡◌, ◌≢◌, refl, ap, ap₂, sym, ◌∙◌, String, true, false, none, some, [], ◌∷◌, ◌++◌,
  length, drop, take, is_nil, arith, length-append, take-append_left, not, ◌&&◌, if◌then◌else◌,
  ℕ_discrete,
}
use llmcache.Sets
use llmcache.Text.{Chars, Char_discrete, chars, from_chars, starts_with, all_visible}
use llmcache.Text.Laws.{chars-from_chars, from_chars-chars, starts_with-append, drop-append}
use llmcache.Types.{slice}
use llmcache.Control.Routes.{before, without_params, url_path, caches_prefix, cache_id}

abbrev pub Lacks : Chars → Char → Type 0
Lacks s c = Sets.has Char_discrete s c ≡ false

-- A cache id that the API can name: not empty, of printable ASCII characters without blanks,
-- without what ends a path or a segment, and so short that the request's line stays within the
-- limit of `http.server`, 65536 bytes.
pub record IsPlain (cid : String) : Type 0 where
  pub nonempty : is_nil (chars cid) ≡ false
  pub no_slash : Lacks (chars cid) "/"
  pub no_query : Lacks (chars cid) "?"
  pub no_fragment : Lacks (chars cid) "#"
  pub no_params : Lacks (chars cid) ";"
  pub visible : all_visible (chars cid) ≡ true
  pub short : length (chars cid) ≤ 65000

before_absent : (c : Char) (s : Chars) → Lacks s c → before c s ≡ s
unfolding before Sets.has
before_absent c [] h = refl
before_absent c (d ∷ s) h = ground (arith, before_absent c s)

without_params_absent : (s : Chars) → Lacks s ";" → without_params s ≡ s
unfolding without_params Sets.has
without_params_absent [] h = refl
without_params_absent (d ∷ s) h = ground (arith, without_params_absent s)

-- A target without these characters is its own path.
url_path_lem :
    (s : Chars) → Lacks s "#" → Lacks s "?" → Lacks s ";" → url_path (from_chars s) ≡ from_chars s
unfolding url_path
url_path_lem s f q p =
    ap (λ t. from_chars (without_params (before "?" (before "#" t)))) (chars-from_chars s)
    ∙ ap (λ t. from_chars (without_params (before "?" t))) (before_absent "#" s f)
    ∙ ap (λ t. from_chars (without_params t)) (before_absent "?" s q)
    ∙ ap from_chars (without_params_absent s p)

module _ (cid : String) (plain : IsPlain cid) where
  -- `/v1/caches/{id}`
  pub url_path-cache :
      url_path (from_chars (caches_prefix ++ chars cid)) ≡ from_chars (caches_prefix ++ chars cid)
  unfolding Sets.has Char_discrete ℕ_discrete
  url_path-cache =
      url_path_lem (caches_prefix ++ chars cid)
        (Sets.has-append Char_discrete caches_prefix (chars cid) "#" refl plain.no_fragment)
        (Sets.has-append Char_discrete caches_prefix (chars cid) "?" refl plain.no_query)
        (Sets.has-append Char_discrete caches_prefix (chars cid) ";" refl plain.no_params)

  -- `/v1/caches/{id}/{action}`
  pub url_path-action :
      (suffix : Chars)
      → Lacks suffix "#"
      → Lacks suffix "?"
      → Lacks suffix ";"
      → url_path (from_chars (caches_prefix ++ (chars cid ++ suffix)))
        ≡ from_chars (caches_prefix ++ (chars cid ++ suffix))
  unfolding Sets.has Char_discrete ℕ_discrete
  url_path-action suffix f q p =
      url_path_lem (caches_prefix ++ (chars cid ++ suffix))
        (Sets.has-append Char_discrete caches_prefix (chars cid ++ suffix) "#" refl
          (Sets.has-append Char_discrete (chars cid) suffix "#" plain.no_fragment f))
        (Sets.has-append Char_discrete caches_prefix (chars cid ++ suffix) "?" refl
          (Sets.has-append Char_discrete (chars cid) suffix "?" plain.no_query q))
        (Sets.has-append Char_discrete caches_prefix (chars cid ++ suffix) ";" refl
          (Sets.has-append Char_discrete (chars cid) suffix ";" plain.no_params p))

  pub cache_id-cache : cache_id (from_chars (caches_prefix ++ chars cid)) ≡ some cid
  unfolding cache_id
  cache_id-cache =
      ap
        (λ s.
          let rest = drop (length caches_prefix) s in
          if starts_with s caches_prefix && not (Sets.has Char_discrete rest "/")
          then (if is_nil rest then none else some (from_chars rest))
          else none)
        (chars-from_chars (caches_prefix ++ chars cid))
      ∙ rw (starts_with-append caches_prefix (chars cid))
          (rw plain.no_slash (rw plain.nonempty (ap (λ c. some c) (from_chars-chars cid))))

-- A path below the prefix is none of the other paths.
pub below_prefix :
    (s : Chars) (other : String)
    → starts_with (chars other) caches_prefix ≡ false
    → from_chars (caches_prefix ++ s) ≢ other
below_prefix s other h e =
    let found : starts_with (chars other) caches_prefix ≡ true =
      ap (λ p. starts_with (chars p) caches_prefix) (sym e)
      ∙ ap (λ p. starts_with p caches_prefix) (chars-from_chars (caches_prefix ++ s))
      ∙ starts_with-append caches_prefix s in
    ground (arith, sym h ∙ found)

pub between :
    (cid suffix : Chars)
    → slice
        (caches_prefix ++ (cid ++ suffix))
        (length caches_prefix)
        (length (caches_prefix ++ (cid ++ suffix)) - length suffix)
      ≡ cid
between cid suffix =
    ap₂ take (omega (arith, length-append caches_prefix (cid ++ suffix), length-append cid suffix))
      (drop-append caches_prefix (cid ++ suffix))
    ∙ take-append_left cid suffix
