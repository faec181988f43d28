-- ===== src/Control/Routes.antt =====
-- src/llmcache/control.py: which handler a request goes to, by its path.
use Prim.Native.Char.{Char}
use llmcache.Prelude.{
  ◌-◌, String, not, ◌&&◌, Option, none, some, List, [], ◌∷◌, length, drop, is_nil, ite,
  if◌then◌else◌,
}
use llmcache.Sets
use llmcache.Text.{Chars, Char_discrete, chars, from_chars, starts_with, ends_with}
use llmcache.Types.{slice}

-- The text up to the first `c`.
unfoldable pub before : Char → Chars → Chars
before c [] = []
before c (d ∷ s) = let rest = before c s in ite (Char_discrete d c) [] (d ∷ rest)

-- Without the parameters of the last segment: up to the first ';' behind the last '/'.
unfoldable pub without_params : Chars → Chars
without_params [] = []
without_params (d ∷ s) =
    let rest = d ∷ without_params s in
    ite (Char_discrete d ";") (if Sets.has Char_discrete s "/" then rest else []) rest

-- `urlparse(target).path`, of a target that begins with one slash
unfoldable pub url_path : String → String
unfolding before without_params
url_path target = from_chars (without_params (before "?" (before "#" (chars target))))

abbrev pub caches_prefix : Chars
caches_prefix = "/" ∷ "v" ∷ "1" ∷ "/" ∷ "c" ∷ "a" ∷ "c" ∷ "h" ∷ "e" ∷ "s" ∷ "/" ∷ []

-- `_cache_id`
unfoldable pub cache_id : String → Option String
cache_id path =
    let rest = drop (length caches_prefix) (chars path) in
    if starts_with (chars path) caches_prefix && not (Sets.has Char_discrete rest "/")
    then (if is_nil rest then none else some (from_chars rest))
    else none

pub data Action : Type 0 where
  pin unpin ttl : Action

abbrev pub suffixes : List (Chars × Action)
suffixes =
    ("/" ∷ "p" ∷ "i" ∷ "n" ∷ [], pin)
    ∷ ("/" ∷ "u" ∷ "n" ∷ "p" ∷ "i" ∷ "n" ∷ [], unpin)
    ∷ ("/" ∷ "t" ∷ "t" ∷ "l" ∷ [], ttl)
    ∷ []

-- The loop of `do_POST`, and `path[len("/v1/caches/") : -len(suffix)]`.
unfoldable pub find_action : Chars → List (Chars × Action) → Option (String × Action)
find_action path [] = none
find_action path ((suffix, action) ∷ rest) =
    if ends_with path suffix && starts_with path caches_prefix
    then some (from_chars (slice path (length caches_prefix) (length path - length suffix)), action)
    else find_action path rest
