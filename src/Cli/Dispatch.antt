-- ===== src/Cli/Dispatch.antt =====
-- Each command of the client reaches the handler that it is meant for.
use llmcache.Prelude.{
  ℕ, ◌≡◌, refl, ap, ◌∙◌, String, true, false, some, List, ◌++◌, ite, if_neg, String_discrete,
  ℕ_discrete, Bool-cases,
}
use llmcache.Results.{Result, ok}
use llmcache.Exec.{Exec, pure}
use llmcache.Text.{
  Chars, chars, from_chars, starts_with, Char_discrete, all_visible, is_blank, strip_end,
  split_last,
}
use llmcache.Text.Laws.{chars-from_chars}
use llmcache.Text.Visible.{all_visible-append, strip_end_lem, split_last_absent}
use llmcache.Sets
use llmcache.Store.{StorageBackend}
use llmcache.Engine.State.{Env, Engine}
use llmcache.Control.{
  Request, Response, Body, send, healthy, send_stats, send_caches, with_cache, get_cache, mutate,
  mutate_cache, delete_cache, register_cache, do_get, do_post, do_delete, handle,
}
use llmcache.Control.Routes
use llmcache.Control.Routes.{caches_prefix, Action, url_path, find_action, suffixes}
use llmcache.Control.Paths.{IsPlain, url_path-cache, url_path-action, cache_id-cache, below_prefix}
use llmcache.Control.Actions.{
  find_action-pin, find_action-unpin, find_action-ttl, pin_suffix, unpin_suffix, ttl_suffix,
}
use llmcache.Cli.{
  Command, list, stats, get, pin, unpin, delete, ttl, register, empty_body, spec_body, request_of,
  cache_path, action_path, sent, request, request_to,
}

-- The command's cache id, if it has one, can stand in a path.
abbrev pub IsNameable : Command → Type 0
IsNameable list = Unit
IsNameable stats = Unit
IsNameable (get cid) = IsPlain cid
IsNameable (pin cid) = IsPlain cid
IsNameable (unpin cid) = IsPlain cid
IsNameable (delete cid) = IsPlain cid
IsNameable (ttl cid seconds) = IsPlain cid
IsNameable (register spec) = Unit

skip_route :
    {A : Type 0} (cid name : String) (a b : A)
    → starts_with (chars name) caches_prefix ≡ false
    → ite (String_discrete (cache_path cid) name) a b ≡ b
skip_route cid name a b h =
    if_neg (String_discrete (cache_path cid) name) (below_prefix (chars cid) name h) a b

taken :
    (method path : String) (body : Body)
    → sent path ≡ some path
    → request method path body ≡ some (record { method = method; target = path; body = ok body })
taken method path body h = ap (request_to method body) h

-- A text that urllib sends as it is.
sent_lem :
    (s : Chars)
    → Sets.has Char_discrete s "#" ≡ false
    → all_visible s ≡ true
    → sent (from_chars s) ≡ some (from_chars s)
unfolding sent
sent_lem s no_fragment visible =
    rw (chars-from_chars s)
      (rw (strip_end_lem s visible) (rw (split_last_absent "#" s no_fragment) (rw visible refl)))

module _ (cid : String) (plain : IsPlain cid) where
  sent-cache : sent (cache_path cid) ≡ some (cache_path cid)
  unfolding Sets.has Char_discrete ℕ_discrete all_visible
  sent-cache =
      sent_lem (caches_prefix ++ chars cid)
        (Sets.has-append Char_discrete caches_prefix (chars cid) "#" refl plain.no_fragment)
        (all_visible-append caches_prefix (chars cid) refl plain.visible)

  sent-action :
      (suffix : Chars)
      → Sets.has Char_discrete suffix "#" ≡ false
      → all_visible suffix ≡ true
      → sent (action_path cid suffix) ≡ some (action_path cid suffix)
  unfolding Sets.has Char_discrete ℕ_discrete all_visible
  sent-action suffix f v =
      sent_lem (caches_prefix ++ (chars cid ++ suffix))
        (Sets.has-append Char_discrete caches_prefix (chars cid ++ suffix) "#" refl
          (Sets.has-append Char_discrete (chars cid) suffix "#" plain.no_fragment f))
        (all_visible-append caches_prefix (chars cid ++ suffix) refl
          (all_visible-append (chars cid) suffix plain.visible v))

module _ (decode : String → Result (List ℕ)) (encode : String → String) (env : Env) {S : Type 0}
    (store : StorageBackend S) where
  -- What the server is to do for a command, said without paths.
  unfoldable pub meaning : Command → Exec (Engine S) Response
  meaning list = send_caches env store
  meaning stats = send_stats env store
  meaning (get cid) = with_cache env store cid
  meaning (pin cid) = mutate env store Routes.pin cid (ok empty_body)
  meaning (unpin cid) = mutate env store Routes.unpin cid (ok empty_body)
  meaning (ttl cid seconds) =
      mutate env store Routes.ttl cid (ok (record empty_body { ttl = some seconds }))
  meaning (delete cid) = delete_cache env store (some cid)
  meaning (register spec) = register_cache env store decode (ok (spec_body encode spec))

  do_get-cache :
      (cid : String)
      → IsPlain cid
      → do_get env store (url_path (cache_path cid)) ≡ with_cache env store cid
  unfolding do_get get_cache starts_with chars Char_discrete ℕ_discrete
  do_get-cache cid plain =
      ap (do_get env store) (url_path-cache cid plain)
      ∙ skip_route cid "/healthz" (pure (send 200 healthy)) _ refl
      ∙ skip_route cid "/v1/stats" (send_stats env store) _ refl
      ∙ skip_route cid "/v1/caches" (send_caches env store) _ refl
      ∙ ap (get_cache env store) (cache_id-cache cid plain)

  do_delete-cache :
      (cid : String)
      → IsPlain cid
      → do_delete env store (url_path (cache_path cid)) ≡ delete_cache env store (some cid)
  unfolding do_delete
  do_delete-cache cid plain =
      ap (do_delete env store) (url_path-cache cid plain)
      ∙ ap (delete_cache env store) (cache_id-cache cid plain)

  do_post-action :
      (cid : String) (suffix : Chars) (action : Action) (body : Result Body)
      → url_path (action_path cid suffix) ≡ action_path cid suffix
      → find_action (chars (action_path cid suffix)) suffixes ≡ some (cid, action)
      → do_post env store decode (url_path (action_path cid suffix)) body
        ≡ mutate env store action cid body
  unfolding do_post mutate_cache starts_with chars Char_discrete ℕ_discrete
  do_post-action cid suffix action body e h =
      ap (λ path. do_post env store decode path body) e
      ∙ if_neg (String_discrete (action_path cid suffix) "/v1/caches")
          (below_prefix (chars cid ++ suffix) "/v1/caches" refl) _ _
      ∙ ap (mutate_cache env store decode body) h

  -- What reaches the server of a command, and that it is handled as the command means.
  abbrev pub IsHandled : Command → Type 0
  IsHandled command =
      (r : Request) × (request_of encode command ≡ some r)
      × (handle env store decode r ≡ meaning command)

  -- Each command of the client has the effect and the answer that it names: a request is sent, and
  -- it reaches the handler of its action with its own cache id and document, provided that the id
  -- is not empty, has only printable ASCII characters other than the blank and none of those that
  -- end a path or a segment of it, and has no more than 65000 of them.
  pub handle-request_of : (command : Command) → IsNameable command → IsHandled command
  unfolding handle request_of meaning String_discrete Bool-cases chars Char_discrete ℕ_discrete
      Sets.has sent strip_end split_last all_visible is_blank
  handle-request_of list h = (_, refl, refl)
  handle-request_of stats h = (_, refl, refl)
  handle-request_of (get cid) plain =
      (_, taken "GET" (cache_path cid) empty_body (sent-cache cid plain), do_get-cache cid plain)
  handle-request_of (pin cid) plain = (
    _,
    taken "POST" (action_path cid pin_suffix) empty_body
        (sent-action cid plain pin_suffix refl refl),
    do_post-action cid pin_suffix Routes.pin (ok empty_body)
        (url_path-action cid plain pin_suffix refl refl refl) (find_action-pin cid),
  )
  handle-request_of (unpin cid) plain = (
    _,
    taken "POST" (action_path cid unpin_suffix) empty_body
        (sent-action cid plain unpin_suffix refl refl),
    do_post-action cid unpin_suffix Routes.unpin (ok empty_body)
        (url_path-action cid plain unpin_suffix refl refl refl) (find_action-unpin cid),
  )
  handle-request_of (delete cid) plain = (
    _,
    taken "DELETE" (cache_path cid) empty_body (sent-cache cid plain),
    do_delete-cache cid plain,
  )
  handle-request_of (ttl cid seconds) plain = (
    _,
    taken "POST" (action_path cid ttl_suffix) (record empty_body { ttl = some seconds })
        (sent-action cid plain ttl_suffix refl refl),
    do_post-action cid ttl_suffix Routes.ttl (ok (record empty_body { ttl = some seconds }))
        (url_path-action cid plain ttl_suffix refl refl refl) (find_action-ttl cid),
  )
  handle-request_of (register spec) h = (_, refl, refl)
