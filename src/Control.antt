-- ===== src/Control.antt =====
-- src/llmcache/control.py: the handlers of the HTTP server. A handler's result is its response, or
-- the exception that leaves it. The sockets, and the threads of `ControlServer`, are not modelled.
pub mod Routes
pub mod Paths
pub mod Actions
pub mod Answers
pub mod Deadlines
pub mod Registrations
pub mod Refusals
use llmcache.Prelude.{
  ℕ, String, Bool, true, false, Option, none, some, List, [], ◌∷◌, map, length, ite,
  String_discrete,
}
use llmcache.Int.{ℤ}
use llmcache.Results.{
  Error, Result, ok, err, cache_not_found, cache_expired, key_error, value_error,
}
use llmcache.Exec.{Exec, pure, raise, lift, gets, ◌>>=◌, ◌>>◌}
use llmcache.Text.{chars}
use llmcache.Types.{CacheDescriptor, num_chunks}
use llmcache.Payload.{KvPayload, end}
use llmcache.Dict
use llmcache.Store.{StorageBackend, StoreStats}
use llmcache.Engine.State.{Env, Engine}
use llmcache.Engine.Register.{Payloads, single, register}
use llmcache.Engine.Lifecycle
use llmcache.Engine.Lifecycle.{extend_ttl, delete, list, stats}
use llmcache.Control.Routes.{Action, pin, unpin, ttl, url_path, cache_id, suffixes, find_action}

-- `descriptor_to_dict`
pub record CacheInfo : Type 0 where
  pub cache_id : String
  pub name : Option String
  pub num_tokens : ℕ
  pub num_chunks : ℕ
  pub chunk_size : ℕ
  pub num_layers : ℕ
  pub worker_ids : List ℕ
  pub pinned : Bool
  pub created_at : ℤ
  pub expires_at : Option ℤ
  pub hits : ℕ
  pub last_used_at : Option ℤ

unfoldable pub descriptor_to_dict : CacheDescriptor → CacheInfo
descriptor_to_dict d = record {
  cache_id = d.cache_id;
  name = d.name;
  num_tokens = d.num_tokens;
  num_chunks = num_chunks d;
  chunk_size = d.chunk_size;
  num_layers = d.num_layers;
  worker_ids = d.worker_ids;
  pinned = d.pinned;
  created_at = d.created_at;
  expires_at = d.expires_at;
  hits = d.hits;
  last_used_at = d.last_used_at;
}

-- The JSON documents that are sent. `no_cache` and `gone` stand for the messages about a cache id,
-- `refused` for the message of an exception.
pub data Reply : Type 0 where
  healthy : Reply
  store_stats : StoreStats → ℕ → Reply
  caches : List CacheInfo → Reply
  cache : CacheInfo → Reply
  deleted : String → Reply
  no_route : Reply
  no_cache : String → Reply
  gone : String → Reply
  refused : Error → Reply

pub record Response : Type 0 where
  pub code : ℕ
  pub reply : Reply

-- `_send`
abbrev pub send : ℕ → Reply → Response
send code reply = record { code = code; reply = reply }

-- A request's JSON document: the entries that the handlers read, where they are there and have
-- the types that the module's comment gives them. An empty body is the empty document.
pub record Body : Type 0 where
  pub token_ids : Option (List ℤ)
  pub payloads : Option (List String)
  pub num_layers : Option ℕ
  pub cache_id : Option String
  pub ttl : Option ℤ
  pub pin : Option Bool
  pub name : Option String

-- `body` is what `_read_json` returns or raises.
pub record Request : Type 0 where
  pub method : String
  pub target : String
  pub body : Result Body

-- `body[name]`, and `body.get(name, default)`
abbrev pub required {ℓ} : {A : Type ℓ} → Option A → Result A
required none = err key_error
required (some a) = ok a

abbrev pub or_default {ℓ} : {A : Type ℓ} → Option A → A → A
or_default none default = default
or_default (some a) default = a

-- `try: m except ...`: what is done with the outcome.
abbrev pub on_outcome : {S A B : Type 0} → Exec S A → (Result A → Exec S B) → Exec S B
on_outcome m handle s = handle (m s).0 (m s).1

-- `base64.b64decode` is a parameter. The comprehension over `body["payloads"]`.
unfoldable pub decode_payloads :
    (String → Result (List ℕ)) → ℕ → List String → Result (List KvPayload)
decode_payloads decode layers [] = ok []
decode_payloads decode layers (text ∷ texts) = llmcache.Results.◌>>=◌ (decode text) λ bytes.
    llmcache.Results.◌>>=◌ (decode_payloads decode layers texts) λ rest. ok (
      record { bytes = bytes; num_tokens = 0; num_layers = layers; fmt = "raw"; meta = end } ∷ rest)

module _ (env : Env) {S : Type 0} (store : StorageBackend S) where
  -- `except CacheNotFoundError` and `except CacheExpiredError`
  unfoldable pub cache_error_reply : String → Error → Exec (Engine S) Response
  cache_error_reply cid (cache_not_found _) = pure (send 404 (no_cache cid))
  cache_error_reply cid (cache_expired _) = pure (send 410 (gone cid))
  cache_error_reply cid x = raise x

  unfoldable pub cache_reply : String → Result CacheDescriptor → Exec (Engine S) Response
  unfolding cache_error_reply descriptor_to_dict
  cache_reply cid (ok d) = pure (send 200 (cache (descriptor_to_dict d)))
  cache_reply cid (err x) = cache_error_reply cid x

  -- `_with_cache`, with the function that `do_GET` gives it
  unfoldable pub with_cache : String → Exec (Engine S) Response
  unfolding cache_reply
  with_cache cid = on_outcome (Lifecycle.get env store cid) (cache_reply cid)

  unfoldable pub send_stats : Exec (Engine S) Response
  send_stats = do
    s ← stats env store
    ds ← list env store
    pure (send 200 (store_stats s (length ds)))

  unfoldable pub send_caches : Exec (Engine S) Response
  unfolding descriptor_to_dict
  send_caches = do ds ← list env store; pure (send 200 (caches (map descriptor_to_dict ds)))

  -- The end of `do_GET`
  unfoldable pub get_cache : Option String → Exec (Engine S) Response
  unfolding with_cache
  get_cache (some cid) = with_cache cid
  get_cache none = pure (send 404 no_route)

  unfoldable pub do_get : String → Exec (Engine S) Response
  unfolding send_stats send_caches get_cache cache_id
  do_get path = ite (String_discrete path "/healthz") (pure (send 200 healthy)) (
      ite (String_discrete path "/v1/stats") send_stats
        (ite (String_discrete path "/v1/caches") send_caches (get_cache (cache_id path))))

  -- The `try` block of `_mutate`.
  unfoldable pub act : Action → String → Result Body → Exec (Engine S) (Unit {0})
  act pin cid body = Lifecycle.pin env store cid
  act unpin cid body = Lifecycle.unpin env store cid
  act ttl cid body = do
    document ← lift body
    seconds ← lift (required document.ttl)
    _ ← extend_ttl env store cid seconds
    pure tt

  -- The handlers of `_mutate`, and what follows the `try`.
  unfoldable pub mutate_reply : String → Result (Unit {0}) → Exec (Engine S) Response
  unfolding cache_error_reply descriptor_to_dict
  mutate_reply cid (ok _) =
      Lifecycle.get env store cid >>= λ d. pure (send 200 (cache (descriptor_to_dict d)))
  mutate_reply cid (err key_error) = pure (send 400 (refused key_error))
  mutate_reply cid (err value_error) = pure (send 400 (refused value_error))
  mutate_reply cid (err x) = cache_error_reply cid x

  unfoldable pub mutate : Action → String → Result Body → Exec (Engine S) Response
  unfolding act mutate_reply
  mutate action cid body = on_outcome (act action cid body) (mutate_reply cid)

  unfoldable pub delete_cache : Option String → Exec (Engine S) Response
  delete_cache none = pure (send 404 no_route)
  delete_cache (some cid) = delete env store cid >> pure (send 200 (deleted cid))

  unfoldable pub do_delete : String → Exec (Engine S) Response
  unfolding cache_id delete_cache
  do_delete path = delete_cache (cache_id path)

  module _ (decode : String → Result (List ℕ)) where
    -- The `try` block of `_register`.
    unfoldable pub register_body : Result Body → Exec (Engine S) CacheDescriptor
    unfolding decode_payloads
    register_body body = do
      document ← lift body
      token_ids ← lift (required document.token_ids)
      texts ← lift (required document.payloads)
      payloads ← lift (decode_payloads decode (or_default document.num_layers 1) texts)
      register env store token_ids (single payloads) document.cache_id document.ttl
          (or_default document.pin false) document.name

    unfoldable pub register_reply : Result CacheDescriptor → Exec (Engine S) Response
    unfolding descriptor_to_dict
    register_reply (ok d) = pure (send 201 (cache (descriptor_to_dict d)))
    register_reply (err key_error) = pure (send 400 (refused key_error))
    register_reply (err value_error) = pure (send 400 (refused value_error))
    register_reply (err x) = raise x

    -- `_register`
    unfoldable pub register_cache : Result Body → Exec (Engine S) Response
    unfolding register_body register_reply
    register_cache body = on_outcome (register_body body) register_reply

    unfoldable pub mutate_cache : Result Body → Option (String × Action) → Exec (Engine S) Response
    unfolding mutate
    mutate_cache body (some (cid, action)) = mutate action cid body
    mutate_cache body none = pure (send 404 no_route)

    unfoldable pub do_post : String → Result Body → Exec (Engine S) Response
    unfolding register_cache mutate_cache find_action
    do_post path body =
        ite (String_discrete path "/v1/caches") (register_cache body)
          (mutate_cache body (find_action (chars path) suffixes))

    -- The server's dispatch on the method; it answers 501 to any other.
    unfoldable pub handle : Request → Exec (Engine S) Response
    unfolding do_get do_post do_delete url_path
    handle request = ite (String_discrete request.method "GET") (do_get (url_path request.target)) (
        ite (String_discrete request.method "POST") (do_post (url_path request.target) request.body)
          (ite (String_discrete request.method "DELETE") (do_delete (url_path request.target))
            (pure (send 501 no_route))))
