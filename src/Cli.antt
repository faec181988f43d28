-- ===== src/Cli.antt =====
-- src/llmcache/cli.py: the client's commands, as the requests that they send and what becomes of
-- the answers, and the store that `serve` builds. The grammar of argparse is not modelled: a
-- command stands for the namespace that it parses to. `json` and the sockets of urllib are left
-- out.
pub mod Dispatch
pub mod Effects
use llmcache.Prelude.{
  ℕ, String, Bool, true, false, Option, none, some, List, [], ◌∷◌, ◌++◌, map, leb, ltb, ite,
  if◌then◌else◌, String_discrete,
}
use llmcache.Int.{ℤ}
use llmcache.Results.{Error, Result, ok, err, value_error, system_exit, ◌>>=◌}
use llmcache.Exec.{Exec}
use llmcache.Text.{Chars, chars, from_chars, strip_end, split_last, all_visible}
use llmcache.Store.{StorageBackend}
use llmcache.Engine.State.{Env, Engine}
use llmcache.Engine.Register
use llmcache.Control
use llmcache.Control.{Reply, Response, Body, Request}
use llmcache.Control.Routes.{caches_prefix}
use llmcache.Control.Actions.{pin_suffix, unpin_suffix, ttl_suffix}

-- The JSON document of the file that `register` names.
pub record Spec : Type 0 where
  pub body : Body
  pub payload_bytes : Option (List String)

pub data Command : Type 0 where
  list stats : Command
  get pin unpin delete : String → Command
  ttl : String → ℤ → Command
  register : Spec → Command

abbrev pub empty_body : Body
empty_body = record {
  token_ids = none;
  payloads = none;
  num_layers = none;
  cache_id = none;
  ttl = none;
  pin = none;
  name = none;
}

abbrev pub front_of : Chars → Option (Chars × Chars) → Chars
front_of url none = url
front_of url (some (front, fragment)) = front

-- What urllib makes of a path behind the server's name: it strips blanks at the end, leaves out the
-- last fragment, and raises `UnicodeEncodeError` or `InvalidURL` for what is not printable ASCII.
unfoldable pub sent : String → Option String
unfolding strip_end split_last all_visible
sent path =
    let url = strip_end (chars path) in
    let target = front_of url (split_last "#" url) in
    if all_visible target then some (from_chars target) else none

abbrev pub request_to : String → Body → Option String → Option Request
request_to method body none = none
request_to method body (some target) =
    some (record { method = method; target = target; body = ok body })

-- What `_request` sends, to the server's root, if urllib takes the path.
abbrev pub request : String → String → Body → Option Request
request method path body = request_to method body (sent path)

-- f"/v1/caches/{cache_id}"
abbrev pub cache_path : String → String
cache_path cid = from_chars (caches_prefix ++ chars cid)

abbrev pub action_path : String → Chars → String
action_path cid suffix = from_chars (caches_prefix ++ (chars cid ++ suffix))

-- `base64.b64encode(p.encode()).decode()` is a parameter.
module _ (encode : String → String) where
  -- `if "payloads" not in spec and "payload_bytes" in spec`
  unfoldable pub with_payloads : Option (List String) → Option (List String) → Option (List String)
  with_payloads (some payloads) _ = some payloads
  with_payloads none none = none
  with_payloads none (some texts) = some (map encode texts)

  unfoldable pub spec_body : Spec → Body
  unfolding with_payloads
  spec_body spec = record spec.body {
    payloads = with_payloads spec.body.payloads spec.payload_bytes;
  }

  -- The requests of `_cmd_list` and the others.
  unfoldable pub request_of : Command → Option Request
  unfolding spec_body sent
  request_of list = request "GET" "/v1/caches" empty_body
  request_of (get cid) = request "GET" (cache_path cid) empty_body
  request_of (pin cid) = request "POST" (action_path cid pin_suffix) empty_body
  request_of (unpin cid) = request "POST" (action_path cid unpin_suffix) empty_body
  request_of (ttl cid seconds) =
      request "POST" (action_path cid ttl_suffix) (record empty_body { ttl = some seconds })
  request_of (delete cid) = request "DELETE" (cache_path cid) empty_body
  request_of stats = request "GET" "/v1/stats" empty_body
  request_of (register spec) = request "POST" "/v1/caches" (spec_body spec)

-- How a command ends: it prints the document, exits with the server's error, finds the connection
-- closed since an exception has left the handler, or ends in an exception before anything is sent.
pub data Outcome : Type 0 where
  printed : Reply → Outcome
  server_error : ℕ → Reply → Outcome
  disconnected : Outcome
  unsent : Outcome

-- `_request`, of the server's answer: urllib raises `HTTPError` for a code outside 200 to 299.
unfoldable pub outcome_of : Result Response → Outcome
outcome_of (ok response) =
    if leb 200 response.code
    then (if ltb response.code 300
        then printed response.reply
        else server_error response.code response.reply)
    else server_error response.code response.reply
outcome_of (err x) = disconnected

module _ (decode : String → Result (List ℕ)) (encode : String → String) (env : Env) {S : Type 0}
    (store : StorageBackend S) where
  -- A request and the server that answers it.
  unfoldable pub deliver : Option Request → Engine S → Outcome × Engine S
  unfolding outcome_of
  deliver none e = (unsent, e)
  deliver (some request) e =
      let r = Control.handle env store decode request e in (outcome_of r.0, r.1)

  -- A client's command.
  unfoldable pub run_command : Command → Engine S → Outcome × Engine S
  unfolding request_of deliver
  run_command command e = deliver (request_of encode command) e

-- `--store` and the options of the stores.
pub record StoreArgs : Type 0 where
  pub store : String
  pub capacity_bytes : Option ℕ
  pub disk_path : String
  pub redis_url : Option String
  pub redis_ttl : Option ℕ

-- The defaults of `build_parser`.
abbrev pub default_store_args : StoreArgs
default_store_args = record {
  store = "cpu";
  capacity_bytes = none;
  disk_path = "/tmp/llmcache";
  redis_url = none;
  redis_ttl = none;
}

pub data StorePlan : Type 0 where
  cpu_store : Option ℕ → StorePlan
  disk_store : String → StorePlan
  redis_store : String → Option ℕ → StorePlan
  tiered_store : Option ℕ → StorePlan → StorePlan

-- `RedisBackend(url=url, key_ttl=key_ttl)` raises ValueError without a url.
unfoldable pub redis_plan : Option String → Option ℕ → Result StorePlan
redis_plan none key_ttl = err value_error
redis_plan (some url) key_ttl = ok (redis_store url key_ttl)

-- `if args.redis_url`: a url that is there and not empty
unfoldable pub cold_plan : Option String → StoreArgs → Result StorePlan
unfolding redis_plan
cold_plan none args = ok (disk_store args.disk_path)
cold_plan (some url) args =
    ite (String_discrete url "") (ok (disk_store args.disk_path))
      (redis_plan (some url) args.redis_ttl)

-- `_build_store`
unfoldable pub build_store : StoreArgs → Result StorePlan
unfolding cold_plan
build_store args = ite (String_discrete args.store "cpu") (ok (cpu_store args.capacity_bytes)) (
    ite (String_discrete args.store "disk") (ok (disk_store args.disk_path)) (
      ite (String_discrete args.store "redis") (redis_plan args.redis_url args.redis_ttl) (
        ite (String_discrete args.store "tiered")
          (cold_plan args.redis_url args >>= λ cold. ok (tiered_store args.capacity_bytes cold))
          (err system_exit))))

-- `_cmd_serve`, up to the server: the plan of the store, and the engine over it.
unfoldable pub serve : {S : Type 0} → (StorePlan → S) → StoreArgs → ℕ → Option ℤ → Result (Engine S)
unfolding build_store
serve open_store args chunk_size default_ttl =
    build_store args >>= λ plan. Register.init (open_store plan) chunk_size default_ttl
