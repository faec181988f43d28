-- ===== src/Connectors/Vllm/Matched.antt =====
-- The scheduler's side of src/llmcache/connectors/vllm.py: the number of tokens that it reports as
-- available for a request.
use llmcache.Prelude.{
  arith, ℕ, ◌-◌, ◌≡◌, ◌≤◌, ap, ap₂, sym, ◌∙◌, String, Bool, false, Option, some, List, length, take,
  ◌⊎◌, inl, inr, String_discrete, if◌then◌else◌,
}
use llmcache.Int.{ℤ}
use llmcache.Results.{Result, ok}
use llmcache.Exec.{pure, continue, bind-eq-ok}
use llmcache.Dict
use llmcache.Store.{StorageBackend}
use llmcache.Types.{CacheDescriptor}
use llmcache.Types.Matching.{Collision}
use llmcache.Engine.State.{Env, Engine}
use llmcache.Engine.Register.{Payloads, normalize_payloads, register}
use llmcache.Engine.Registered.{register-IsRegistered}
use llmcache.Engine.Roundtrip.{registered-get}
use llmcache.Engine.Lifecycle.{lookup}
use llmcache.Engine.Live.{Lasts, looked, looked-descriptors, exists_of_found}
use llmcache.Engine.Hits.{registered-IsHit}
use llmcache.Connectors.Bridge.{on_engine}
use llmcache.Connectors.Vllm.{
  Request, Connector, on_bridge, truthy, xfer_params, prompt_tokens, new_matched,
  get_num_new_matched_tokens,
}

-- The tokens that are reported, when `computed` tokens of the prompt are there already.
pub record IsReported (prompt tokens : List ℤ) (computed : ℕ) (answer : ℕ × Bool) : Type 0 where
  pub covered : ℕ
  pub shared : take covered prompt ≡ take covered tokens
  pub available : covered ≤ length prompt
  pub remaining : answer.0 ≡ covered - computed
  pub synchronous : answer.1 ≡ false

module _ {S T : Type 0} (env : Env) (store : StorageBackend S) where
  asked_of_found :
      (r : Request) (computed : ℕ) (c : Connector S T) {cid : String} {d : CacheDescriptor}
      → truthy (xfer_params r).cache_id ≡ some cid
      → Dict.get String_discrete ((c.bridge).engine).descriptors cid ≡ some d
      → Lasts env store d
      → get_num_new_matched_tokens env store r computed c
        ≡ new_matched env store r cid computed (record c {
          bridge = record c.bridge { engine = looked env store d (c.bridge).engine };
        })
  unfolding get_num_new_matched_tokens
  asked_of_found r computed c {cid} {d} named found lasts =
      rw (named, get_num_new_matched_tokens)
        (ap
          (λ (x : Result Bool × Engine S).
            continue x.0
              (λ found. if found then new_matched env store r cid computed else pure (0, false))
              (record c { bridge = record c.bridge { engine = x.1 } }))
          (exists_of_found env store cid (c.bridge).engine found lasts))

  -- Whatever the store does: when tokens have been registered and the descriptor never expires by
  -- the clock, what `get_num_new_matched_tokens` answers for a request that names this cache is
  -- what remains, beyond the `computed` tokens, of a run that the request's prompt shares with the
  -- registered tokens and has in full, and the load is not asynchronous. The only other case is a
  -- collision of the digest.
  pub get_num_new_matched_tokens-IsReported :
      (tokens : List ℤ) (payloads : Payloads) (cid : Option String) (ttl : Option ℤ) (p : Bool)
      (name : Option String) (e : Engine S) (r : Request) (computed : ℕ) (c : Connector S T)
      {d : CacheDescriptor} {answer : ℕ × Bool} {c' : Connector S T}
      → register env store tokens payloads cid ttl p name e ≡ (ok d, (c.bridge).engine)
      → Lasts env store d
      → truthy (xfer_params r).cache_id ≡ some d.cache_id
      → get_num_new_matched_tokens env store r computed c ≡ (ok answer, c')
      → IsReported (prompt_tokens r) tokens computed answer ⊎ Collision env.digest
  unfolding new_matched
  get_num_new_matched_tokens-IsReported tokens payloads cid ttl p name e r computed c {d} {answer}
        {c'} h lasts named answered =
      let workers = normalize_payloads payloads in
      let b = c.bridge in
      let t = looked env store d b.engine in
      let c1 = record c { bridge = record b { engine = t } } in
      let g = register-IsRegistered env store payloads cid ttl p name tokens e h in
      let found = registered-get env store tokens workers ttl p e g in
      let again =
        ap (λ x. Dict.get String_discrete x d.cache_id) (looked-descriptors env store d b.engine)
        ∙ found in
      let m = lookup env store d.cache_id (some (prompt_tokens r)) in
      let (result, c2, asked, last) =
        bind-eq-ok (on_bridge (on_engine m)) (λ result. pure (result.num_tokens - computed, false))
          c1 (sym (asked_of_found r computed c named found lasts) ∙ answered) in
      let ran : m t ≡ (ok result, (c2.bridge).engine) =
        ap₂ (λ x y. (x, y)) (ap (λ x. x.0) asked) (ap (λ x. x.1.bridge.engine) asked) in
      elim (registered-IsHit env store tokens (prompt_tokens r) workers ttl p e t g again
        (lasts t.readings) ran) [
          | inr col ↦ inr col
          | inl hit ↦ inl (record {
            covered = result.num_tokens;
            shared = hit.covered;
            available = hit.available;
            remaining = ground arith;
            synchronous = ground arith;
          })
        ]
