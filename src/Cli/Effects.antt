-- ===== src/Cli/Effects.antt =====
-- What the client sees of its commands, through the server.
use llmcache.Prelude.{
  ℕ, suc, ◌≡◌, ◌≢◌, refl, ap, sym, ◌∙◌, String, false, none, some, List, String_discrete, ite,
  if_pos, if_neg,
}
use llmcache.Int.{ℤ, pos, ◌≤ℤ◌}
use llmcache.Results.{Result}
use llmcache.Exec.{continue-keeps, pure}
use llmcache.Types.{CacheDescriptor, is_expired}
use llmcache.Dict
use llmcache.Store.{StorageBackend}
use llmcache.Engine.State.{Env, Engine}
use llmcache.Engine.Lifecycle
use llmcache.Engine.Live.{looked}
use llmcache.Engine.Expiry.{Removes}
use llmcache.Engine.Removal.{get-delete}
use llmcache.Control.{send, cache, no_cache, deleted, descriptor_to_dict, delete_cache, with_cache}
use llmcache.Control.Paths.{IsPlain}
use llmcache.Control.Answers.{with_cache-missing, with_cache-fresh}
use llmcache.Control.Deadlines.{mutate-ttl}
use llmcache.Cli.{
  Command, get, delete, ttl, printed, server_error, disconnected, outcome_of, deliver, run_command,
  empty_body,
}
use llmcache.Cli.Dispatch.{handle-request_of, meaning, IsNameable}

module _ (decode : String → Result (List ℕ)) (encode : String → String) (env : Env) {S : Type 0}
    (store : StorageBackend S) where
  -- A command, by its meaning.
  run-meaning :
      (command : Command) (e : Engine S)
      → IsNameable command
      → run_command decode encode env store command e ≡ (
        outcome_of (meaning decode encode env store command e).0,
        (meaning decode encode env store command e).1,
      )
  unfolding run_command deliver
  run-meaning command e h =
      let (r, found, handled) = handle-request_of decode encode env store command h in
      ap (λ o. deliver decode encode env store o e) found
      ∙ ap (λ m. (outcome_of (m e).0, (m e).1)) handled

  -- Of cache ids that are not empty, of at most 65000 printable ASCII characters other than the
  -- blank and than those that end a path or a segment of it: after `llmcache delete` of a cache,
  -- however that ends, and even if the store raises, `llmcache get` of it exits with the server's
  -- error 404; and `llmcache get` of another cache that is stored and not past its deadline prints
  -- its dictionary.
  pub get-delete_command :
      (cid : String) (e : Engine S)
      → IsPlain cid
      → (let after = (run_command decode encode env store (delete cid) e).1 in
          ((run_command decode encode env store (get cid) after).0
            ≡ server_error 404 (no_cache cid))
          × ((other : String) (d : CacheDescriptor)
              → IsPlain other
              → other ≢ cid
              → Dict.get String_discrete e.descriptors other ≡ some d
              → is_expired d none (env.time after.readings) ≡ false
              → (run_command decode encode env store (get other) after).0
                ≡ printed (cache (descriptor_to_dict d))))
  unfolding outcome_of meaning delete_cache
  get-delete_command cid e plain = (
    answer cid plain
        ∙ ap (λ q. outcome_of q.0)
            (with_cache-missing env store cid after
              (left cid ∙ if_pos (String_discrete cid cid) refl none _)),
    λ other d named ne found fresh.
        answer other named
        ∙ ap (λ q. outcome_of q.0)
            (with_cache-fresh env store other after
              (left other
                ∙ if_neg (String_discrete cid other) (λ same. ne (sym same)) none _
                ∙ found)
              fresh),
  )
    where
      after : Engine S
      after = (run_command decode encode env store (delete cid) e).1

      deleted_state : after ≡ (Lifecycle.delete env store cid e).1
      deleted_state =
          ap (λ q. q.1) (run-meaning (delete cid) e plain)
          ∙ continue-keeps (λ (t : Engine S). t ≡ (Lifecycle.delete env store cid e).1)
              (Lifecycle.delete env store cid e).0 (λ _. pure (send 200 (deleted cid)))
              (Lifecycle.delete env store cid e).1 refl λ _. refl

      left :
          (c : String)
          → Dict.get String_discrete after.descriptors c
            ≡ ite (String_discrete cid c) none (Dict.get String_discrete e.descriptors c)
      left c =
          ap (λ (t : Engine S). Dict.get String_discrete t.descriptors c) deleted_state
          ∙ get-delete env store cid c e

      answer :
          (c : String)
          → IsPlain c
          → (run_command decode encode env store (get c) after).0
            ≡ outcome_of (with_cache env store c after).0
      answer c named = ap (λ q. q.0) (run-meaning (get c) after named)

  -- `llmcache ttl` with 0 or less seconds, of a cache that is stored and not past its deadline,
  -- ends in a closed connection, if the clock does not go back and the store's `remove` does not
  -- raise: the handler looks for the cache that it has just let expire.
  pub run_command-ttl :
      (cid : String) (seconds : ℤ) (e : Engine S) {d : CacheDescriptor}
      → IsPlain cid
      → Removes env store
      → Dict.get String_discrete e.descriptors cid ≡ some d
      → is_expired d none (env.time e.readings) ≡ false
      → seconds ≤ℤ pos 0
      → env.time (looked env store d e).readings ≤ℤ env.time (suc (looked env store d e).readings)
      → (run_command decode encode env store (ttl cid seconds) e).0 ≡ disconnected
  unfolding outcome_of meaning
  run_command-ttl cid seconds e plain removes found fresh h k =
      ap (λ q. q.0) (run-meaning (ttl cid seconds) e plain)
      ∙ ap outcome_of (
          (mutate-ttl env store cid (record empty_body { ttl = some seconds }) seconds e removes
              refl found fresh).2
            h k)
