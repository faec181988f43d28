-- ===== src/Tests/Http.antt =====
-- Examples for the control server and its client.
use llmcache.Prelude.{
  ℕ, suc, ◌≡◌, ◌≢◌, refl, ◌⊎◌, String, Bool, true, false, Option, none, some, List, [], ◌∷◌,
  ne_of_false, String_discrete, Bool-cases, ℕ_discrete, arith,
}
use llmcache.Int.{ℤ, pos, ◌+ℤ◌, ◌≤ℤ◌}
use llmcache.Results.{Error, Result, ok, err, cache_expired, key_error, value_error}
use llmcache.Dict
use llmcache.Types.{
  CacheDescriptor, is_expired, chunk_token_ids, token_fingerprint, absorb, to_bytes,
  ChunkKey_discrete,
}
use llmcache.Types.Matching.{fingerprints}
use llmcache.Text.{Char_discrete, chars}
use llmcache.Payload.{KvPayload}
use llmcache.Store.Cpu
use llmcache.Store.Cpu.{Cpu}
use llmcache.Engine.State.{Engine}
use llmcache.Engine.Register.{register}
use llmcache.Engine.Live.{looked}
use llmcache.Control.{
  Body, send, cache, no_cache, gone, refused, descriptor_to_dict, with_cache, mutate, register_body,
  register_cache, decode_payloads, or_default, CacheInfo,
}
use llmcache.Control.Routes
use llmcache.Control.Paths.{IsPlain}
use llmcache.Control.Answers.{with_cache-codes}
use llmcache.Control.Deadlines.{mutate-ttl}
use llmcache.Control.Registrations.{register_cache-with_cache}
use llmcache.Control.Refusals.{register_cache-refused}
use llmcache.Cli.{get, delete, ttl, printed, server_error, disconnected, empty_body, run_command}
use llmcache.Cli.Dispatch.{handle-request_of, IsHandled}
use llmcache.Cli.Effects.{get-delete_command, run_command-ttl}
use llmcache.Tests.Data.{env, hot, engine, tokens, descriptor}
use llmcache.Tests.Engine.{registered, hot-Removes, still_live}

with_cache-codes_example :
    (Dict.get String_discrete registered.descriptors "c" ≡ none
      → (with_cache env hot "c" registered).0 ≡ ok (send 404 (no_cache "c")))
    × ((d : CacheDescriptor)
        → Dict.get String_discrete registered.descriptors "c" ≡ some d
        → (is_expired d none (env.time registered.readings) ≡ false
            → (with_cache env hot "c" registered).0 ≡ ok (send 200 (cache (descriptor_to_dict d))))
          × (is_expired d none (env.time registered.readings) ≡ true
              → ((with_cache env hot "c" registered).0 ≡ ok (send 410 (gone "c")))
                × ((with_cache env hot "c" (with_cache env hot "c" registered).1).0
                    ≡ ok (send 404 (no_cache "c")))))
with_cache-codes_example = with_cache-codes env hot "c" registered hot-Removes

abbrev no_time : Body
no_time = record empty_body { ttl = some (pos 0) }

mutate-ttl_example :
    (let now = env.time (looked env hot descriptor registered).readings in
      let next = env.time (suc (looked env hot descriptor registered).readings) in
      let outcome = (mutate env hot Routes.ttl "c" (ok no_time) registered).0 in
      let d' = record descriptor { expires_at = some (now +ℤ pos 0) } in
      (is_expired d' none next ≡ false → outcome ≡ ok (send 200 (cache (descriptor_to_dict d'))))
      × (is_expired d' none next ≡ true → outcome ≡ err (cache_expired "c"))
      × (pos 0 ≤ℤ pos 0 → now ≤ℤ next → outcome ≡ err (cache_expired "c")))
unfolding Dict.get String_discrete Bool-cases
mutate-ttl_example =
    mutate-ttl env hot "c" no_time (pos 0) registered hot-Removes refl refl still_live

-- base64 is played by a table.
abbrev decode : String → Result (List ℕ)
decode text = llmcache.Prelude.ite (String_discrete text "Bwg=") (ok (7 ∷ 8 ∷ [])) (ok (9 ∷ []))

abbrev posted : Body
posted = record {
  token_ids = some tokens;
  payloads = some ("Bwg=" ∷ "CQ==" ∷ []);
  num_layers = none;
  cache_id = some "c";
  ttl = some (pos 30);
  pin = some true;
  name = none;
}

abbrev after_post : Engine (Cpu × Unit {0})
after_post = (register_cache env hot decode (ok posted) engine).1

posted_created :
    register_cache env hot decode (ok posted) engine
    ≡ (ok (send 201 (cache (descriptor_to_dict descriptor))), after_post)
unfolding register String_discrete Bool-cases Dict.put Dict.get chunk_token_ids fingerprints
    token_fingerprint absorb to_bytes Cpu.put Cpu.backend Cpu.insert Cpu.ensure_room Cpu.evict_loop
    Cpu.drop_existing ChunkKey_discrete ℕ_discrete Dict.move_to_end Dict.remove ◌+ℤ◌
    llmcache.Sets.add register_cache register_body
posted_created = refl

register_cache-with_cache_example :
    (tokens' : List ℤ) × (texts : List String) × (payloads : List KvPayload) × (d : CacheDescriptor)
    × (posted.token_ids ≡ some tokens')
    × (posted.payloads ≡ some texts)
    × (decode_payloads decode (or_default posted.num_layers 1) texts ≡ ok payloads)
    × (descriptor_to_dict descriptor ≡ descriptor_to_dict d)
    × (is_expired d none (env.time after_post.readings) ≡ false
        → (with_cache env hot "c" after_post).0
          ≡ ok (send 200 (cache (descriptor_to_dict descriptor))))
unfolding descriptor_to_dict
register_cache-with_cache_example =
    register_cache-with_cache env hot decode posted engine posted_created

register_cache-refused_example :
    (((info : CacheInfo)
        → (register_cache env hot decode (ok empty_body) engine).0 ≢ ok (send 201 (cache info)))
      → (register_cache env hot decode (ok empty_body) engine).1.descriptors ≡ engine.descriptors)
    × ((x : Error)
        → (register_body env hot decode (ok empty_body) engine).0 ≡ err x
        → (x ≡ key_error) ⊎ (x ≡ value_error)
        → (register_cache env hot decode (ok empty_body) engine).0 ≡ ok (send 400 (refused x)))
register_cache-refused_example = register_cache-refused env hot decode (ok empty_body) engine

abbrev encode : String → String
encode text = text

c-IsPlain : IsPlain "c"
unfolding chars llmcache.Sets.has Char_discrete ℕ_discrete llmcache.Text.all_visible
c-IsPlain = record {
  nonempty = refl;
  no_slash = refl;
  no_query = refl;
  no_fragment = refl;
  no_params = refl;
  visible = refl;
  short = omega arith;
}

handle-request_of_example : IsHandled decode encode env hot (ttl "c" (pos 5))
handle-request_of_example = handle-request_of decode encode env hot (ttl "c" (pos 5)) c-IsPlain

get-delete_command_example :
    (let after = (run_command decode encode env hot (delete "c") registered).1 in
      ((run_command decode encode env hot (get "c") after).0 ≡ server_error 404 (no_cache "c"))
      × ((other : String) (d : CacheDescriptor)
          → IsPlain other
          → other ≢ "c"
          → Dict.get String_discrete registered.descriptors other ≡ some d
          → is_expired d none (env.time after.readings) ≡ false
          → (run_command decode encode env hot (get other) after).0
            ≡ printed (cache (descriptor_to_dict d))))
get-delete_command_example = get-delete_command decode encode env hot "c" registered c-IsPlain

run_command-ttl_example :
    (run_command decode encode env hot (ttl "c" (pos 0)) registered).0 ≡ disconnected
unfolding Dict.get String_discrete Bool-cases
run_command-ttl_example =
    run_command-ttl decode encode env hot "c" (pos 0) registered c-IsPlain hot-Removes refl
      still_live (omega arith) (omega arith)
