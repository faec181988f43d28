-- ===== src/Control/Registrations.antt =====
-- `POST /v1/caches`: what a 201 leaves behind, and that nothing is registered otherwise.
use llmcache.Prelude.{
  ℕ, ◌≡◌, refl, ap, sym, ◌∙◌, String, Bool, false, Option, none, some, List, arith, String_discrete,
  if_pos,
}
use llmcache.Int.{ℤ}
use llmcache.Results.{
  Result, ok, err, cache_error, cache_not_found, cache_expired, cache_mismatch, storage_full,
  serialization_error, connector_error, value_error, key_error, type_error, system_exit,
  overflow_error, runtime_error, zero_division_error,
}
use llmcache.Exec.{continue, continue-eq-ok}
use llmcache.Types.{CacheDescriptor, is_expired}
use llmcache.Payload.{KvPayload}
use llmcache.Dict
use llmcache.Dict.{Dict}
use llmcache.Store.{StorageBackend}
use llmcache.Engine.State.{Env, Engine}
use llmcache.Engine.Register.{Payloads, single, register, save_descriptor}
use llmcache.Engine.Registered.{register-IsRegistered}
use llmcache.Control.{
  Body, send, cache, descriptor_to_dict, decode_payloads, register_body, register_reply,
  register_cache, with_cache, required, or_default, CacheInfo,
}
use llmcache.Control.Answers.{with_cache-fresh}

module _ {S : Type 0} (env : Env) (store : StorageBackend S)
    (decode : String → Result (List ℕ)) where
  -- A reply with code 201 comes from a registration that returned.
  reply-created :
      (r : Result CacheDescriptor) (t : Engine S) {info : CacheInfo} {e' : Engine S}
      → register_reply env store decode r t ≡ (ok (send 201 (cache info)), e')
      → (d : CacheDescriptor) × (r ≡ ok d) × (info ≡ descriptor_to_dict d) × (e' ≡ t)
  unfolding register_reply
  reply-created (ok d) t h = (d, refl, ground arith, ground arith)
  reply-created (err cache_error) t h = absurd (ground arith)
  reply-created (err (cache_not_found cid)) t h = absurd (ground arith)
  reply-created (err (cache_expired cid)) t h = absurd (ground arith)
  reply-created (err (cache_mismatch cid i w)) t h = absurd (ground arith)
  reply-created (err storage_full) t h = absurd (ground arith)
  reply-created (err serialization_error) t h = absurd (ground arith)
  reply-created (err connector_error) t h = absurd (ground arith)
  reply-created (err value_error) t h = absurd (ground arith)
  reply-created (err key_error) t h = absurd (ground arith)
  reply-created (err type_error) t h = absurd (ground arith)
  reply-created (err system_exit) t h = absurd (ground arith)
  reply-created (err overflow_error) t h = absurd (ground arith)
  reply-created (err runtime_error) t h = absurd (ground arith)
  reply-created (err zero_division_error) t h = absurd (ground arith)

  -- What `register` finds of a document that it accepts.
  abbrev IsCreated : Body → Engine S → CacheDescriptor → Engine S → Type 0
  IsCreated body e d e' =
      (tokens : List ℤ) × (texts : List String) × (payloads : List KvPayload) × (body.token_ids
        ≡ some tokens)
      × (body.payloads ≡ some texts)
      × (decode_payloads decode (or_default body.num_layers 1) texts ≡ ok payloads)
      × (register env store tokens (single payloads) body.cache_id body.ttl
            (or_default body.pin false) body.name e
          ≡ (ok d, e'))

  required-eq-ok : {A : Type 0} (o : Option A) {a : A} → required o ≡ ok a → o ≡ some a
  required-eq-ok none h = absurd (ground arith)
  required-eq-ok (some b) h = ground arith

  register_body-IsCreated :
      (body : Body) (e : Engine S) {d : CacheDescriptor} {e' : Engine S}
      → register_body env store decode (ok body) e ≡ (ok d, e')
      → IsCreated body e d e'
  unfolding register_body
  register_body-IsCreated body e {d} {e'} h =
      let registered = λ (tokens : List ℤ) (payloads : List KvPayload).
        register env store tokens (single payloads) body.cache_id body.ttl
          (or_default body.pin false) body.name in
      let decoded =
        λ (texts : List String). decode_payloads decode (or_default body.num_layers 1) texts in
      let with_texts = λ (tokens : List ℤ) (texts : List String).
        continue {S = Engine S} (decoded texts) (registered tokens) in
      let with_tokens =
        λ (tokens : List ℤ). continue {S = Engine S} (required body.payloads) (with_texts tokens) in
      let (tokens, ht, h1) = continue-eq-ok (required body.token_ids) with_tokens e h in
      let (texts, hx, h2) = continue-eq-ok (required body.payloads) (with_texts tokens) e h1 in
      let (payloads, hp, h3) = continue-eq-ok (decoded texts) (registered tokens) e h2 in
      (
        tokens,
        texts,
        payloads,
        required-eq-ok body.token_ids ht,
        required-eq-ok body.payloads hx,
        hp,
        h3,
      )

  -- Where the registered descriptor is found.
  register-found :
      (tokens : List ℤ) (payloads : Payloads) (cid : Option String) (ttl : Option ℤ) (p : Bool)
      (name : Option String) (e : Engine S) {d : CacheDescriptor} {e' : Engine S}
      → register env store tokens payloads cid ttl p name e ≡ (ok d, e')
      → Dict.get String_discrete e'.descriptors d.cache_id ≡ some d
  unfolding save_descriptor
  register-found tokens payloads cid ttl p name e {d} {e'} h =
      let r = register-IsRegistered env store payloads cid ttl p name tokens e h in
      ap (λ (t : Engine S). Dict.get String_discrete t.descriptors d.cache_id) r.saved
      ∙ Dict.get-put String_discrete r.written.descriptors d.cache_id d.cache_id d
      ∙ if_pos (String_discrete d.cache_id d.cache_id) refl (some d) _

  -- When the server answers 201 to a registration, the document had tokens and payloads that could
  -- be decoded, and a later `GET` of the cache id in the answer is answered 200 with the same
  -- dictionary, as long as the descriptor is not past its deadline.
  pub register_cache-with_cache :
      (body : Body) (e : Engine S) {info : CacheInfo} {e' : Engine S}
      → register_cache env store decode (ok body) e ≡ (ok (send 201 (cache info)), e')
      → (tokens : List ℤ) × (texts : List String) × (payloads : List KvPayload)
        × (d : CacheDescriptor) × (body.token_ids ≡ some tokens)
        × (body.payloads ≡ some texts)
        × (decode_payloads decode (or_default body.num_layers 1) texts ≡ ok payloads)
        × (info ≡ descriptor_to_dict d)
        × (is_expired d none (env.time e'.readings) ≡ false
            → (with_cache env store info.cache_id e').0 ≡ ok (send 200 (cache info)))
  unfolding register_cache descriptor_to_dict
  register_cache-with_cache body e {info} {e'} h =
      let r = register_body env store decode (ok body) e in
      let (d, made, same, after) = reply-created r.0 r.1 h in
      let (tokens, texts, payloads, ht, hx, hp, registered) =
        register_body-IsCreated body e {d = d} {e' = e'} (λ i. (made i, sym after i)) in
      let found =
        register-found tokens (single payloads) body.cache_id body.ttl (or_default body.pin false)
          body.name e registered in
      (
        tokens,
        texts,
        payloads,
        d,
        ht,
        hx,
        hp,
        same,
        λ fresh.
            ap (λ (i : CacheInfo). (with_cache env store i.cache_id e').0) same
            ∙ ap (λ q. q.0) (with_cache-fresh env store d.cache_id e' found fresh)
            ∙ ap (λ (i : CacheInfo). ok (send 200 (cache i))) (sym same),
      )
