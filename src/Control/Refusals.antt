-- ===== src/Control/Refusals.antt =====
-- A registration that is not answered 201 registers nothing.
use llmcache.Prelude.{
  ℕ, suc, ◌≡◌, ◌≢◌, refl, ap, sym, ◌∙◌, String, Bool, Option, none, some, List, arith, ◌⊎◌, inl,
  inr, length, false,
}
use llmcache.Int.{ℤ}
use llmcache.Results.{
  Error, Result, ok, err, cache_error, cache_not_found, cache_expired, cache_mismatch, storage_full,
  serialization_error, connector_error, value_error, key_error, type_error, system_exit,
  overflow_error, runtime_error, zero_division_error,
}
use llmcache.Exec.{continue-keeps, continue-raised}
use llmcache.Types.{CacheDescriptor, chunk_token_ids}
use llmcache.Types.Matching.{fingerprints}
use llmcache.Dict
use llmcache.Store.{StorageBackend}
use llmcache.Engine.State.{Env, Engine}
use llmcache.Engine.Register.{
  Payloads, single, normalize_payloads, check_counts, choose_id, fresh_id, put_workers, register,
  build_descriptor, sorted,
}
use llmcache.Engine.Registered.{put_workers-StoreOnly, finish, describe, write, choose, verify}
use llmcache.Control.{
  refused, Body, send, cache, descriptor_to_dict, decode_payloads, register_body, register_reply,
  register_cache, required, or_default, CacheInfo,
}

module _ {S : Type 0} (env : Env) (store : StorageBackend S) where
  -- The descriptors are as they were.
  abbrev Unchanged : Engine S → Engine S → Type 0
  Unchanged e t = t.descriptors ≡ e.descriptors

  choose_id-Unchanged :
      (cid : Option String) (e : Engine S) → Unchanged e (choose_id env store cid e).1
  unfolding choose_id fresh_id
  choose_id-Unchanged none e = refl
  choose_id-Unchanged (some cid) e = ground arith

  build_descriptor-Unchanged :
      (cid : String) (chunks : List (List ℤ)) (layers : ℕ) (workers : List ℕ) (ttl : Option ℤ)
      (p : Bool) (name : Option String) (e : Engine S)
      → Unchanged e (build_descriptor env store cid chunks layers workers ttl p name e).1
  unfolding build_descriptor
  build_descriptor-Unchanged cid chunks layers workers ttl p name e =
      continue-keeps (Unchanged e) (fingerprints env.digest chunks) _
        (record e { readings = suc e.readings }) refl λ fps. refl

  module _ (payloads : Payloads) (cid : Option String) (ttl : Option ℤ) (p : Bool)
      (name : Option String) where
    write-Unchanged :
        (chunks : List (List ℤ)) (c : String) (e : Engine S) {x : Error}
        → (write env store payloads cid ttl p name chunks c e).0 ≡ err x
        → Unchanged e (write env store payloads cid ttl p name chunks c e).1
    write-Unchanged chunks c e {x} h =
        let workers = normalize_payloads payloads in
        let t = (put_workers env store c p 0 workers e).1 in
        let stored : Unchanged e t =
          ap (λ (u : Engine S). u.descriptors) (put_workers-StoreOnly env store c p 0 workers e) in
        continue-raised (Unchanged e) (put_workers env store c p 0 workers e).0
          (describe env store payloads cid ttl p name chunks c) t stored
          (λ layers h1.
            let m =
              build_descriptor env store c chunks layers (sorted (Dict.keys workers)) ttl p name in
            continue-raised (Unchanged e) (m t).0 (finish env store payloads cid ttl p name c)
              (m t).1
              (build_descriptor-Unchanged c chunks layers (sorted (Dict.keys workers)) ttl p name t
                ∙ stored)
              (λ d h2. absurd (ground arith)) h1)
          h

    register-Unchanged :
        (tokens : List ℤ) (e : Engine S) {x : Error}
        → (register env store tokens payloads cid ttl p name e).0 ≡ err x
        → Unchanged e (register env store tokens payloads cid ttl p name e).1
    unfolding register
    register-Unchanged tokens e {x} h =
        continue-raised (Unchanged e) (chunk_token_ids tokens e.chunk_size)
          (verify env store payloads cid ttl p name) e refl
          (λ chunks h1.
            continue-raised (Unchanged e)
              (check_counts (length chunks) (normalize_payloads payloads))
              (λ _. choose env store payloads cid ttl p name chunks) e refl
              (λ _ h2.
                let t = (choose_id env store cid e).1 in
                continue-raised (Unchanged e) (choose_id env store cid e).0
                  (write env store payloads cid ttl p name chunks) t (choose_id-Unchanged cid e)
                  (λ c h3. write-Unchanged chunks c t h3 ∙ choose_id-Unchanged cid e) h2)
              h1)
          h

  module _ (decode : String → Result (List ℕ)) where
    register_body-Unchanged :
        (body : Result Body) (e : Engine S) {x : Error}
        → (register_body env store decode body e).0 ≡ err x
        → Unchanged e (register_body env store decode body e).1
    unfolding register_body
    register_body-Unchanged body e {x} h =
        continue-raised (Unchanged e) body _ e refl
          (λ document h1.
            continue-raised (Unchanged e) (required document.token_ids) _ e refl
              (λ tokens h2.
                continue-raised (Unchanged e) (required document.payloads) _ e refl
                  (λ texts h3.
                    continue-raised (Unchanged e)
                      (decode_payloads decode (or_default document.num_layers 1) texts) _ e refl
                      (λ payloads h4.
                        register-Unchanged (single payloads) document.cache_id document.ttl
                          (or_default document.pin false) document.name tokens e h4)
                      h3)
                  h2)
              h1)
          h

    register_reply-state :
        (r : Result CacheDescriptor) (e : Engine S) → (register_reply env store decode r e).1 ≡ e
    unfolding register_reply
    register_reply-state (ok d) e = refl
    register_reply-state (err cache_error) e = refl
    register_reply-state (err (cache_not_found cid)) e = refl
    register_reply-state (err (cache_expired cid)) e = refl
    register_reply-state (err (cache_mismatch cid i w)) e = refl
    register_reply-state (err storage_full) e = refl
    register_reply-state (err serialization_error) e = refl
    register_reply-state (err connector_error) e = refl
    register_reply-state (err value_error) e = refl
    register_reply-state (err key_error) e = refl
    register_reply-state (err type_error) e = refl
    register_reply-state (err system_exit) e = refl
    register_reply-state (err overflow_error) e = refl
    register_reply-state (err runtime_error) e = refl
    register_reply-state (err zero_division_error) e = refl

    -- Whatever is posted to be registered, and whatever the store does, unless the answer is a 201
    -- the descriptors are as they were: no cache is added, changed or forgotten. A missing entry or
    -- bad base64 of the document is answered 400.
    pub register_cache-refused :
        (body : Result Body) (e : Engine S)
        → (((info : CacheInfo)
              → (register_cache env store decode body e).0 ≢ ok (send 201 (cache info)))
            → (register_cache env store decode body e).1.descriptors ≡ e.descriptors)
          × ((x : Error)
              → (register_body env store decode body e).0 ≡ err x
              → (x ≡ key_error) ⊎ (x ≡ value_error)
              → (register_cache env store decode body e).0 ≡ ok (send 400 (refused x)))
    unfolding register_cache register_reply
    register_cache-refused body e = (
      λ other.
          ap (λ (t : Engine S). t.descriptors) (register_reply-state r.0 r.1)
          ∙ unchanged r.0 refl (λ info. other info),
      refuse,
    )
      where
        r : Result CacheDescriptor × Engine S
        r = register_body env store decode body e

        unchanged :
            (q : Result CacheDescriptor)
            → r.0 ≡ q
            → ((info : CacheInfo)
                → (register_reply env store decode r.0 r.1).0 ≢ ok (send 201 (cache info)))
            → r.1.descriptors ≡ e.descriptors
        unchanged (ok d) h other =
            absurd
              (other (descriptor_to_dict d) (ap (λ q. (register_reply env store decode q r.1).0) h))
        unchanged (err x) h other = register_body-Unchanged body e h

        refuse :
            (x : Error)
            → r.0 ≡ err x
            → (x ≡ key_error) ⊎ (x ≡ value_error)
            → (register_reply env store decode r.0 r.1).0 ≡ ok (send 400 (refused x))
        refuse x h (inl k) =
            ap (λ q. (register_reply env store decode q r.1).0) (h ∙ ap err k)
            ∙ ap (λ y. ok (send 400 (refused y))) (sym k)
        refuse x h (inr v) =
            ap (λ q. (register_reply env store decode q r.1).0) (h ∙ ap err v)
            ∙ ap (λ y. ok (send 400 (refused y))) (sym v)
