-- ===== src/Engine/Hits.antt =====
-- `lookup` with the request's tokens, on what was registered: what its answer promises.
use mathlib.Core.List.{flatten}
use llmcache.Prelude.{
  String_discrete, ℕ, suc, ◌+◌, ◌*◌, ◌≡◌, ◌<◌, ◌≤◌, refl, ap, sym, ◌∙◌, String, Bool, true, false,
  Option, none, some, List, [], ◌∷◌, ◌⊎◌, inl, inr, arith, length, take, subst, take_of_take-add,
  ◌-◌, length-take, length-append, ◌==◌, Bool-cases,
}
use llmcache.Int.{ℤ}
use llmcache.Results.{ok}
use llmcache.Exec.{Exec, continue, pure, modify, continue-eq-ok, ◌>>=◌, ◌>>◌}
use llmcache.Types.{CacheDescriptor, num_chunks, is_expired, chunk_token_ids}
use llmcache.Types.Chunks.{
  num_chunks_for, enough_chunks, no_chunk_more, mul_mono, chunk_token_ids-IsChunked,
}
use llmcache.Types.Matching.{IsReusable, Collision, matched_chunk_count-IsReusable}
use llmcache.Dict
use llmcache.Store.{StorageBackend}
use llmcache.Engine.State.{Env, Engine, LookupResult, lifted, read_clock}
use llmcache.Engine.Register.{Payloads, normalize_payloads, register, total_tokens}
use llmcache.Engine.Lifecycle.{lookup, lookup_result, count_reusable, live_descriptor, update}
use llmcache.Engine.Registered.{IsRegistered, register-IsRegistered}
use llmcache.Engine.Built.{length-fingerprints}
use llmcache.Payload.{KvPayload}
use llmcache.Engine.Live.{live-fresh}
use llmcache.Engine.Roundtrip.{registered-get}

-- The answer to a request, for tokens registered in chunks of `n`.
pub record IsHit (n : ℕ) (request tokens : List ℤ) (r : LookupResult) : Type 0 where
  pub reusable : IsReusable n request tokens r.num_chunks
  pub covered : take r.num_tokens request ≡ take r.num_tokens tokens
  pub available : r.num_tokens ≤ length request
  pub whole : r.full ≡ true → r.num_tokens ≡ length tokens

total_tokens-flatten : (chunks : List (List ℤ)) → total_tokens chunks ≡ length (flatten chunks)
unfolding total_tokens flatten
total_tokens-flatten [] = refl
total_tokens-flatten (c ∷ cs) =
    ground (arith, total_tokens-flatten cs, length-append c (flatten cs))

pub pos_of_cut :
    (tokens : List ℤ) (n : ℕ) {chunks : List (List ℤ)}
    → chunk_token_ids tokens n ≡ ok chunks
    → 0 < n
unfolding chunk_token_ids
pos_of_cut tokens n h = elim (Bool-cases (n == 0)) [
  | inl e ↦ absurd (ground arith)
  | inr e ↦ ground arith
]

-- The chunks hold as many tokens as were cut.
pub total_tokens_of_cut :
    (tokens : List ℤ) (n : ℕ) {chunks : List (List ℤ)}
    → 0 < n
    → chunk_token_ids tokens n ≡ ok chunks
    → (total_tokens chunks ≡ length tokens) × (length chunks ≡ num_chunks_for (length tokens) n)
total_tokens_of_cut tokens n {chunks} pos h =
    let (cs, e, flat, count, _) = chunk_token_ids-IsChunked tokens n pos in
    let same : cs ≡ chunks = ground arith in
    (total_tokens-flatten chunks ∙ ap length (ap flatten (sym same) ∙ flat), ground arith)

agree_shorter : (a b : ℕ) (xs ys : List ℤ) → a ≤ b → take b xs ≡ take b ys → take a xs ≡ take a ys
agree_shorter a b xs ys le h =
    sym (take_of_take-add a (b - a) xs)
    ∙ ap (take a) (ap (λ k. take k xs) e ∙ h ∙ ap (λ k. take k ys) (sym e))
    ∙ take_of_take-add a (b - a) ys
  where
    e : a + (b - a) ≡ b
    e = omega arith

agree_available : (a : ℕ) (xs ys : List ℤ) → a ≤ length ys → take a xs ≡ take a ys → a ≤ length xs
agree_available a xs ys le h = omega (arith, ap length h, length-take a xs, length-take a ys)

-- Chunks before the last are full.
full_before_last : (m len n : ℕ) → 0 < n → m < num_chunks_for len n → m * n ≤ len
full_before_last m len n pos lt =
    omega (arith, mul_mono (suc m) (num_chunks_for len n) n lt, no_chunk_more len n pos)

module _ {S : Type 0} (env : Env) (store : StorageBackend S) where
  abbrev answer : String → CacheDescriptor → ℕ → Exec (Engine S) LookupResult
  answer cid d matched = read_clock env >>= λ now.
      modify (update cid (record d { hits = suc d.hits; last_used_at = some now }))
      >> pure (lookup_result env store cid d matched)

  lookup_of_live :
      (cid : String) (request : Option (List ℤ)) (e : Engine S) {d : CacheDescriptor} {t : Engine S}
      {r : LookupResult} {e' : Engine S}
      → live_descriptor env store cid e ≡ (ok d, t)
      → lookup env store cid request e ≡ (ok r, e')
      → (m : ℕ) × (count_reusable env store request d ≡ ok m)
        × (r ≡ lookup_result env store cid d m)
  unfolding lookup
  lookup_of_live cid request e {d} {t} {r} {e'} live h =
      let ask =
        λ (d : CacheDescriptor). lifted (count_reusable env store request d) >>= answer cid d in
      let h1 : ask d t ≡ (ok r, e') = sym (ap (λ x. continue x.0 ask x.1) live) ∙ h in
      let (m, hm, h2) = continue-eq-ok (count_reusable env store request d) (answer cid d) t h1 in
      (m, hm, ground arith)

  IsHit-of_reusable :
      (cid : String) (request tokens : List ℤ) (d : CacheDescriptor) (m : ℕ)
      → 0 < d.chunk_size
      → d.num_tokens ≡ length tokens
      → num_chunks d ≡ num_chunks_for (length tokens) d.chunk_size
      → IsReusable d.chunk_size request tokens m
      → IsHit d.chunk_size request tokens (lookup_result env store cid d m)
  unfolding lookup_result
  IsHit-of_reusable cid request tokens d m pos total count h =
      elim (Bool-cases (m == num_chunks d)) [
        | inl e ↦
            let shared =
              agree_shorter (length tokens) (m * d.chunk_size) request tokens
                (ground (arith, enough_chunks (length tokens) d.chunk_size pos)) h.agrees in
            rw (e, lookup_result)
              (record {
                reusable = h;
                covered = rw total shared;
                available =
                    rw total (agree_available (length tokens) request tokens (omega arith) shared);
                whole = λ _. total;
              })
        | inr e ↦
            let lt : m < num_chunks d = ground (arith, h.within) in
            rw (e, lookup_result)
              (record {
                reusable = h;
                covered = h.agrees;
                available =
                    agree_available (m * d.chunk_size) request tokens
                      (full_before_last m (length tokens) d.chunk_size pos (omega arith)) h.agrees;
                whole = λ w. absurd (ground arith);
              })
      ]

  registered-cut :
      (tokens : List ℤ) (workers : Dict.Dict ℕ (List KvPayload)) (ttl : Option ℤ) (p : Bool)
      (e : Engine S) {d : CacheDescriptor} {e' : Engine S}
      (g : IsRegistered env store tokens workers ttl p e d e')
      → chunk_token_ids tokens d.chunk_size ≡ ok g.chunks
  registered-cut tokens workers ttl p e {d} g =
      subst (λ n. chunk_token_ids tokens n ≡ ok g.chunks) (sym same) g.are_cut
    where
      same : d.chunk_size ≡ e.chunk_size
      same =
          (g.built).sized
          ∙ ap (λ (t : Engine S). t.chunk_size) g.only_store
          ∙ ap (λ (t : Engine S). t.chunk_size) g.frame

  -- An answer to a request, in any engine that has the registered descriptor.
  pub registered-IsHit :
      (tokens request : List ℤ) (workers : Dict.Dict ℕ (List KvPayload)) (ttl : Option ℤ) (p : Bool)
      (e t : Engine S) {d : CacheDescriptor} {e' t' : Engine S} {r : LookupResult}
      → IsRegistered env store tokens workers ttl p e d e'
      → Dict.get String_discrete t.descriptors d.cache_id ≡ some d
      → is_expired d none (env.time t.readings) ≡ false
      → lookup env store d.cache_id (some request) t ≡ (ok r, t')
      → IsHit d.chunk_size request tokens r ⊎ Collision env.digest
  unfolding count_reusable
  registered-IsHit tokens request workers ttl p e t {d} {e'} {t'} {r} g found fresh asked =
      let live = live-fresh env store d.cache_id t found fresh in
      let (m, hm, er) = lookup_of_live d.cache_id (some request) t live asked in
      let cut = registered-cut tokens workers ttl p e g in
      let pos = pos_of_cut tokens d.chunk_size cut in
      let (total, count) = total_tokens_of_cut tokens d.chunk_size pos cut in
      elim (matched_chunk_count-IsReusable env.digest request tokens d g.chunks pos cut
        (g.built).printed hm) [
          | inr col ↦ inr col
          | inl reusable ↦ inl (
              subst (IsHit d.chunk_size request tokens) (sym er) (
                IsHit-of_reusable d.cache_id request tokens d m pos ((g.built).counted ∙ total)
                  (length-fingerprints env.digest g.chunks (g.built).printed ∙ count) reusable))
        ]

  -- Whatever the store does: when tokens have been registered and the descriptor `d` has not
  -- expired, an answer of `lookup` to a request counts the leading chunks on which the request
  -- agrees with the registered tokens, and no further chunk agrees; its `num_tokens` is a common
  -- prefix that the request has in full, and the whole run when the answer is full. The only other
  -- case is a collision of the digest.
  pub register-lookup :
      (tokens request : List ℤ) (payloads : Payloads) (cid : Option String) (ttl : Option ℤ)
      (p : Bool) (name : Option String) (e : Engine S) {d : CacheDescriptor} {e' e'' : Engine S}
      {r : LookupResult}
      → register env store tokens payloads cid ttl p name e ≡ (ok d, e')
      → is_expired d none (env.time e'.readings) ≡ false
      → lookup env store d.cache_id (some request) e' ≡ (ok r, e'')
      → IsHit d.chunk_size request tokens r ⊎ Collision env.digest
  register-lookup tokens request payloads cid ttl p name e {d} {e'} h fresh asked =
      let workers = normalize_payloads payloads in
      let g = register-IsRegistered env store payloads cid ttl p name tokens e h in
      registered-IsHit tokens request workers ttl p e e' g
        (registered-get env store tokens workers ttl p e g) fresh asked
