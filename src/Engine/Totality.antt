-- ===== src/Engine/Totality.antt =====
-- How `register` of src/llmcache/engine.py ends, when each worker has a payload for every chunk and
-- the tokens are 32-bit integers.
use llmcache.Prelude.{
  ℕ, zero, suc, ◌≡◌, ◌-◌, ◌<◌, refl, ap, ◌∙◌, String, Bool, Option, none, some, List, [], ◌∷◌, ◌++◌,
  arith, length, take, drop, max, inl, inr, ◌⊎◌, subst, sym, Bool-cases, ltb, String_discrete,
}
use llmcache.Int.{ℤ, pos, negsuc}
use llmcache.Results.{Error, Result, err, ok, ◌>>=◌}
use llmcache.Exec.{Exec, continue}
use llmcache.Types.{ChunkKey, CacheDescriptor, word_bytes, to_bytes, absorb, token_fingerprint}
use llmcache.Types.Chunks.{cut, num_chunks_for, length-cut, chunk_token_ids-cut}
use llmcache.Types.Matching.{fingerprints}
use llmcache.Payload.{KvPayload}
use llmcache.Dict
use llmcache.Dict.{Dict}
use llmcache.Store.{StorageBackend}
use llmcache.Engine.State.{Env, Engine}
use llmcache.Engine.Register.{
  total_tokens, deadline, effective_ttl, Payloads, normalize_payloads, check_counts, chunk_key,
  choose_id, fresh_id, put_worker, put_workers, build_descriptor, register, sorted,
}
use llmcache.Engine.Registered.{finish, describe, write, choose, verify}

-- A 32-bit signed integer, and a run of them.
abbrev pub IsWord : ℤ → Type 0
IsWord (pos n) = n < 2147483648
IsWord (negsuc n) = n < 2147483648

abbrev pub AllWords : List ℤ → Type 0
AllWords [] = Unit
AllWords (t ∷ ts) = IsWord t × AllWords ts

abbrev AllRuns : List (List ℤ) → Type 0
AllRuns [] = Unit
AllRuns (c ∷ cs) = AllWords c × AllRuns cs

take-AllWords : (k : ℕ) (ts : List ℤ) → AllWords ts → AllWords (take k ts)
take-AllWords zero ts h = tt
take-AllWords (suc k) [] h = tt
take-AllWords (suc k) (t ∷ ts) h = (h.0, take-AllWords k ts h.1)

drop-AllWords : (k : ℕ) (ts : List ℤ) → AllWords ts → AllWords (drop k ts)
drop-AllWords zero ts h = h
drop-AllWords (suc k) [] h = tt
drop-AllWords (suc k) (t ∷ ts) h = drop-AllWords k ts h.1

cut-AllRuns : (m n : ℕ) (ts : List ℤ) → AllWords ts → AllRuns (cut m n ts)
unfolding cut
cut-AllRuns zero n ts h = tt
cut-AllRuns (suc m) n ts h =
    (take-AllWords n ts h, cut-AllRuns m n (drop n ts) (drop-AllWords n ts h))

to_bytes-returns : (t : ℤ) → IsWord t → (b : List ℕ) × (to_bytes t ≡ ok b)
unfolding to_bytes
to_bytes-returns (pos n) h = elim (Bool-cases (ltb n 2147483648)) [
  | inl e ↦ (word_bytes n, rw (e, to_bytes) refl)
  | inr e ↦ absurd (ground arith)
]
to_bytes-returns (negsuc n) h = elim (Bool-cases (ltb n 2147483648)) [
  | inl e ↦ (word_bytes (4294967295 - n), rw (e, to_bytes) refl)
  | inr e ↦ absurd (ground arith)
]

absorb-returns :
    (fed : List ℕ) (ts : List ℤ) → AllWords ts → (out : List ℕ) × (absorb fed ts ≡ ok out)
unfolding absorb
absorb-returns fed [] h = (fed, refl)
absorb-returns fed (t ∷ ts) h =
    let (b, e) = to_bytes-returns t h.0 in
    let (out, e') = absorb-returns (fed ++ b) ts h.1 in
    (out, ap (λ r. r >>= λ bytes. absorb (fed ++ bytes) ts) e ∙ e')

fingerprints-returns :
    (digest : List ℕ → String) (cs : List (List ℤ))
    → AllRuns cs
    → (fps : List String) × (fingerprints digest cs ≡ ok fps)
unfolding fingerprints token_fingerprint
fingerprints-returns digest [] h = ([], refl)
fingerprints-returns digest (c ∷ cs) h =
    let (out, e) = absorb-returns [] c h.0 in
    let (fps, e') = fingerprints-returns digest cs h.1 in
    (
      digest out ∷ fps,
      ap
            (λ r. (r >>= λ fed. ok (digest fed)) >>= λ fp.
              fingerprints digest cs >>= λ fps. ok (fp ∷ fps))
            e
          ∙ ap (λ r. r >>= λ fps. ok (digest out ∷ fps)) e',
    )

module _ {S : Type 0} (env : Env) (store : StorageBackend S) where
  -- A step ends with a result, or with what some `put` of the store raised.
  abbrev pub Ends : {A : Type 0} → Result A → Type 0
  Ends {A} r =
      ((a : A) × (r ≡ ok a))
      ⊎ ((x : Error) × (k : ChunkKey) × (o : KvPayload) × (p : Bool) × (s : S) × (r ≡ err x)
          × ((store.put k o p s).0 ≡ err x))

  continue-Ends :
      {A B T : Type 0} (r : Result A) (f : A → Exec T B) (t : T)
      → Ends r
      → ((a : A) → r ≡ ok a → Ends (f a t).0)
      → Ends (continue r f t).0
  continue-Ends (ok a) f t h next = next a refl
  continue-Ends (err x) f t (inl (a, e)) next = absurd (ground arith)
  continue-Ends (err x) f t (inr (y, k, o, p, s, e, raised)) next =
      let same : x ≡ y = ground arith in inr (y, k, o, p, s, ap err same, raised)

  put-Ends : (k : ChunkKey) (o : KvPayload) (p : Bool) (s : S) → Ends (store.put k o p s).0
  put-Ends k o p s = cases (store.put k o p s).0 refl
    where
      cases : (r : Result (Unit {0})) → (store.put k o p s).0 ≡ r → Ends r
      cases (ok u) e = inl (u, refl)
      cases (err x) e = inr (x, k, o, p, s, refl, e)

  put_worker-Ends :
      (cid : String) (w : ℕ) (p : Bool) (idx layers : ℕ) (ps : List KvPayload) (e : Engine S)
      → Ends (put_worker env store cid w p idx layers ps e).0
  unfolding put_worker
  put_worker-Ends cid w p idx layers [] e = inl (layers, refl)
  put_worker-Ends cid w p idx layers (x ∷ ps) e =
      let k = chunk_key cid idx w in
      let t = record e { store = (store.put k x p e.store).1 } in
      continue-Ends (store.put k x p e.store).0
        (λ _. put_worker env store cid w p (suc idx) (max layers x.num_layers) ps) t
        (put-Ends k x p e.store)
        λ _ _. put_worker-Ends cid w p (suc idx) (max layers x.num_layers) ps t

  put_workers-Ends :
      (cid : String) (p : Bool) (layers : ℕ) (workers : Dict ℕ (List KvPayload)) (e : Engine S)
      → Ends (put_workers env store cid p layers workers e).0
  unfolding put_workers
  put_workers-Ends cid p layers [] e = inl (layers, refl)
  put_workers-Ends cid p layers ((w, ps) ∷ rest) e =
      let m = put_worker env store cid w p 0 layers ps in
      continue-Ends (m e).0 (λ l. put_workers env store cid p l rest) (m e).1
        (put_worker-Ends cid w p 0 layers ps e) λ l _. put_workers-Ends cid p l rest (m e).1

  choose_id-returns :
      (cid : Option String) (e : Engine S) → (c : String) × ((choose_id env store cid e).0 ≡ ok c)
  unfolding choose_id fresh_id
  choose_id-returns none e = (_, refl)
  choose_id-returns (some cid) e = elim (String_discrete cid "") [
    | yes p ↦ (env.new_id e.ids, ground arith)
    | no n ↦ (cid, ground arith)
  ]

  build_descriptor-returns :
      (cid : String) (cs : List (List ℤ)) (layers : ℕ) (workers : List ℕ) (ttl : Option ℤ)
      (p : Bool) (name : Option String) (e : Engine S) {fps : List String}
      → fingerprints env.digest cs ≡ ok fps
      → (d : CacheDescriptor) × ((build_descriptor env store cid cs layers workers ttl p name e).0
          ≡ ok d)
  unfolding build_descriptor
  build_descriptor-returns cid cs layers workers ttl p name e {fps} h = (
    record {
      cache_id = cid;
      num_tokens = total_tokens cs;
      chunk_size = e.chunk_size;
      num_layers = layers;
      worker_ids = workers;
      created_at = env.time e.readings;
      expires_at = deadline (env.time e.readings) (effective_ttl ttl e.default_ttl);
      pinned = p;
      chunk_fingerprints = fps;
      name = name;
      hits = 0;
      last_used_at = none;
    },
    rw (h, build_descriptor) refl,
  )

  -- When the chunk size is positive, the tokens are 32-bit signed integers, and each worker has a
  -- payload for every chunk, `register` returns a descriptor, or it raises what a `put` of the
  -- store raised: nothing else can stop it.
  pub register-Ends :
      (tokens : List ℤ) (payloads : Payloads) (cid : Option String) (ttl : Option ℤ) (p : Bool)
      (name : Option String) (e : Engine S)
      → 0 < e.chunk_size
      → AllWords tokens
      → check_counts (num_chunks_for (length tokens) e.chunk_size) (normalize_payloads payloads)
        ≡ ok tt
      → Ends (register env store tokens payloads cid ttl p name e).0
  unfolding register
  register-Ends tokens payloads cid ttl p name e sized words counts =
      let n = num_chunks_for (length tokens) e.chunk_size in
      let cs = cut n e.chunk_size tokens in
      let workers = normalize_payloads payloads in
      let (fps, printed) =
        fingerprints-returns env.digest cs (cut-AllRuns n e.chunk_size tokens words) in
      let (c, named) = choose_id-returns cid e in
      let e1 = (choose_id env store cid e).1 in
      let e2 = (put_workers env store c p 0 workers e1).1 in
      let checked = ap (λ k. check_counts k workers) (length-cut n e.chunk_size tokens) ∙ counts in
      let run =
        ap (λ r. (continue r (verify env store payloads cid ttl p name) e).0)
          (chunk_token_ids-cut tokens e.chunk_size sized)
        ∙ ap (λ r. (continue r (λ _. choose env store payloads cid ttl p name cs) e).0) checked
        ∙ ap (λ r. (continue r (write env store payloads cid ttl p name cs) e1).0) named in
      subst Ends (sym run) (
        continue-Ends (put_workers env store c p 0 workers e1).0
          (describe env store payloads cid ttl p name cs c) e2 (put_workers-Ends c p 0 workers e1)
          λ layers _.
            let build =
              build_descriptor env store c cs layers (sorted (Dict.keys workers)) ttl p name in
            let (d, built) =
              build_descriptor-returns c cs layers (sorted (Dict.keys workers)) ttl p name e2
                printed in
            inl (
              d,
              ap (λ r. (continue r (finish env store payloads cid ttl p name c) (build e2).1).0)
                  built,
            ))
