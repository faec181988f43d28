-- ===== src/Engine/Calls/Writes.antt =====
-- The calls that write chunks and descriptors keep what the rules say.
use llmcache.Prelude.{
  ℕ, suc, ◌≡◌, refl, sym, subst, max, String, Bool, Option, none, some, List, [], ◌∷◌, length,
  arith, String_discrete, if_pos, if_neg,
}
use llmcache.Int.{ℤ}
use llmcache.Results.{ok}
use llmcache.Exec.{Exec, pure, modify, continue-keeps, continue-keeps_ok, ◌>>=◌, ◌>>◌}
use llmcache.Types.{CacheDescriptor, chunk_token_ids}
use llmcache.Types.Matching.{fingerprints}
use llmcache.Payload.{KvPayload}
use llmcache.Dict
use llmcache.Dict.{Dict}
use llmcache.Store.{StorageBackend}
use llmcache.Engine.State.{Env, Engine, on_store}
use llmcache.Engine.Register.{
  Payloads, normalize_payloads, check_counts, chunk_key, choose_id, fresh_id, put_worker,
  put_workers, build_descriptor, save_descriptor, register, put_chunk, commit, sorted,
}
use llmcache.Engine.Built.{build_descriptor-IsBuilt}
use llmcache.Engine.Registered.{describe, write, choose, verify}
use llmcache.Engine.Calls.{Rules}

module _ {S : Type 0} (env : Env) (store : StorageBackend S) {Mine : String → Type 0}
    {Sweeps : Type 0} {Good : String → CacheDescriptor → Type 0} {Q : Engine S → Type 0}
    (rules : Rules env store Mine Sweeps Good Q) where
  pub put_chunk_rule :
      (cid : String) (idx : ℕ) (o : KvPayload) (worker : ℕ) (p : Bool) (e : Engine S)
      → Mine cid
      → Q e
      → Q (put_chunk env store cid idx o worker p e).1
  unfolding put_chunk
  put_chunk_rule cid idx o worker p e mine h = rules.put (chunk_key cid idx worker) o p e mine h

  put_worker_rule :
      (cid : String) (w : ℕ) (p : Bool) (idx layers : ℕ) (ps : List KvPayload) (e : Engine S)
      → Mine cid
      → Q e
      → Q (put_worker env store cid w p idx layers ps e).1
  unfolding put_worker
  put_worker_rule cid w p idx layers [] e mine h = h
  put_worker_rule cid w p idx layers (x ∷ ps) e mine h =
      let m = on_store (store.put (chunk_key cid idx w) x p) in
      let put = rules.put (chunk_key cid idx w) x p e mine h in
      continue-keeps Q (m e).0
        (λ _. put_worker env store cid w p (suc idx) (max layers x.num_layers) ps) (m e).1 put
        λ _. put_worker_rule cid w p (suc idx) (max layers x.num_layers) ps (m e).1 mine put

  put_workers_rule :
      (cid : String) (p : Bool) (layers : ℕ) (workers : Dict ℕ (List KvPayload)) (e : Engine S)
      → Mine cid
      → Q e
      → Q (put_workers env store cid p layers workers e).1
  unfolding put_workers
  put_workers_rule cid p layers [] e mine h = h
  put_workers_rule cid p layers ((w, ps) ∷ rest) e mine h =
      let m = put_worker env store cid w p 0 layers ps in
      let put = put_worker_rule cid w p 0 layers ps e mine h in
      continue-keeps Q (m e).0 (λ l. put_workers env store cid p l rest) (m e).1 put
        λ l. put_workers_rule cid p l rest (m e).1 mine put

  build_descriptor_rule :
      (cid : String) (chunks : List (List ℤ)) (layers : ℕ) (workers : List ℕ) (ttl : Option ℤ)
      (p : Bool) (name : Option String) (e : Engine S)
      → Q e
      → Q (build_descriptor env store cid chunks layers workers ttl p name e).1
  unfolding build_descriptor
  build_descriptor_rule cid chunks layers workers ttl p name e h =
      let ticked = rules.clock e h in
      continue-keeps Q (fingerprints env.digest chunks) _ (record e { readings = suc e.readings })
        ticked λ fps. ticked

  -- Building a descriptor and storing it.
  publish_rule :
      (cid : String) (tokens : List ℤ) (chunks : List (List ℤ)) (layers : ℕ) (workers : List ℕ)
      (ttl : Option ℤ) (p : Bool) (name : Option String) (e t : Engine S)
      → Mine cid
      → chunk_token_ids tokens e.chunk_size ≡ ok chunks
      → Q e
      → Q t
      → Q
          ((build_descriptor env store cid chunks layers workers ttl p name >>= λ d.
              modify (save_descriptor env store cid d) >> pure d)
            t).1
  unfolding save_descriptor
  publish_rule cid tokens chunks layers workers ttl p name e t mine cut he ht =
      let m = build_descriptor env store cid chunks layers workers ttl p name in
      let after = build_descriptor_rule cid chunks layers workers ttl p name t ht in
      continue-keeps_ok Q (m t).0 (λ d. modify (save_descriptor env store cid d) >> pure d) (m t).1
        after
        λ d made.
          rules.save cid d (m t).1 mine
            (rules.built cid tokens chunks workers ttl e t d (m t).1 he ht cut (
              build_descriptor-IsBuilt env store cid chunks layers workers ttl p name t
                (λ i. (made i, (m t).1))))
            after

  pub commit_rule :
      (cid : String) (tokens : List ℤ) (layers : ℕ) (workers : List ℕ) (ttl : Option ℤ) (p : Bool)
      (name : Option String) (e : Engine S)
      → Mine cid
      → Q e
      → Q (commit env store cid tokens layers workers ttl p name e).1
  unfolding commit
  commit_rule cid tokens layers workers ttl p name e mine h =
      continue-keeps_ok Q (chunk_token_ids tokens e.chunk_size) _ e h λ chunks cut.
        publish_rule cid tokens chunks layers (sorted workers) ttl p name e e mine cut h h

  -- The id that a registration takes: the one that is given, or a fresh one.
  abbrev pub MayTake : Option String → Type 0
  MayTake cid = ((given : String) → cid ≡ some given → Mine given) × ((n : ℕ) → Mine (env.new_id n))

  -- Choosing keeps `Q`, and the id chosen is one that may be used.
  abbrev Chooses : Engine S → Exec (Engine S) String → Type 0
  Chooses e m = Q (m e).1 × ((c : String) → (m e).0 ≡ ok c → Mine c)

  fresh_id_rule :
      (e : Engine S) → ((n : ℕ) → Mine (env.new_id n)) → Q e → Chooses e (fresh_id env store)
  unfolding fresh_id
  fresh_id_rule e fresh h = (rules.ids e h, λ c chosen. subst Mine (ground arith) (fresh e.ids))

  choose_id_rule :
      (cid : Option String) (e : Engine S) → MayTake cid → Q e → Chooses e (choose_id env store cid)
  unfolding choose_id
  choose_id_rule none e may h = fresh_id_rule e may.1 h
  choose_id_rule (some given) e may h = elim (String_discrete given "") [
    | yes empty ↦
        subst (Chooses e)
          (sym (if_pos (String_discrete given "") empty (fresh_id env store) (pure given)))
          (fresh_id_rule e may.1 h)
    | no named ↦
        subst (Chooses e)
          (sym (if_neg (String_discrete given "") named (fresh_id env store) (pure given)))
          (h, λ c chosen. subst Mine (ground arith) (may.0 given refl))
  ]

  pub register_rule :
      (tokens : List ℤ) (payloads : Payloads) (cid : Option String) (ttl : Option ℤ) (p : Bool)
      (name : Option String) (e : Engine S)
      → MayTake cid
      → Q e
      → Q (register env store tokens payloads cid ttl p name e).1
  unfolding register
  register_rule tokens payloads cid ttl p name e may h =
      let workers = normalize_payloads payloads in
      continue-keeps_ok Q (chunk_token_ids tokens e.chunk_size)
        (verify env store payloads cid ttl p name) e h
        λ chunks cut.
          continue-keeps Q (check_counts (length chunks) workers)
            (λ _. choose env store payloads cid ttl p name chunks) e h
            λ _.
              let t = (choose_id env store cid e).1 in
              let (chosen, mine) = choose_id_rule cid e may h in
              continue-keeps_ok Q (choose_id env store cid e).0
                (write env store payloads cid ttl p name chunks) t chosen
                λ c took.
                  let u = (put_workers env store c p 0 workers t).1 in
                  let stored = put_workers_rule c p 0 workers t (mine c took) chosen in
                  continue-keeps Q (put_workers env store c p 0 workers t).0
                    (describe env store payloads cid ttl p name chunks c) u stored
                    λ layers.
                      publish_rule c tokens chunks layers (sorted (Dict.keys workers)) ttl p name e
                        u (mine c took) cut h stored
