-- ===== src/Engine/Registered.antt =====
-- What a successful registration leaves: the descriptor that it builds and where it comes from.
use llmcache.Prelude.{
  subst, ℕ, suc, ◌≡◌, refl, ap, sym, String, Bool, Option, none, some, List, [], ◌∷◌, arith, length,
  max,
}
use llmcache.Int.{ℤ}
use llmcache.Results.{ok}
use llmcache.Exec.{Exec, ◌>>=◌, ◌>>◌, bind-eq-ok, continue-eq-ok, continue-keeps, pure, modify}
use llmcache.Types.{CacheDescriptor, chunk_token_ids}
use llmcache.Payload.{KvPayload}
use llmcache.Dict
use llmcache.Dict.{Dict}
use llmcache.Store.{StorageBackend}
use llmcache.Engine.State.{Env, Engine, on_store, lifted}
use llmcache.Engine.Register.{
  chunk_key, Payloads, normalize_payloads, check_counts, choose_id, put_worker, put_workers,
  build_descriptor, save_descriptor, register, sorted,
}
use llmcache.Engine.Built.{IsBuilt, build_descriptor-IsBuilt}

module _ {S : Type 0} (env : Env) (store : StorageBackend S) where
  -- Writing chunks changes nothing of the engine but its store.
  abbrev pub StoreOnly : Engine S → Engine S → Type 0
  StoreOnly e t = t ≡ record e { store = t.store }

  put_worker-StoreOnly :
      (cid : String) (w : ℕ) (p : Bool) (idx layers : ℕ) (ps : List KvPayload) (e : Engine S)
      → StoreOnly e (put_worker env store cid w p idx layers ps e).1
  unfolding put_worker
  put_worker-StoreOnly cid w p idx layers [] e = refl
  put_worker-StoreOnly cid w p idx layers (x ∷ ps) e =
      let m = on_store (store.put (chunk_key cid idx w) x p) in
      continue-keeps (StoreOnly e) (m e).0
        (λ _. put_worker env store cid w p (suc idx) (max layers x.num_layers) ps) (m e).1 refl
        λ _. put_worker-StoreOnly cid w p (suc idx) (max layers x.num_layers) ps (m e).1

  pub put_workers-StoreOnly :
      (cid : String) (p : Bool) (layers : ℕ) (workers : Dict ℕ (List KvPayload)) (e : Engine S)
      → StoreOnly e (put_workers env store cid p layers workers e).1
  unfolding put_workers
  put_workers-StoreOnly cid p layers [] e = refl
  put_workers-StoreOnly cid p layers ((w, ps) ∷ rest) e =
      let m = put_worker env store cid w p 0 layers ps in
      let here = put_worker-StoreOnly cid w p 0 layers ps e in
      continue-keeps (StoreOnly e) (m e).0 (λ l. put_workers env store cid p l rest) (m e).1 here
        λ l. ground (arith, put_workers-StoreOnly cid p l rest (m e).1)

  choose_id-frame :
      (cid : Option String) (e : Engine S) {c : String} {e' : Engine S}
      → choose_id env store cid e ≡ (ok c, e')
      → e' ≡ record e { ids = e'.ids }
  unfolding choose_id
  choose_id-frame none e h = ground arith
  choose_id-frame (some cid) e h = ground arith

  -- The steps of a registration that returned.
  pub record IsRegistered (tokens : List ℤ) (workers : Dict ℕ (List KvPayload)) (ttl : Option ℤ)
      (p : Bool) (e : Engine S) (d : CacheDescriptor) (e' : Engine S) : Type 0 where
    pub chunks : List (List ℤ)
    pub layers : ℕ
    pub chosen : Engine S
    pub written : Engine S
    pub are_cut : chunk_token_ids tokens e.chunk_size ≡ ok chunks
    pub are_enough : check_counts (length chunks) workers ≡ ok tt
    pub frame : record chosen { ids = e.ids } ≡ e
    pub put : put_workers env store d.cache_id p 0 workers chosen ≡ (ok layers, written)
    pub only_store : written ≡ record chosen { store = written.store }
    pub built :
        IsBuilt env d.cache_id chunks
          (sorted (Dict.keys workers))
          ttl
          written
          d
          (record written { readings = suc written.readings })
    pub saved :
        e'
        ≡ save_descriptor env store d.cache_id d
            (record written { readings = suc written.readings })

  -- The continuations of `register`, from the last.
  module _ (payloads : Payloads) (cid : Option String) (ttl : Option ℤ) (p : Bool)
      (name : Option String) where
    abbrev pub finish : String → CacheDescriptor → Exec (Engine S) CacheDescriptor
    finish c d = modify (save_descriptor env store c d) >> pure d

    abbrev pub describe : List (List ℤ) → String → ℕ → Exec (Engine S) CacheDescriptor
    describe chunks c layers =
        build_descriptor env store c chunks layers
          (sorted (Dict.keys (normalize_payloads payloads))) ttl p name
        >>= finish c

    abbrev pub write : List (List ℤ) → String → Exec (Engine S) CacheDescriptor
    write chunks c = put_workers env store c p 0 (normalize_payloads payloads) >>= describe chunks c

    abbrev pub choose : List (List ℤ) → Exec (Engine S) CacheDescriptor
    choose chunks = choose_id env store cid >>= write chunks

    abbrev pub verify : List (List ℤ) → Exec (Engine S) CacheDescriptor
    verify chunks =
        lifted (check_counts (length chunks) (normalize_payloads payloads)) >>= λ _. choose chunks

    describe-IsBuilt :
        (chunks : List (List ℤ)) (c : String) (layers : ℕ) (written : Engine S)
        {d : CacheDescriptor} {e' : Engine S}
        → describe chunks c layers written ≡ (ok d, e')
        → (t : Engine S) × IsBuilt env c chunks
            (sorted (Dict.keys (normalize_payloads payloads)))
            ttl
            written
            d
            t
          × (e' ≡ save_descriptor env store c d t)
    describe-IsBuilt chunks c layers written {d} {e'} h =
        let workers = sorted (Dict.keys (normalize_payloads payloads)) in
        let (d', t, hb, h') =
          bind-eq-ok (build_descriptor env store c chunks layers workers ttl p name) (finish c)
            written h in
        let same : d' ≡ d = ground arith in
        (
          t,
          build_descriptor-IsBuilt env store c chunks layers workers ttl p name written
              (rw same at hb),
          ground arith,
        )

    describe-IsRegistered :
        (tokens : List ℤ) (e : Engine S) (chunks : List (List ℤ)) (c : String) (layers : ℕ)
        (chosen written : Engine S) {d : CacheDescriptor} {e' : Engine S}
        → chunk_token_ids tokens e.chunk_size ≡ ok chunks
        → check_counts (length chunks) (normalize_payloads payloads) ≡ ok tt
        → choose_id env store cid e ≡ (ok c, chosen)
        → put_workers env store c p 0 (normalize_payloads payloads) chosen ≡ (ok layers, written)
        → describe chunks c layers written ≡ (ok d, e')
        → IsRegistered tokens (normalize_payloads payloads) ttl p e d e'
    describe-IsRegistered tokens e chunks c layers chosen written {d} {e'} hc hk hi hp h =
        let (t, b, saved) = describe-IsBuilt chunks c layers written h in
        record {
          chunks = chunks;
          layers = layers;
          chosen = chosen;
          written = written;
          are_cut = hc;
          are_enough = hk;
          frame = ground (arith, choose_id-frame cid e hi);
          put = rw (b.named) hp;
          only_store =
              subst (StoreOnly chosen) (ap (λ r. r.1) hp)
                (put_workers-StoreOnly c p 0 (normalize_payloads payloads) chosen);
          built =
              subst
                (λ u.
                  IsBuilt env d.cache_id chunks (sorted (Dict.keys (normalize_payloads payloads)))
                    ttl written d u)
                b.after
                (subst
                  (λ x.
                    IsBuilt env x chunks (sorted (Dict.keys (normalize_payloads payloads))) ttl
                      written d t)
                  (sym b.named) b);
          saved = ground (arith, saved, b.named, b.after);
        }

    pub register-IsRegistered :
        (tokens : List ℤ) (e : Engine S) {d : CacheDescriptor} {e' : Engine S}
        → register env store tokens payloads cid ttl p name e ≡ (ok d, e')
        → IsRegistered tokens (normalize_payloads payloads) ttl p e d e'
    unfolding register
    register-IsRegistered tokens e {d} {e'} h =
        let workers = normalize_payloads payloads in
        let (chunks, hc, h1) = continue-eq-ok (chunk_token_ids tokens e.chunk_size) verify e h in
        let (_, hk, h2) =
          continue-eq-ok (check_counts (length chunks) workers) (λ _. choose chunks) e h1 in
        let (c, chosen, hi, h3) = bind-eq-ok (choose_id env store cid) (write chunks) e h2 in
        let (layers, written, hp, h4) =
          bind-eq-ok (put_workers env store c p 0 workers) (describe chunks c) chosen h3 in
        describe-IsRegistered tokens e chunks c layers chosen written hc hk hi hp h4
