-- ===== src/Store/Remote/Promises.antt =====
-- A store in Redis keeps the engine's contract, given what Redis documents of keys that do not
-- expire.
use llmcache.Prelude.{
  ◌≡◌, ◌≢◌, refl, ap, sym, ◌∙◌, String, Bool, true, Option, none, some, List, ℕ, if◌then◌else◌, inl,
  inr, Option-cases, not, ◌==◌,
}
use llmcache.Results.{ok}
use llmcache.Exec.{Exec, lift, continue, pure, bind-eq-ok, continue-keeps, if-keeps, ◌>>◌}
use llmcache.Types.{ChunkKey}
use llmcache.Payload.{KvPayload}
use llmcache.Payload.Framing.{JsonCodec, pack_payload, read}
use llmcache.Payload.Framing.RoundTrip.{read-pack}
use llmcache.Store.Contract.{KeepsPinned}
use llmcache.Store.Remote.{RedisClient, Redis, name_of, put, get, remove, pin, unpin, backend}
use llmcache.Store.Remote.Names.{parse-name_of}

-- Redis: a key that is set without an expiry stays until it is set, deleted or given an expiry;
-- calls about other keys do not touch it, and while the server answers `get` finds it.
pub record Persistence {R : Type 0} (client : RedisClient R) : Type 0 where
  pub kept : R → String → Option (List ℕ)
  pub set_kept :
      (name : String) (value : List ℕ) (r : R)
      → (client.set name value none r).0 ≡ ok tt
      → kept (client.set name value none r).1 name ≡ some value
  pub set_others :
      (name : String) (value : List ℕ) (ex : Option ℕ) (r : R) (other : String)
      → other ≢ name
      → kept (client.set name value ex r).1 other ≡ kept r other
  pub get_kept :
      (name : String) (value : List ℕ) (r : R)
      → kept r name ≡ some value
      → (client.get name r).0 ≡ ok (some value)
  pub get_others :
      (name : String) (r : R) (other : String) → kept (client.get name r).1 other ≡ kept r other
  pub delete_others :
      (name : String) (r : R) (other : String)
      → other ≢ name
      → kept (client.delete name r).1 other ≡ kept r other
  pub persist_others :
      (name : String) (r : R) (other : String) (value : List ℕ)
      → kept r other ≡ some value
      → kept (client.persist name r).1 other ≡ some value
  pub expire_others :
      (name : String) (ttl : ℕ) (r : R) (other : String)
      → other ≢ name
      → kept (client.expire name ttl r).1 other ≡ kept r other

module _ {R : Type 0} (json : JsonCodec) (redis : Redis R) (laws : Persistence redis.client) where
  -- The packed object is kept under the key's name.
  abbrev pub IsKept : R → ChunkKey → KvPayload → Type 0
  IsKept r k o =
      (blob : List ℕ) × (pack_payload json o ≡ ok blob)
      × (laws.kept r (name_of redis.namespace k) ≡ some blob)

  -- The name of another key is another name.
  other_name : (j k : ChunkKey) → j ≢ k → name_of redis.namespace j ≢ name_of redis.namespace k
  other_name j k ne e = ne ((parse-name_of redis.namespace).1 j k e)

  -- `put` with a pin, once the payload is packed
  abbrev set_pinned : String → List ℕ → Exec R (Unit {0})
  set_pinned name blob = redis.client.set name blob none >> redis.client.persist name

  put-IsKept :
      (k : ChunkKey) (o : KvPayload) (r : R)
      → (put json redis k o true r).0 ≡ ok tt
      → IsKept (put json redis k o true r).1 k o
  unfolding put
  put-IsKept k o r h =
      let name = name_of redis.namespace k in
      let finish = λ (blob : List ℕ). set_pinned name blob in
      let (blob, t, packed, rest) =
        bind-eq-ok (lift (pack_payload json o)) finish r
          (λ i. (h i, (put json redis k o true r).1)) in
      let (_, t', was_set, persisted) =
        bind-eq-ok (redis.client.set name blob none) (λ _. redis.client.persist name) t rest in
      let there : laws.kept t' name ≡ some blob =
        ap (λ q. laws.kept q.1 name) (sym was_set)
        ∙ laws.set_kept name blob t (ap (λ q. q.0) was_set) in
      (
        blob,
        ap (λ q. q.0) packed,
        ap (λ q. laws.kept q.1 name) (sym persisted) ∙ laws.persist_others name t' name blob there,
      )

  put_others :
      (k : ChunkKey) (o : KvPayload) (p : Bool) (r : R) (name : String) (value : List ℕ)
      → name ≢ name_of redis.namespace k
      → laws.kept r name ≡ some value
      → laws.kept (put json redis k o p r).1 name ≡ some value
  unfolding put
  put_others k o p r name value ne h =
      continue-keeps Stays (pack_payload json o) (set_then p) r h λ blob.
        let ex : Option ℕ = if p then none else redis.key_ttl in
        let t = (redis.client.set own blob ex r).1 in
        let set : Stays t = laws.set_others own blob ex r name ne ∙ h in
        continue-keeps Stays (redis.client.set own blob ex r).0
          (λ _. if p then redis.client.persist own else pure tt) t set
          λ _.
            if-keeps Stays p (redis.client.persist own) (pure tt) t
              (laws.persist_others own t name value set) set
    where
      own : String
      own = name_of redis.namespace k

      Stays : R → Type 0
      Stays t = laws.kept t name ≡ some value

      set_then : Bool → List ℕ → Exec R (Unit {0})
      set_then q blob =
          redis.client.set own blob (if q then none else redis.key_ttl)
          >> (if q then redis.client.persist own else pure tt)

  unpin_others :
      (k : ChunkKey) (r : R) (name : String)
      → name ≢ name_of redis.namespace k
      → laws.kept (unpin json redis k r).1 name ≡ laws.kept r name
  unfolding unpin
  unpin_others k r name ne = elim (Option-cases redis.key_ttl) [
    | inl e ↦ rw (e, unpin) refl
    | inr (ttl, e) ↦ rw (e, unpin) (laws.expire_others (name_of redis.namespace k) ttl r name ne)
  ]

  -- A `RedisBackend` keeps the engine's contract about pinned objects, given what Redis documents:
  -- an object whose pinned `put` has returned is found by `get` until a `put`, a `remove` or an
  -- `unpin` of the same key, whatever happens to other keys and whether or not those calls raise.
  pub redis-KeepsPinned : KeepsPinned (backend json redis)
  unfolding backend get remove pin
  redis-KeepsPinned = record {
    Holds = IsKept;
    put_holds = put-IsKept;
    put_keeps = λ k o p r j o' ne (blob, packed, kept).
        (blob, packed, put_others k o p r (own j) blob (other_name j k ne) kept);
    get_returns = λ k o r (blob, packed, kept).
        ap (λ q. (continue q (λ found. lift (read json found)) (redis.client.get (own k) r).1).0)
          (laws.get_kept (own k) blob r kept)
        ∙ read-pack json o blob packed;
    get_keeps = λ k r j o (blob, packed, kept). (blob, packed, get_keeps k r j blob kept);
    remove_keeps = λ k r j o ne (blob, packed, kept). (
      blob,
      packed,
      continue-keeps (λ t. laws.kept t (own j) ≡ some blob) (redis.client.delete (own k) r).0
          (λ n. pure (not (n == 0))) (redis.client.delete (own k) r).1
          (laws.delete_others (own k) r (own j) (other_name j k ne) ∙ kept)
          λ _. laws.delete_others (own k) r (own j) (other_name j k ne) ∙ kept,
    );
    pin_keeps = λ k r j o (blob, packed, kept).
        (blob, packed, laws.persist_others (own k) r (own j) blob kept);
    unpin_keeps = λ k r j o ne (blob, packed, kept).
        (blob, packed, unpin_others k r (own j) (other_name j k ne) ∙ kept);
  }
    where
      own : ChunkKey → String
      own = name_of redis.namespace

      get_keeps :
          (k : ChunkKey) (r : R) (j : ChunkKey) (blob : List ℕ)
          → laws.kept r (own j) ≡ some blob
          → laws.kept (get json redis k r).1 (own j) ≡ some blob
      get_keeps k r j blob kept =
          let same = laws.get_others (own k) r (own j) ∙ kept in
          continue-keeps (λ t. laws.kept t (own j) ≡ some blob) (redis.client.get (own k) r).0
            (λ found. lift (read json found)) (redis.client.get (own k) r).1 same λ _. same
