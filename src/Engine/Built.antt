-- ===== src/Engine/Built.antt =====
-- What `_build_descriptor` makes, and what the count check ensures.
use llmcache.Prelude.{
  ℕ, suc, ◌≡◌, refl, String, Bool, Option, none, some, List, [], ◌∷◌, arith, length, ℕ_discrete,
}
use llmcache.Int.{ℤ}
use llmcache.Results.{Result, ok, err, >>=-eq-ok}
use llmcache.Exec.{continue, pure}
use llmcache.Types.{CacheDescriptor, token_fingerprint}
use llmcache.Types.Matching.{fingerprints}
use llmcache.Payload.{KvPayload}
use llmcache.Dict
use llmcache.Dict.{Dict}
use llmcache.Store.{StorageBackend}
use llmcache.Engine.State.{Env, Engine}
use llmcache.Engine.Register.{check_counts, build_descriptor, effective_ttl, deadline, total_tokens}

pub length-fingerprints :
    (digest : List ℕ → String) (chunks : List (List ℤ)) {fps : List String}
    → fingerprints digest chunks ≡ ok fps
    → length fps ≡ length chunks
unfolding fingerprints
length-fingerprints digest [] h = ground arith
length-fingerprints digest (c ∷ cs) {fps} h =
    let (fp, _, h') = >>=-eq-ok (token_fingerprint digest c) _ h in
    let (fps', hs, h'') = >>=-eq-ok (fingerprints digest cs) _ h' in
    ground (arith, length-fingerprints digest cs hs)

-- A worker that passes the check has a payload for every chunk.
pub check_counts-length :
    (expected : ℕ) (workers : Dict ℕ (List KvPayload)) (w : ℕ) {ps : List KvPayload}
    → check_counts expected workers ≡ ok tt
    → Dict.get ℕ_discrete workers w ≡ some ps
    → length ps ≡ expected
unfolding check_counts Dict.get
check_counts-length expected [] w h found = absurd (ground arith)
check_counts-length expected ((v, qs) ∷ rest) w {ps} h found =
    ground (arith, check_counts-length expected rest w {ps = ps})

-- What `_build_descriptor` made, in engine `e`, from the chunks.
pub record IsBuilt {S : Type 0} (env : Env) (cid : String) (chunks : List (List ℤ))
    (workers : List ℕ) (ttl : Option ℤ) (e : Engine S) (d : CacheDescriptor) (e' : Engine S)
    : Type 0 where
  pub named : d.cache_id ≡ cid
  pub sized : d.chunk_size ≡ e.chunk_size
  pub counted : d.num_tokens ≡ total_tokens chunks
  pub owners : d.worker_ids ≡ workers
  pub printed : fingerprints env.digest chunks ≡ ok d.chunk_fingerprints
  pub expires : d.expires_at ≡ deadline (env.time e.readings) (effective_ttl ttl e.default_ttl)
  pub after : e' ≡ record e { readings = suc e.readings }

pub build_descriptor-IsBuilt :
    {S : Type 0} (env : Env) (store : StorageBackend S) (cid : String) (chunks : List (List ℤ))
    (layers : ℕ) (workers : List ℕ) (ttl : Option ℤ) (p : Bool) (name : Option String)
    (e : Engine S) {d : CacheDescriptor} {e' : Engine S}
    → build_descriptor env store cid chunks layers workers ttl p name e ≡ (ok d, e')
    → IsBuilt env cid chunks workers ttl e d e'
unfolding build_descriptor
build_descriptor-IsBuilt env store cid chunks layers workers ttl p name e {d} {e'} h =
    finish (fingerprints env.digest chunks) refl h
  where
    finish :
        (r : Result (List String))
        → fingerprints env.digest chunks ≡ r
        → continue r
            (λ fps s.
              pure
                (record {
                  cache_id = cid;
                  num_tokens = total_tokens chunks;
                  chunk_size = s.chunk_size;
                  num_layers = layers;
                  worker_ids = workers;
                  created_at = env.time e.readings;
                  expires_at = deadline (env.time e.readings) (effective_ttl ttl s.default_ttl);
                  pinned = p;
                  chunk_fingerprints = fps;
                  name = name;
                  hits = 0;
                  last_used_at = none;
                })
                s)
            (record e { readings = suc e.readings })
          ≡ (ok d, e')
        → IsBuilt env cid chunks workers ttl e d e'
    finish (ok fps) q h = record {
      named = ground arith;
      sized = ground arith;
      counted = ground arith;
      owners = ground arith;
      printed = ground arith;
      expires = ground arith;
      after = ground arith;
    }
    finish (err x) q h = absurd (ground arith)
