-- ===== src/Engine/Committed.antt =====
-- What `commit` leaves when it returns: the descriptor that it publishes.
use llmcache.Prelude.{
  ℕ, ◌≡◌, refl, ap, sym, ◌∙◌, subst, String, Bool, Option, some, List, arith, length,
  String_discrete,
}
use llmcache.Int.{ℤ}
use llmcache.Results.{ok}
use llmcache.Exec.{pure, modify, bind-eq-ok, continue-eq-ok, ◌>>=◌, ◌>>◌}
use llmcache.Types.{CacheDescriptor, num_chunks, chunk_token_ids}
use llmcache.Dict
use llmcache.Store.{StorageBackend}
use llmcache.Engine.State.{Env, Engine}
use llmcache.Engine.Register.{sorted, build_descriptor, save_descriptor, commit}
use llmcache.Engine.Built.{build_descriptor-IsBuilt, length-fingerprints}

module _ {S : Type 0} (env : Env) (store : StorageBackend S) where
  -- What a commit that returned leaves.
  pub record IsCommitted (cid : String) (tokens : List ℤ) (e : Engine S) (d : CacheDescriptor)
      (e' : Engine S) : Type 0 where
    pub chunks : List (List ℤ)
    pub are_cut : chunk_token_ids tokens e.chunk_size ≡ ok chunks
    pub counted : num_chunks d ≡ length chunks
    pub found : Dict.get String_discrete e'.descriptors cid ≡ some d
    pub same_store : e'.store ≡ e.store
    pub same_size : e'.chunk_size ≡ e.chunk_size

  commit_saved :
      (cid : String) (d : CacheDescriptor) (e : Engine S)
      → (Dict.get String_discrete (save_descriptor env store cid d e).descriptors cid ≡ some d)
        × ((save_descriptor env store cid d e).store ≡ e.store)
        × ((save_descriptor env store cid d e).chunk_size ≡ e.chunk_size)
  unfolding save_descriptor
  commit_saved cid d e =
      (ground (arith, Dict.get-put String_discrete e.descriptors cid cid d), refl, refl)

  pub commit-IsCommitted :
      (cid : String) (tokens : List ℤ) (layers : ℕ) (workers : List ℕ) (ttl : Option ℤ) (p : Bool)
      (name : Option String) (e : Engine S) {d : CacheDescriptor} {e' : Engine S}
      → commit env store cid tokens layers workers ttl p name e ≡ (ok d, e')
      → IsCommitted cid tokens e d e'
  unfolding commit
  commit-IsCommitted cid tokens layers workers ttl p name e {d} {e'} h =
      let finish = λ (d : CacheDescriptor). modify (save_descriptor env store cid d) >> pure d in
      let build = λ (chunks : List (List ℤ)).
        build_descriptor env store cid chunks layers (sorted workers) ttl p name in
      let (chunks, hc, h1) =
        continue-eq-ok (chunk_token_ids tokens e.chunk_size) (λ cs. build cs >>= finish) e h in
      let (d', t, hb, h2) = bind-eq-ok (build chunks) finish e h1 in
      let b =
        build_descriptor-IsBuilt env store cid chunks layers (sorted workers) ttl p name e hb in
      let same : d' ≡ d = ground arith in
      let left : e' ≡ save_descriptor env store cid d t = ground arith in
      let (found, kept, sized) = commit_saved cid d t in
      record {
        chunks = chunks;
        are_cut = hc;
        counted =
            ap (λ (d : CacheDescriptor). num_chunks d) (sym same)
            ∙ length-fingerprints env.digest chunks b.printed;
        found =
            subst (λ (u : Engine S). Dict.get String_discrete u.descriptors cid ≡ some d) (sym left)
              found;
        same_store =
            ap (λ (u : Engine S). u.store) left ∙ kept ∙ ap (λ (u : Engine S). u.store) b.after;
        same_size =
            ap (λ (u : Engine S). u.chunk_size) left
            ∙ sized
            ∙ ap (λ (u : Engine S). u.chunk_size) b.after;
      }
