-- ===== src/Engine/Calls/Soundness.antt =====
-- The dictionary of descriptors is in order, whatever calls the engine has seen.
use llmcache.Prelude.{
  true, ℕ, ◌≡◌, ◌<◌, refl, ap, sym, ◌∙◌, subst, String, false, Option, some, List, [], ◌∷◌, arith,
  length, String_discrete,
}
use llmcache.Int.{ℤ}
use llmcache.Results.{ok}
use llmcache.Types.{is_expired, CacheDescriptor, num_chunks, chunk_token_ids}
use llmcache.Types.Chunks.{num_chunks_for}
use llmcache.Dict
use llmcache.Dict.{Dict}
use llmcache.Store.{StorageBackend}
use llmcache.Engine.State.{Env, Engine}
use llmcache.Engine.Built.{IsBuilt, length-fingerprints}
use llmcache.Engine.Hits.{pos_of_cut, total_tokens_of_cut}
use llmcache.Engine.Lifecycle.{is_falsy}
use llmcache.Engine.Expiry.{Removes}
use llmcache.Engine.Lifecycle
use llmcache.Engine.Sweep.{IsKeyed, late, unexpired, sweep_expired-unexpired}
use llmcache.Engine.Calls.{
  All, Call, Rules, register, put_chunk, commit, get, exists, delete, pin, unpin, lookup, load,
  extend_ttl, sweep_expired, list,
}
use llmcache.Engine.Calls.Sequences.{run, run_rule, About, AllAbout}

-- A descriptor that stands under `cid` in an engine that cuts tokens into chunks of `size`.
pub record IsDescribed (size : ℕ) (cid : String) (d : CacheDescriptor) : Type 0 where
  pub own : d.cache_id ≡ cid
  pub sized : d.chunk_size ≡ size
  pub wide : 0 < size
  pub whole : num_chunks d ≡ num_chunks_for d.num_tokens size

pub record IsSound (size : ℕ) (dict : Dict String CacheDescriptor) : Type 0 where
  pub keyed : IsKeyed dict
  pub described :
      (cid : String) (d : CacheDescriptor)
      → Dict.get String_discrete dict cid ≡ some d
      → IsDescribed size cid d

abbrev pub Described : ℕ → Dict String CacheDescriptor → Type 0
Described size dict =
    (cid : String) (d : CacheDescriptor)
    → Dict.get String_discrete dict cid ≡ some d
    → IsDescribed size cid d

none-Described : (size : ℕ) → Described size []
unfolding Dict.get
none-Described size c x found = absurd (ground arith)

Described-put :
    (size : ℕ) (dict : Dict String CacheDescriptor) (cid : String) (d : CacheDescriptor)
    → IsDescribed size cid d
    → Described size dict
    → Described size (Dict.put String_discrete dict cid d)
Described-put size dict cid d good h c x found = elim (String_discrete cid c) [
  | yes same ↦
      let it : d ≡ x = ground (arith, Dict.get-put String_discrete dict cid c d) in
      subst (λ k. IsDescribed size k x) same (subst (IsDescribed size cid) it good)
  | no ne ↦ h c x (ground (arith, Dict.get-put String_discrete dict cid c d))
]

Described-remove :
    (size : ℕ) (dict : Dict String CacheDescriptor) (cid : String)
    → Described size dict
    → Described size (Dict.remove String_discrete dict cid)
Described-remove size dict cid h c x found =
    h c x (ground (arith, Dict.get-remove String_discrete dict cid c))

-- Keys that are distinct, each with a descriptor of that id.
IsKeyed-of_described :
    (dict : Dict String CacheDescriptor)
    → Dict.Distinct String_discrete dict
    → ((cid : String) (d : CacheDescriptor)
        → Dict.get String_discrete dict cid ≡ some d
        → d.cache_id ≡ cid)
    → IsKeyed dict
unfolding Dict.get
IsKeyed-of_described [] distinct h = tt
IsKeyed-of_described ((cid, d) ∷ rest) distinct h = (
  h cid d (ground arith),
  distinct.0,
  IsKeyed-of_described rest distinct.1 λ c x found. h c x (ground (arith, distinct.0)),
)

any_id :
    {S : Type 0} (env : Env) (store : StorageBackend S) (call : Call)
    → About env store (λ _. Unit) Unit call
any_id env store (register tokens payloads cid ttl p name) = (λ _ _. tt, λ _. tt)
any_id env store (put_chunk cid idx o worker p) = tt
any_id env store (commit cid tokens layers workers ttl p name) = tt
any_id env store (get cid) = tt
any_id env store (exists cid) = tt
any_id env store (delete cid) = tt
any_id env store (pin cid) = tt
any_id env store (unpin cid) = tt
any_id env store (lookup cid request) = tt
any_id env store (load cid wanted worker) = tt
any_id env store (extend_ttl cid ttl) = tt
any_id env store sweep_expired = tt
any_id env store list = tt

any_ids :
    {S : Type 0} (env : Env) (store : StorageBackend S) (calls : List Call)
    → AllAbout env store (λ _. Unit) Unit calls
any_ids env store [] = tt
any_ids env store (call ∷ calls) = (any_id env store call, any_ids env store calls)

All-swept :
    (P : ℕ → CacheDescriptor → Type 0) (ds : List CacheDescriptor)
    → All (λ d. (m : ℕ) → P m d → Unit) ds
All-swept P [] = tt
All-swept P (d ∷ ds) = (λ _ _. tt, All-swept P ds)

module _ {S : Type 0} (env : Env) (store : StorageBackend S) (size : ℕ) where
  -- Distinct keys, and a descriptor of its key under each.
  abbrev pub Kept : Engine S → Type 0
  Kept e =
      (e.chunk_size ≡ size)
      × Dict.Distinct String_discrete e.descriptors
      × Described size e.descriptors

  built-IsDescribed :
      (cid : String) (tokens : List ℤ) (chunks : List (List ℤ)) (workers : List ℕ) (ttl : Option ℤ)
      (e t : Engine S) (d : CacheDescriptor) (t' : Engine S)
      → e.chunk_size ≡ size
      → t.chunk_size ≡ size
      → chunk_token_ids tokens e.chunk_size ≡ ok chunks
      → IsBuilt env cid chunks workers ttl t d t'
      → IsDescribed size cid d
  built-IsDescribed cid tokens chunks workers ttl e t d t' esize tsize cut b =
      let cut' = subst (λ n. chunk_token_ids tokens n ≡ ok chunks) esize cut in
      let pos = pos_of_cut tokens size cut' in
      let (total, count) = total_tokens_of_cut tokens size pos cut' in
      record {
        own = b.named;
        sized = b.sized ∙ tsize;
        wide = pos;
        whole =
            length-fingerprints env.digest chunks b.printed
            ∙ count
            ∙ ap (λ n. num_chunks_for n size) (sym (b.counted ∙ total));
      }

  pub Kept-rules : Rules env store (λ _. Unit) Unit (IsDescribed size) Kept
  Kept-rules = record {
    clock = λ e h. h;
    ids = λ e h. h;
    put = λ k o p e _ h. h;
    get = λ k e _ h. h;
    remove = λ k e _ h. h;
    pin = λ k e _ h. h;
    unpin = λ k e _ h. h;
    found = λ cid e d h f. h.2 cid d f;
    forget = λ cid e _ h. (
      h.0,
      Dict.remove-Distinct String_discrete e.descriptors cid h.1,
      Described-remove size e.descriptors cid h.2,
    );
    save = λ cid d e _ good h. (
      h.0,
      Dict.put-Distinct String_discrete e.descriptors cid d h.1,
      Described-put size e.descriptors cid d good h.2,
    );
    used = λ cid d now g. record { own = g.own; sized = g.sized; wide = g.wide; whole = g.whole };
    moved = λ cid d at g. record { own = g.own; sized = g.sized; wide = g.wide; whole = g.whole };
    marked = λ cid d p g. record { own = g.own; sized = g.sized; wide = g.wide; whole = g.whole };
    built = λ cid tokens chunks workers ttl e t d t' he ht cut b.
        built-IsDescribed cid tokens chunks workers ttl e t d t' he.0 ht.0 cut b;
    swept = λ e n may h.
        All-swept (λ m d. is_expired d (some (env.time n)) (env.time m) ≡ true)
          (Dict.values e.descriptors);
  }

module _ {S : Type 0} (env : Env) (store : StorageBackend S) where
  pub run-Kept :
      (e : Engine S) (calls : List Call)
      → e.descriptors ≡ []
      → Kept env store e.chunk_size (run env store e calls)
  run-Kept e calls new =
      run_rule env store (Kept-rules env store e.chunk_size) e calls (any_ids env store calls) (
        refl,
        subst (Dict.Distinct String_discrete) (sym new) tt,
        subst (Described e.chunk_size) (sym new) (none-Described e.chunk_size),
      )

  -- Whatever the store does: after any calls on an engine that started with no descriptors, calls
  -- that raised among them, each descriptor stands under its own cache id, once; its chunk size is
  -- the engine's, which is positive, and its chunks are as many as its tokens need, the last one
  -- perhaps not full.
  pub run-IsSound :
      (e : Engine S) (calls : List Call)
      → e.descriptors ≡ []
      → IsSound e.chunk_size (run env store e calls).descriptors
  run-IsSound e calls new =
      let (_, distinct, described) = run-Kept e calls new in
      record {
        keyed =
            IsKeyed-of_described (run env store e calls).descriptors distinct
              λ cid d found. (described cid d found).own;
        described = described;
      }

  -- When the store's `remove` does not raise: after any calls on an engine that started with no
  -- descriptors, and while the clock does not read 0, `sweep_expired` returns how many descriptors
  -- are past their deadlines, and exactly those that are not are left, each found as before.
  pub run-sweep_expired :
      (e : Engine S) (calls : List Call)
      → e.descriptors ≡ []
      → Removes env store
      → is_falsy (env.time (run env store e calls).readings) ≡ false
      → ((Lifecycle.sweep_expired env store (run env store e calls)).0
          ≡ ok (
              length (
                late
                  (env.time (run env store e calls).readings)
                  (Dict.values (run env store e calls).descriptors))))
        × ((c : String)
            → Dict.get String_discrete
                (Lifecycle.sweep_expired env store (run env store e calls)).1.descriptors
                c
              ≡ unexpired
                  (env.time (run env store e calls).readings)
                  (Dict.get String_discrete (run env store e calls).descriptors c))
  run-sweep_expired e calls new removes truthy =
      sweep_expired-unexpired env store (run env store e calls) removes
        (run-IsSound e calls new).keyed truthy
