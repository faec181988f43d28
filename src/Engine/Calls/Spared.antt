-- ===== src/Engine/Calls/Spared.antt =====
-- What the calls about other cache ids, and the sweeps, do with one descriptor.
use llmcache.Prelude.{
  suc, zero, [], ◌∷◌, ℕ, ◌≡◌, ◌≢◌, sym, ◌∙◌, String, true, false, none, some, arith,
  String_discrete,
}
use llmcache.Int.{ℤ, pos, negsuc}
use llmcache.Types.{or_clock, CacheDescriptor, is_expired}
use llmcache.Dict
use llmcache.Dict.{Dict}
use llmcache.Store.{StorageBackend}
use llmcache.Engine.State.{Env}
use llmcache.Engine.Live.{Lasts}
use llmcache.Engine.Calls.{All}

pub get-put_other :
    (dict : Dict String CacheDescriptor) (k j : String) (d : CacheDescriptor)
    → k ≢ j
    → Dict.get String_discrete (Dict.put String_discrete dict k d) j
      ≡ Dict.get String_discrete dict j
get-put_other dict k j d ne = ground (arith, Dict.get-put String_discrete dict k j d)

pub get-remove_other :
    (dict : Dict String CacheDescriptor) (k j : String)
    → k ≢ j
    → Dict.get String_discrete (Dict.remove String_discrete dict k) j
      ≡ Dict.get String_discrete dict j
get-remove_other dict k j ne = ground (arith, Dict.get-remove String_discrete dict k j)

-- What never expires by the clock has not expired at a reading of it either.
lasting-is_expired :
    (d : CacheDescriptor) (now clock : ℤ)
    → is_expired d none now ≡ false
    → is_expired d none clock ≡ false
    → is_expired d (some now) clock ≡ false
unfolding is_expired or_clock
lasting-is_expired d (pos zero) clock h h' = h'
lasting-is_expired d (pos (suc n)) clock h h' = h
lasting-is_expired d (negsuc n) clock h h' = h

module _ {S : Type 0} (env : Env) (store : StorageBackend S) where
  -- A sweep spares a descriptor that never expires.
  pub spared :
      (d : CacheDescriptor) (n : ℕ) (dict : Dict String CacheDescriptor)
      → Lasts env store d
      → Dict.Distinct String_discrete dict
      → ((cid : String) (x : CacheDescriptor)
          → Dict.get String_discrete dict cid ≡ some x
          → (x.cache_id ≡ cid) × (cid ≡ d.cache_id → x ≡ d))
      → All
          (λ (x : CacheDescriptor).
            (m : ℕ)
            → is_expired x (some (env.time n)) (env.time m) ≡ true
            → x.cache_id ≢ d.cache_id)
          (Dict.values dict)
  unfolding Dict.get
  spared d n [] lasts distinct h = tt
  spared d n ((cid, x) ∷ rest) lasts distinct h = (
    λ m late same.
        let stands = h cid x (ground arith) in
        let safe = lasting-is_expired d (env.time n) (env.time m) (lasts n) (lasts m) in
        ground (arith, stands.1 (sym stands.0 ∙ same), safe),
    spared d n rest lasts distinct.1 λ c y found. h c y (ground (arith, distinct.0)),
  )
