-- ===== src/Engine/Sweep.antt =====
-- `sweep_expired` removes the descriptors that are past their deadlines, and no others.
use llmcache.Prelude.{
  ℕ, zero, suc, ◌≡◌, refl, ap, ap₂, ◌∙◌, String, Bool, false, Option, none, some, List, [], ◌∷◌,
  map, length, arith, inl, inr, String_discrete, Option-cases, Bool-cases, if◌then◌else◌,
}
use llmcache.Int.{ℤ, pos, negsuc}
use llmcache.Results.{Result, ok}
use llmcache.Exec.{Exec, pure, continue, for_each, ◌>>=◌, ◌>>◌}
use llmcache.Types.{CacheDescriptor, is_expired, or_clock}
use llmcache.Dict
use llmcache.Dict.{Dict}
use llmcache.Sets
use llmcache.Store.{StorageBackend}
use llmcache.Engine.State.{Env, Engine}
use llmcache.Engine.Lifecycle.{is_falsy, check_expired, expired_among, delete, sweep_expired}
use llmcache.Engine.Removal.{get-delete}
use llmcache.Engine.Expiry.{Removes, delete-returns}

-- Each descriptor stands under its own cache id, once.
abbrev pub IsKeyed : Dict String CacheDescriptor → Type 0
IsKeyed [] = Unit
IsKeyed ((cid, d) ∷ rest) =
    (d.cache_id ≡ cid) × (Dict.get String_discrete rest cid ≡ none) × IsKeyed rest

-- Past its deadline at `now`.
abbrev pub is_late : ℤ → CacheDescriptor → Bool
is_late now d = is_expired d (some now) now

unfoldable pub late : ℤ → List CacheDescriptor → List CacheDescriptor
late now [] = []
late now (d ∷ ds) = let rest = late now ds in if is_late now d then d ∷ rest else rest

-- What is left of what was found under a cache id.
abbrev pub unexpired : ℤ → Option CacheDescriptor → Option CacheDescriptor
unexpired now none = none
unexpired now (some d) = if is_late now d then none else some d

abbrev named : String → List CacheDescriptor → Bool
named c ds = Sets.has String_discrete (map (λ (d : CacheDescriptor). d.cache_id) ds) c

late-unnamed :
    (now : ℤ) (dict : Dict String CacheDescriptor) (c : String)
    → IsKeyed dict
    → Dict.get String_discrete dict c ≡ none
    → named c (late now (Dict.values dict)) ≡ false
unfolding late Dict.get Sets.has
late-unnamed now [] c h n = refl
late-unnamed now ((cid, d) ∷ rest) c h n = elim (Bool-cases (is_late now d)) [
  | inl e ↦ rw (e, late) (ground (arith, late-unnamed now rest c h.2, h.0))
  | inr e ↦ rw (e, late) (ground (arith, late-unnamed now rest c h.2, h.0))
]

late-unexpired :
    (now : ℤ) (dict : Dict String CacheDescriptor) (c : String)
    → IsKeyed dict
    → (if named c (late now (Dict.values dict)) then none else Dict.get String_discrete dict c)
      ≡ unexpired now (Dict.get String_discrete dict c)
unfolding late Dict.get Sets.has
late-unexpired now [] c h = refl
late-unexpired now ((cid, d) ∷ rest) c h = elim (Bool-cases (is_late now d)) [
  | inl e ↦
      rw (e, late)
        (ground (arith, late-unnamed now rest c h.2, late-unexpired now rest c h.2, h.0, h.1))
  | inr e ↦
      rw (e, late)
        (ground (arith, late-unnamed now rest c h.2, late-unexpired now rest c h.2, h.0, h.1))
]

-- With a time that is not 0, a deadline is compared with it, whatever the clock says.
is_expired_at :
    (d : CacheDescriptor) (now clock : ℤ)
    → is_falsy now ≡ false
    → is_expired d (some now) clock ≡ is_late now d
unfolding is_expired or_clock
is_expired_at d (pos zero) clock h = absurd (ground arith)
is_expired_at d (pos (suc n)) clock h = refl
is_expired_at d (negsuc n) clock h = refl

module _ {S : Type 0} (env : Env) (store : StorageBackend S) where
  check_late :
      (d : CacheDescriptor) (now : ℤ) (e : Engine S)
      → is_falsy now ≡ false
      → check_expired env store d (some now) e ≡ (ok (is_late now d), e)
  unfolding check_expired
  check_late d now e h =
      ap₂ (λ b t. (ok b, t)) (is_expired_at d now (env.time e.readings) h)
        (ground (arith, Option-cases d.expires_at, h))

  expired_among-late :
      (now : ℤ) (ds : List CacheDescriptor) (e : Engine S)
      → is_falsy now ≡ false
      → expired_among env store now ds e ≡ (ok (late now ds), e)
  unfolding expired_among late
  expired_among-late now [] e h = refl
  expired_among-late now (d ∷ ds) e h =
      let finish = λ (x : Bool) (rest : List CacheDescriptor).
        pure {S = Engine S} (if x then d ∷ rest else rest) in
      ap (λ r. continue r.0 (λ x. expired_among env store now ds >>= finish x) r.1)
        (check_late d now e h)
      ∙ ap (λ r. continue r.0 (finish (is_late now d)) r.1) (expired_among-late now ds e h)

  deleted-get :
      (ds : List CacheDescriptor) (e : Engine S) (c : String)
      → Removes env store
      → (let r = for_each ds (λ d. delete env store d.cache_id) e in
          (r.0 ≡ ok tt)
          × (Dict.get String_discrete r.1.descriptors c
              ≡ (if named c ds then none else Dict.get String_discrete e.descriptors c)))
  unfolding for_each Sets.has
  deleted-get [] e c removes = (refl, refl)
  deleted-get (d ∷ ds) e c removes =
      let body = λ (d : CacheDescriptor). delete env store d.cache_id in
      let t = (delete env store d.cache_id e).1 in
      let step =
        ap (λ r. continue r (λ _. for_each ds body) t)
          (delete-returns env store removes d.cache_id e) in
      let (returns, left) = deleted-get ds t c removes in
      (
        ap (λ r. r.0) step ∙ returns,
        ap (λ r. Dict.get String_discrete r.1.descriptors c) step
            ∙ left
            ∙ ground (arith, get-delete env store d.cache_id c e),
      )

  -- When the store's `remove` does not raise, each descriptor stands under its own cache id, and
  -- the clock does not read 0, `sweep_expired` returns how many descriptors are past their
  -- deadlines, and of the descriptors exactly those are left that are not.
  pub sweep_expired-unexpired :
      (e : Engine S)
      → Removes env store
      → IsKeyed e.descriptors
      → is_falsy (env.time e.readings) ≡ false
      → ((sweep_expired env store e).0
          ≡ ok (length (late (env.time e.readings) (Dict.values e.descriptors))))
        × ((c : String)
            → Dict.get String_discrete (sweep_expired env store e).1.descriptors c
              ≡ unexpired (env.time e.readings) (Dict.get String_discrete e.descriptors c))
  unfolding sweep_expired
  sweep_expired-unexpired e removes keyed truthy = (
    ap (λ r. r.0) step ∙ ap (λ r. (continue r (λ _. finish) swept.1).0) gone,
    λ c.
        let (returns, left) = deleted-get (late now (Dict.values e.descriptors)) ticked c removes in
        ap (λ r. Dict.get String_discrete r.1.descriptors c) step
        ∙ ap (λ r. Dict.get String_discrete (continue r (λ _. finish) swept.1).1.descriptors c)
            returns
        ∙ left
        ∙ late-unexpired now e.descriptors c keyed,
  )
    where
      now : ℤ
      now = env.time e.readings

      ticked : Engine S
      ticked = record e { readings = suc e.readings }

      swept : Result (Unit {0}) × Engine S
      swept =
          for_each (late now (Dict.values e.descriptors)) (λ d. delete env store d.cache_id) ticked

      finish : Exec (Engine S) ℕ
      finish = pure (length (late now (Dict.values e.descriptors)))

      gone : swept.0 ≡ ok tt
      gone = (deleted-get (late now (Dict.values e.descriptors)) ticked "" removes).0

      step : sweep_expired env store e ≡ continue swept.0 (λ _. finish) swept.1
      step =
          ap
            (λ r.
              continue r.0
                (λ expired.
                  for_each expired (λ d. delete env store d.cache_id) >> pure (length expired))
                r.1)
            (expired_among-late now (Dict.values e.descriptors) ticked truthy)
