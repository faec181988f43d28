-- ===== src/Engine/Calls/Sweeps.antt =====
-- The sweeps and the listing keep what the rules say, where a sweep is permitted.
use llmcache.Prelude.{
  if◌then◌else◌, ℕ, suc, ◌≡◌, ap, sym, ◌∙◌, inl, inr, subst, String, true, some, List, [], ◌∷◌,
  arith, Bool-cases,
}
use llmcache.Int.{ℤ}
use llmcache.Results.{ok}
use llmcache.Exec.{pure, continue-keeps, continue-keeps_ok, continue-eq-ok, Exec, for_each}
use llmcache.Types.{CacheDescriptor, is_expired}
use llmcache.Dict
use llmcache.Store.{StorageBackend}
use llmcache.Engine.State.{Env, Engine}
use llmcache.Engine.Lifecycle.{check_expired, delete, expired_among, sweep_expired, list}
use llmcache.Engine.Calls.{Rules, All}
use llmcache.Engine.Calls.Reads.{delete_rule, check_expired_rule}

-- A loop whose every round keeps `Q`, from what is known of the elements.
for_each-keeps_all :
    {A S : Type 0} (P : A → Type 0) (Q : S → Type 0) (xs : List A) (body : A → Exec S (Unit {0}))
    (s : S)
    → Q s
    → All P xs
    → ((x : A) (t : S) → P x → Q t → Q (body x t).1)
    → Q (for_each xs body s).1
unfolding for_each
for_each-keeps_all P Q [] body s h all k = h
for_each-keeps_all P Q (x ∷ xs) body s h all k =
    continue-keeps Q (body x s).0 (λ _. for_each xs body) (body x s).1 (k x s all.0 h)
      λ _. for_each-keeps_all P Q xs body (body x s).1 (k x s all.0 h) all.1 k

module _ {S : Type 0} (env : Env) (store : StorageBackend S) {Mine : String → Type 0}
    {Sweeps : Type 0} {Good : String → CacheDescriptor → Type 0} {Q : Engine S → Type 0}
    (rules : Rules env store Mine Sweeps Good Q) where
  expired_among_rule :
      (now : ℤ) (ds : List CacheDescriptor) (e : Engine S)
      → Q e
      → Q (expired_among env store now ds e).1
  unfolding expired_among
  expired_among_rule now [] e h = h
  expired_among_rule now (d ∷ ds) e h =
      let t = (check_expired env store d (some now) e).1 in
      let rest =
        expired_among_rule now ds t (check_expired_rule env store rules d (some now) e h) in
      continue-keeps Q (expired_among env store now ds t).0 _ (expired_among env store now ds t).1
        rest λ _. rest

  -- What is found expired is among what was looked at.
  expired_among-All :
      (P : CacheDescriptor → Type 0) (now : ℤ) (ds : List CacheDescriptor) (e : Engine S)
      {xs : List CacheDescriptor}
      → All
          (λ (d : CacheDescriptor). (m : ℕ) → is_expired d (some now) (env.time m) ≡ true → P d)
          ds
      → (expired_among env store now ds e).0 ≡ ok xs
      → All P xs
  unfolding expired_among check_expired
  expired_among-All P now [] e {xs} h found =
      let same : [] ≡ xs = ground arith in subst (All P) same tt
  expired_among-All P now (d ∷ ds) e {xs} h found =
      let t = (check_expired env store d (some now) e).1 in
      let expired = is_expired d (some now) (env.time e.readings) in
      let finish =
        λ (rest : List CacheDescriptor). pure {S = Engine S} (if expired then d ∷ rest else rest) in
      let (rest, among, last) =
        continue-eq-ok (expired_among env store now ds t).0 finish
          (expired_among env store now ds t).1
          (ap (λ r. (r, (expired_among env store now (d ∷ ds) e).1)) found) in
      let got : (if expired then d ∷ rest else rest) ≡ xs = ground arith in
      let more = expired_among-All P now ds t h.1 among in
      elim (Bool-cases expired) [
        | inl late ↦
            subst (All P) (sym (ap (λ b. if b then d ∷ rest else rest) late) ∙ got)
              (h.0 e.readings late, more)
        | inr fresh ↦ subst (All P) (sym (ap (λ b. if b then d ∷ rest else rest) fresh) ∙ got) more
      ]

  pub sweep_rule : (e : Engine S) → Sweeps → Q e → Q (sweep_expired env store e).1
  unfolding sweep_expired
  sweep_rule e may h =
      let now = env.time e.readings in
      let t = record e { readings = suc e.readings } in
      let m = expired_among env store now (Dict.values e.descriptors) in
      let kept = expired_among_rule now (Dict.values e.descriptors) t (rules.clock e h) in
      continue-keeps_ok Q (m t).0 _ (m t).1 kept λ expired found.
        let swept =
          for_each-keeps_all (λ d. Mine d.cache_id) Q expired (λ d. delete env store d.cache_id)
            (m t).1 kept
            (expired_among-All (λ d. Mine d.cache_id) now (Dict.values e.descriptors) t
              (rules.swept e e.readings may h) found)
            λ d u mine hu. delete_rule env store rules d.cache_id u mine hu in
        let r = for_each expired (λ d. delete env store d.cache_id) (m t).1 in
        continue-keeps Q r.0 _ r.1 swept λ _. swept

  pub list_rule : (e : Engine S) → Sweeps → Q e → Q (list env store e).1
  unfolding list
  list_rule e may h =
      let kept = sweep_rule e may h in
      continue-keeps Q (sweep_expired env store e).0 _ (sweep_expired env store e).1 kept λ _. kept
