-- ===== src/Exec.antt =====
-- Methods that mutate an object and may raise: what was written before a raise stays written, so
-- the state comes back beside the error too.
use llmcache.Prelude.{◌≡◌, refl, ap, Bool, true, false, if◌then◌else◌, ◌∙◌, List, [], ◌∷◌, arith}
use llmcache.Results.{Error, Result, ok, err}

abbrev pub Exec {ℓ} : Type ℓ → Type ℓ → Type ℓ
Exec S A = S → Result A × S

module _ {ℓ} {S A : Type ℓ} where
  abbrev pub pure : A → Exec S A
  pure a s = (ok a, s)

  abbrev pub raise : Error → Exec S A
  raise e s = (err e, s)

  abbrev pub lift : Result A → Exec S A
  lift r s = (r, s)

  abbrev pub gets : (S → A) → Exec S A
  gets f s = (ok (f s), s)

abbrev pub modify : {S : Type 0} → (S → S) → Exec S (Unit {0})
modify f s = (ok tt, f s)

module _ {ℓ} {S A B : Type ℓ} where
  abbrev pub continue : Result A → (A → Exec S B) → Exec S B
  continue (ok a) f s = f a s
  continue (err e) f s = (err e, s)

  infixl 10 ◌>>=◌
  abbrev pub ◌>>=◌ : Exec S A → (A → Exec S B) → Exec S B
  ◌>>=◌ m f s = continue (m s).0 f (m s).1

infixl 10 ◌>>◌
abbrev pub ◌>>◌ : {S B : Type 0} → Exec S (Unit {0}) → Exec S B → Exec S B
m >> k = m >>= λ _. k

-- `for x in xs: body(x)`, ended by the first exception.
unfoldable pub for_each {ℓ} :
    {A : Type ℓ} {S : Type 0} → List A → (A → Exec S (Unit {0})) → Exec S (Unit {0})
for_each [] body s = (ok tt, s)
for_each (x ∷ xs) body s = continue (body x s).0 (λ _. for_each xs body) (body x s).1

module _ {S A B : Type 0} where
  -- What a successful bind was made of.
  pub bind-eq-ok :
      (m : Exec S A) (f : A → Exec S B) (s : S) {b : B} {s' : S}
      → (m >>= f) s ≡ (ok b, s')
      → (a : A) × (t : S) × (m s ≡ (ok a, t)) × (f a t ≡ (ok b, s'))
  bind-eq-ok m f s {b} {s'} h = split (m s) refl h
    where
      split :
          (r : Result A × S)
          → m s ≡ r
          → continue r.0 f r.1 ≡ (ok b, s')
          → (a : A) × (t : S) × (m s ≡ (ok a, t)) × (f a t ≡ (ok b, s'))
      split (ok a, t) e h = (a, t, e, h)
      split (err x, t) e h = absurd (ground arith)

-- The same, where the step has been computed.
pub continue-eq-ok :
    {S A B : Type 0} (r : Result A) (f : A → Exec S B) (s : S) {b : B} {s' : S}
    → continue r f s ≡ (ok b, s')
    → (a : A) × (r ≡ ok a) × (f a s ≡ (ok b, s'))
continue-eq-ok (ok a) f s h = (a, refl, h)
continue-eq-ok (err x) f s h = absurd (ground arith)

-- What holds of the state before a step, and is kept by what follows it, holds at the end.
pub continue-keeps :
    {S A B : Type 0} (P : S → Type 0) (r : Result A) (f : A → Exec S B) (s : S)
    → P s
    → ((a : A) → P (f a s).1)
    → P (continue r f s).1
continue-keeps P (ok a) f s h k = k a
continue-keeps P (err e) f s h k = h

-- The same, where what follows may use the step's result.
pub continue-keeps_ok :
    {S A B : Type 0} (P : S → Type 0) (r : Result A) (f : A → Exec S B) (s : S)
    → P s
    → ((a : A) → r ≡ ok a → P (f a s).1)
    → P (continue r f s).1
continue-keeps_ok P (ok a) f s h k = k a refl
continue-keeps_ok P (err e) f s h k = h

-- The same for a run that is known to raise: the later steps then raise too.
pub continue-raised :
    {S A B : Type 0} (P : S → Type 0) (r : Result A) (f : A → Exec S B) (s : S) {x : Error}
    → P s
    → ((a : A) → (f a s).0 ≡ err x → P (f a s).1)
    → (continue r f s).0 ≡ err x
    → P (continue r f s).1
continue-raised P (ok a) f s h k e = k a e
continue-raised P (err y) f s h k e = h

pub for_each-keeps :
    {A S : Type 0} (P : S → Type 0) (xs : List A) (body : A → Exec S (Unit {0})) (s : S)
    → P s
    → ((x : A) (t : S) → P t → P (body x t).1)
    → P (for_each xs body s).1
unfolding for_each
for_each-keeps P [] body s h k = h
for_each-keeps P (x ∷ xs) body s h k =
    continue-keeps P (body x s).0 (λ _. for_each xs body) (body x s).1 (k x s h)
      λ _. for_each-keeps P xs body (body x s).1 (k x s h) k

-- A loop whose rounds never raise does not.
pub for_each-returns :
    {A S : Type 0} (xs : List A) (body : A → Exec S (Unit {0})) (s : S)
    → ((x : A) (t : S) → (body x t).0 ≡ ok tt)
    → (for_each xs body s).0 ≡ ok tt
unfolding for_each
for_each-returns [] body s h = refl
for_each-returns (x ∷ xs) body s h =
    ap (λ r. (continue r (λ _. for_each xs body) (body x s).1).0) (h x s)
    ∙ for_each-returns xs body (body x s).1 h

-- Either branch of a conditional step.
pub if-keeps :
    {A S : Type 0} (P : S → Type 0) (b : Bool) (m m' : Exec S A) (s : S)
    → P (m s).1
    → P (m' s).1
    → P ((if b then m else m') s).1
if-keeps P true m m' s h h' = h
if-keeps P false m m' s h h' = h'
