-- ===== src/Dict.antt =====
-- Python's `dict` and `collections.OrderedDict`: entries in insertion order. Assigning to a key
-- that is present keeps its place. Deletion drops every entry with the key: one, since keys are
-- distinct.
use llmcache.Prelude.{
  ◌≡◌, refl, Option, none, some, List, [], ◌∷◌, ◌++◌, map, ite, arith, Option-cases, ap, ◌∙◌,
  append-nil, inl, inr, if_pos, if_neg,
}

abbrev pub Dict {ℓ} : Type ℓ → Type ℓ → Type ℓ
Dict K V = List (K × V)

module _ {ℓ} {K V : Type ℓ} where
  -- `d.keys()`
  abbrev pub keys : Dict K V → List K
  keys = map (λ e. e.0)

  -- `d.values()`
  abbrev pub values : Dict K V → List V
  values = map (λ e. e.1)

module _ {ℓ} {K V : Type ℓ} (dec : Discrete K) where
  -- `d.get(k)`
  unfoldable pub get : Dict K V → K → Option V
  get [] k = none
  get ((j, v) ∷ d) k = ite (dec j k) (some v) (get d k)

  -- `d[k] = v`
  unfoldable pub put : Dict K V → K → V → Dict K V
  put [] k v = (k, v) ∷ []
  put ((j, w) ∷ d) k v = ite (dec j k) ((k, v) ∷ d) ((j, w) ∷ put d k v)

  -- `d.pop(k, None)`, the dictionary that is left
  unfoldable pub remove : Dict K V → K → Dict K V
  remove [] k = []
  remove ((j, w) ∷ d) k = let rest = remove d k in ite (dec j k) rest ((j, w) ∷ rest)

  -- `d.move_to_end(k)`, for a key that is present
  unfoldable pub move_to_end : Dict K V → K → Dict K V
  move_to_end d k = elim (get d k) [ none ↦ d | some v ↦ remove d k ++ (k, v) ∷ [] ]

  abbrev pub Distinct : Dict K V → Type ℓ
  Distinct [] = Unit
  Distinct ((j, v) ∷ d) = (get d j ≡ none) × Distinct d

  pub get-put :
      (d : Dict K V) (k j : K) (v : V) → get (put d k v) j ≡ ite (dec k j) (some v) (get d j)
  unfolding get put
  get-put [] k j v = refl
  get-put ((i, w) ∷ d) k j v = ground (arith, get-put d k j v)

  pub get-remove : (d : Dict K V) (k j : K) → get (remove d k) j ≡ ite (dec k j) none (get d j)
  unfolding get remove
  get-remove [] k j = ground arith
  get-remove ((i, w) ∷ d) k j = ground (arith, get-remove d k j)

  pub get-append :
      (d e : Dict K V) (j : K)
      → get (d ++ e) j ≡ elim (get d j) [ none ↦ get e j | some v ↦ some v ]
  unfolding get
  get-append [] e j = refl
  get-append ((i, w) ∷ d) e j = ground (arith, get-append d e j)

  pub get-move_to_end : (d : Dict K V) (k j : K) → get (move_to_end d k) j ≡ get d j
  unfolding move_to_end get
  get-move_to_end d k j = elim (Option-cases (get d k)) [
    | inl e ↦ rw (e, move_to_end)
    | inr (v, e) ↦
        rw (e, move_to_end)
          (ground (arith, get-append (remove d k) ((k, v) ∷ []) j, get-remove d k j))
  ]

  get_one : (k : K) (v : V) → get ((k, v) ∷ []) k ≡ some v
  unfolding get
  get_one k v = ground arith

  pub remove_absent : (d : Dict K V) (k : K) → get d k ≡ none → remove d k ≡ d
  unfolding get remove
  remove_absent [] k h = refl
  remove_absent ((j, v) ∷ d) k h = ground (arith, remove_absent d k)

  pub put_absent : (d : Dict K V) (k : K) (v : V) → get d k ≡ none → put d k v ≡ d ++ (k, v) ∷ []
  unfolding get put
  put_absent [] k v h = refl
  put_absent ((j, w) ∷ d) k v h = ground (arith, put_absent d k v)

  pub remove-append : (d e : Dict K V) (k : K) → remove (d ++ e) k ≡ remove d k ++ remove e k
  unfolding remove
  remove-append [] e k = refl
  remove-append ((j, v) ∷ d) e k = ground (arith, remove-append d e k)

  pub remove-Distinct : (d : Dict K V) (k : K) → Distinct d → Distinct (remove d k)
  unfolding remove
  remove-Distinct [] k h = tt
  remove-Distinct ((j, v) ∷ d) k h = ground (arith, remove-Distinct d k h.1, get-remove d k j)

  pub append-Distinct :
      (d : Dict K V) (k : K) (v : V) → Distinct d → get d k ≡ none → Distinct (d ++ (k, v) ∷ [])
  unfolding get
  append-Distinct [] k v h n = (refl, tt)
  append-Distinct ((j, w) ∷ d) k v h n =
      ground (arith, append-Distinct d k v h.1, get-append d ((k, v) ∷ []) j)

  pub put-Distinct : (d : Dict K V) (k : K) (v : V) → Distinct d → Distinct (put d k v)
  unfolding put get
  put-Distinct [] k v h = (refl, tt)
  put-Distinct ((j, w) ∷ d) k v h = ground (arith, put-Distinct d k v h.1, get-put d k j v)

  pub move_to_end-Distinct : (d : Dict K V) (k : K) → Distinct d → Distinct (move_to_end d k)
  unfolding move_to_end
  move_to_end-Distinct d k h = elim (Option-cases (get d k)) [
    | inl e ↦ rw (e, move_to_end) h
    | inr (v, e) ↦
        rw (e, move_to_end)
          (append-Distinct (remove d k) k v (remove-Distinct d k h)
            (ground (arith, get-remove d k k)))
  ]

  -- A new key goes to the end.
  pub move_to_end-put_absent :
      (d : Dict K V) (k : K) (v : V) → get d k ≡ none → move_to_end (put d k v) k ≡ d ++ (k, v) ∷ []
  unfolding move_to_end remove
  move_to_end-put_absent d k v h =
      ap (λ l. move_to_end l k) (put_absent d k v h)
      ∙ rw (found, move_to_end)
          (ap (λ l. l ++ (k, v) ∷ [])
            (remove-append d ((k, v) ∷ []) k ∙ ground (arith, remove_absent d k h, append-nil d)))
    where
      found : get (d ++ (k, v) ∷ []) k ≡ some v
      found = ground (arith, get-append d ((k, v) ∷ []) k, h, get_one k v)

  -- A key in the middle stands nowhere else.
  pub middle_absent :
      (d e : Dict K V) (k : K) (v : V)
      → Distinct (d ++ (k, v) ∷ e)
      → (get d k ≡ none) × (get e k ≡ none) × Distinct (d ++ e)
  unfolding get
  middle_absent [] e k v h = (refl, h.0, h.1)
  middle_absent ((j, w) ∷ d) e k v h =
      ground (arith, middle_absent d e k v h.1, get-append d ((k, v) ∷ e) j, get-append d e j)

  pub remove_middle :
      (d e : Dict K V) (k : K) (v : V)
      → Distinct (d ++ (k, v) ∷ e)
      → remove (d ++ (k, v) ∷ e) k ≡ d ++ e
  unfolding remove
  remove_middle d e k v h =
      let (hd, he, _) = middle_absent d e k v h in
      remove-append d ((k, v) ∷ e) k ∙ ground (arith, remove_absent d k hd, remove_absent e k he)

  pub get_middle :
      (d e : Dict K V) (k : K) (v : V)
      → Distinct (d ++ (k, v) ∷ e)
      → get (d ++ (k, v) ∷ e) k ≡ some v
  unfolding get
  get_middle d e k v h =
      let (hd, _, _) = middle_absent d e k v h in ground (arith, get-append d ((k, v) ∷ e) k, hd)

  pub absent_of_middle :
      (d e : Dict K V) (k j : K) (v : V) → get (d ++ (k, v) ∷ e) j ≡ none → get (d ++ e) j ≡ none
  unfolding get
  absent_of_middle [] e k j v h = ground arith
  absent_of_middle ((i, w) ∷ d) e k j v h = ground (arith, absent_of_middle d e k j v)

  -- A property of every key.
  abbrev pub AllKeys : (K → Type 0) → Dict K V → Type 0
  AllKeys P [] = Unit
  AllKeys P ((j, v) ∷ d) = P j × AllKeys P d

  pub put-AllKeys :
      (P : K → Type 0) (d : Dict K V) (k : K) (v : V) → P k → AllKeys P d → AllKeys P (put d k v)
  unfolding put
  put-AllKeys P [] k v own h = (own, tt)
  put-AllKeys P ((j, w) ∷ d) k v own h = elim (dec j k) [
    | yes e ↦ rw (if_pos (dec j k) e ((k, v) ∷ d) ((j, w) ∷ put d k v)) (own, h.1)
    | no n ↦
        rw (if_neg (dec j k) n ((k, v) ∷ d) ((j, w) ∷ put d k v)) (h.0, put-AllKeys P d k v own h.1)
  ]

  pub remove-AllKeys :
      (P : K → Type 0) (d : Dict K V) (k : K) → AllKeys P d → AllKeys P (remove d k)
  unfolding remove
  remove-AllKeys P [] k h = tt
  remove-AllKeys P ((j, w) ∷ d) k h = elim (dec j k) [
    | yes e ↦ rw (if_pos (dec j k) e (remove d k) ((j, w) ∷ remove d k)) (remove-AllKeys P d k h.1)
    | no n ↦
        rw (if_neg (dec j k) n (remove d k) ((j, w) ∷ remove d k)) (h.0, remove-AllKeys P d k h.1)
  ]
