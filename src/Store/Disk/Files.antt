-- ===== src/Store/Disk/Files.antt =====
-- What the calls do to the files of the keys.
use llmcache.Prelude.{
  String, ◌≡◌, ap, sym, ◌∙◌, Bool, true, false, Option, none, some, List, [], ite, arith, ℕ, if_pos,
  if_neg, Bool-cases,
}
use llmcache.Results.{ok, err, Error}
use llmcache.Exec.{continue}
use llmcache.Types.{ChunkKey, ChunkKey_discrete}
use llmcache.Payload.{KvPayload}
use llmcache.Payload.Framing.{JsonCodec, pack_payload}
use llmcache.Dict
use llmcache.Dict.{Dict}
use llmcache.Store.Disk.{
  FilePath, FilePath_discrete, Disk, path_of, tmp_of, save, put, remove, write,
}
use llmcache.Store.Disk.Names.{Named, path_of_inj, tmp-ne-path}

-- The bytes stored under a key.
abbrev pub file_of : Disk → ChunkKey → Option (List ℕ)
file_of d key = Dict.get FilePath_discrete d.files (path_of d.root key)

pub same_path :
    {A : Type 0} (root : List String) (k j : ChunkKey) (a b : A)
    → Named k
    → Named j
    → ite (FilePath_discrete (path_of root k) (path_of root j)) a b
      ≡ ite (ChunkKey_discrete k j) a b
same_path root k j a b h i = elim (ChunkKey_discrete k j) [
  | yes e ↦ if_pos _ (ap (path_of root) e) a b ∙ sym (if_pos _ e a b)
  | no n ↦ if_neg _ (λ e. n (path_of_inj root k j h i e)) a b ∙ sym (if_neg _ n a b)
]

tmp_unseen :
    {A : Type 0} (root : List String) (k j : ChunkKey) (a b : A)
    → ite (FilePath_discrete (tmp_of root k) (path_of root j)) a b ≡ b
tmp_unseen root k j a b = if_neg _ (tmp-ne-path root k j) a b

abbrev opened : ChunkKey → Disk → Disk
opened k d = write (tmp_of d.root k) [] d

-- The temporary file is none of them.
opened_file : (k j : ChunkKey) (d : Disk) → file_of (opened k d) j ≡ file_of d j
opened_file k j d =
    Dict.get-put FilePath_discrete d.files (tmp_of d.root k) (path_of d.root j) []
    ∙ tmp_unseen d.root k j (some []) (file_of d j)

save-file :
    (k : ChunkKey) (p : Bool) (blob : List ℕ) (d : Disk)
    → Named k
    → ((save k p blob d).0 ≡ ok tt)
      × ((j : ChunkKey)
          → Named j
          → file_of (save k p blob d).1 j ≡ ite (ChunkKey_discrete k j) (some blob) (file_of d j))
unfolding save
save-file k p blob d h = (ground (arith, Bool-cases p), λ j i. pinned j i p)
  where
    moved : Dict FilePath (List ℕ)
    moved =
        Dict.remove FilePath_discrete (Dict.put FilePath_discrete d.files (tmp_of d.root k) blob)
          (tmp_of d.root k)

    found :
        (j : ChunkKey)
        → Named j
        → Dict.get FilePath_discrete
            (Dict.put FilePath_discrete moved (path_of d.root k) blob)
            (path_of d.root j)
          ≡ ite (ChunkKey_discrete k j) (some blob) (file_of d j)
    found j i =
        Dict.get-put FilePath_discrete moved (path_of d.root k) (path_of d.root j) blob
        ∙ same_path d.root k j (some blob) _ h i
        ∙ ap (ite (ChunkKey_discrete k j) (some blob)) (
            Dict.get-remove FilePath_discrete
              (Dict.put FilePath_discrete d.files (tmp_of d.root k) blob) (tmp_of d.root k)
              (path_of d.root j)
            ∙ tmp_unseen d.root k j none _
            ∙ Dict.get-put FilePath_discrete d.files (tmp_of d.root k) (path_of d.root j) blob
            ∙ tmp_unseen d.root k j (some blob) (file_of d j))

    pinned :
        (j : ChunkKey)
        → Named j
        → (q : Bool)
        → file_of (save k q blob d).1 j ≡ ite (ChunkKey_discrete k j) (some blob) (file_of d j)
    pinned j i true = found j i
    pinned j i false = found j i

module _ (json : JsonCodec) where
  pub put-stored :
      (k : ChunkKey) (o : KvPayload) (p : Bool) (d : Disk) {blob : List ℕ}
      → Named k
      → pack_payload json o ≡ ok blob
      → ((put json k o p d).0 ≡ ok tt)
        × ((j : ChunkKey)
            → Named j
            → file_of (put json k o p d).1 j
              ≡ ite (ChunkKey_discrete k j) (some blob) (file_of d j))
  unfolding put
  put-stored k o p d {blob} named h =
      let (returns, stored) = save-file k p blob (opened k d) named in
      (
        ap (λ r. (continue r (save k p) (opened k d)).0) h ∙ returns,
        λ j i.
            ap (λ r. file_of (continue r (save k p) (opened k d)).1 j) h
            ∙ stored j i
            ∙ ap (ite (ChunkKey_discrete k j) (some blob)) (opened_file k j d),
      )

  pub put-failed :
      (k : ChunkKey) (o : KvPayload) (p : Bool) (d : Disk) {x : Error}
      → pack_payload json o ≡ err x
      → ((put json k o p d).0 ≡ err x)
        × ((j : ChunkKey) → file_of (put json k o p d).1 j ≡ file_of d j)
  unfolding put
  put-failed k o p d {x} h = (
    ap (λ r. (continue r (save k p) (opened k d)).0) h,
    λ j. ap (λ r. file_of (continue r (save k p) (opened k d)).1 j) h ∙ opened_file k j d,
  )

  pub remove-file :
      (k : ChunkKey) (d : Disk) (j : ChunkKey)
      → Named k
      → Named j
      → file_of (remove json k d).1 j ≡ ite (ChunkKey_discrete k j) none (file_of d j)
  unfolding remove
  remove-file k d j h i =
      Dict.get-remove FilePath_discrete d.files (path_of d.root k) (path_of d.root j)
      ∙ same_path d.root k j none (file_of d j) h i
