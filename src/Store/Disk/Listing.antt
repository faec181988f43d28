-- ===== src/Store/Disk/Listing.antt =====
-- `keys` lists what `contains` finds, after any calls on a new directory.
use llmcache.Prelude.{
  String, ◌≡◌, ◌≢◌, refl, ap, sym, ◌∙◌, ◌⊎◌, inl, inr, Bool, true, Option, none, List, [], ◌∷◌, ite,
  arith, if_neg, ℕ,
}
use llmcache.Results.{ok}
use llmcache.Exec.{continue-keeps, if-keeps, modify, pure}
use llmcache.Dict
use llmcache.Dict.{Dict}
use llmcache.Sets
use llmcache.Types.{ChunkKey, ChunkKey_discrete}
use llmcache.Payload.{KvPayload}
use llmcache.Payload.Framing.{JsonCodec, pack_payload}
use llmcache.Store.Cpu.History.{Call}
use llmcache.Store.Disk.{
  FilePath, FilePath_discrete, Disk, init, path_of, tmp_of, key_of_file, key_list, list_keys,
  is_file, write, save, put, get, contains, remove, pin, unpin, keys, replace, add_pin,
}
use llmcache.Store.Disk.Files.{same_path}
use llmcache.Store.Disk.Names.{Named, key_of_file-path_of, key_of_file-tmp_of}

-- The file of a key, or one that `keys` passes over.
abbrev IsOwn : List String → FilePath → Type 0
IsOwn root path =
    (key_of_file root path ≡ none) ⊎ ((k : ChunkKey) × Named k × (path ≡ path_of root k))

first_file :
    (path q : FilePath) (b : List ℕ) (files : Dict FilePath (List ℕ))
    → is_file ((path, b) ∷ files) q ≡ ite (FilePath_discrete path q) true (is_file files q)
unfolding Dict.get
first_file path q b files = ground arith

-- `keys` lists a key exactly if its file is there.
list_keys-has :
    (root : List String) (files : Dict FilePath (List ℕ)) (k : ChunkKey)
    → Named k
    → Dict.AllKeys FilePath_discrete (IsOwn root) files
    → Sets.has ChunkKey_discrete (list_keys root files) k ≡ is_file files (path_of root k)
unfolding list_keys Sets.has
list_keys-has root [] k named h = unfold Dict.get in refl
list_keys-has root ((path, b) ∷ files) k named (inl ignored, h) =
    let other : path ≢ path_of root k = λ e.
      ground (arith, sym ignored ∙ ap (key_of_file root) e ∙ key_of_file-path_of root k named) in
    ap (λ o. Sets.has ChunkKey_discrete (key_list o (list_keys root files)) k) ignored
    ∙ list_keys-has root files k named h
    ∙ sym (
        first_file path (path_of root k) b files
        ∙ if_neg (FilePath_discrete path (path_of root k)) other true
            (is_file files (path_of root k)))
list_keys-has root ((path, b) ∷ files) k named (inr (j, own, e), h) =
    ap (λ o. Sets.has ChunkKey_discrete (key_list o (list_keys root files)) k)
      (ap (key_of_file root) e ∙ key_of_file-path_of root j own)
    ∙ ap (ite (ChunkKey_discrete j k) true) (list_keys-has root files k named h)
    ∙ sym (
        first_file path (path_of root k) b files
        ∙ ap (λ q. ite (FilePath_discrete q (path_of root k)) true (is_file files (path_of root k)))
            e
        ∙ same_path root j k true (is_file files (path_of root k)) own named)

-- The keys of the calls have files.
abbrev pub IsNamed : Call → Type 0
IsNamed (Call.put k o p) = Named k
IsNamed (Call.get k) = Named k
IsNamed (Call.remove k) = Named k
IsNamed (Call.pin k) = Named k
IsNamed (Call.unpin k) = Named k

abbrev pub AllNamed : List Call → Type 0
AllNamed [] = Unit
AllNamed (call ∷ calls) = IsNamed call × AllNamed calls

module _ (json : JsonCodec) where
  -- The state after a call, however it ends.
  unfoldable pub step : Disk → Call → Disk
  step d (Call.put k o p) = (put json k o p d).1
  step d (Call.get k) = (get json k d).1
  step d (Call.remove k) = (remove json k d).1
  step d (Call.pin k) = (pin json k d).1
  step d (Call.unpin k) = (unpin json k d).1

  unfoldable pub run : Disk → List Call → Disk
  unfolding step
  run d [] = d
  run d (call ∷ calls) = run (step d call) calls

  abbrev OwnFiles : Disk → Type 0
  OwnFiles d = Dict.AllKeys FilePath_discrete (IsOwn d.root) d.files

  write-OwnFiles :
      (path : FilePath) (blob : List ℕ) (d : Disk)
      → IsOwn d.root path
      → OwnFiles d
      → OwnFiles (write path blob d)
  write-OwnFiles path blob d own h =
      Dict.put-AllKeys FilePath_discrete (IsOwn d.root) d.files path blob own h

  save-OwnFiles :
      (k : ChunkKey) (p : Bool) (blob : List ℕ) (d : Disk)
      → Named k
      → OwnFiles d
      → OwnFiles (save k p blob d).1
  unfolding save
  save-OwnFiles k p blob d named h =
      if-keeps OwnFiles p (modify (add_pin k)) (pure tt)
        (replace (tmp_of d.root k) (path_of d.root k) blob (write (tmp_of d.root k) blob d)) moved
        moved
    where
      moved :
          OwnFiles
            (replace (tmp_of d.root k) (path_of d.root k) blob (write (tmp_of d.root k) blob d))
      moved =
          Dict.put-AllKeys FilePath_discrete (IsOwn d.root) _ (path_of d.root k) blob
            (inr (k, named, refl))
            (Dict.remove-AllKeys FilePath_discrete (IsOwn d.root) _ (tmp_of d.root k)
              (write-OwnFiles (tmp_of d.root k) blob d (inl (key_of_file-tmp_of d.root k)) h))

  put-OwnFiles :
      (k : ChunkKey) (o : KvPayload) (p : Bool) (d : Disk)
      → Named k
      → OwnFiles d
      → OwnFiles (put json k o p d).1
  unfolding put
  put-OwnFiles k o p d named h =
      continue-keeps OwnFiles (pack_payload json o) (save k p) (write (tmp_of d.root k) [] d) opened
        λ blob. save-OwnFiles k p blob (write (tmp_of d.root k) [] d) named opened
    where
      opened : OwnFiles (write (tmp_of d.root k) [] d)
      opened = write-OwnFiles (tmp_of d.root k) [] d (inl (key_of_file-tmp_of d.root k)) h

  step-OwnFiles : (d : Disk) (call : Call) → IsNamed call → OwnFiles d → OwnFiles (step d call)
  unfolding step get remove pin unpin
  step-OwnFiles d (Call.put k o p) named h = put-OwnFiles k o p d named h
  step-OwnFiles d (Call.get k) named h = h
  step-OwnFiles d (Call.remove k) named h =
      Dict.remove-AllKeys FilePath_discrete (IsOwn d.root) d.files (path_of d.root k) h
  step-OwnFiles d (Call.pin k) named h = h
  step-OwnFiles d (Call.unpin k) named h = h

  run-OwnFiles :
      (d : Disk) (calls : List Call) → AllNamed calls → OwnFiles d → OwnFiles (run d calls)
  unfolding run
  run-OwnFiles d [] named h = h
  run-OwnFiles d (call ∷ calls) named h =
      run-OwnFiles (step d call) calls named.1 (step-OwnFiles d call named.0 h)

  -- After any calls on a new directory, some of which may raise, about keys whose cache ids name
  -- directories, and where the file system raises no error: `keys` returns a list in which such a
  -- key occurs exactly when `contains` says that it is stored. Temporary files are passed over, and
  -- what `_path` makes of a key is read back as that key.
  pub keys-contains :
      (root : List String) (capacity_bytes : Option ℕ) (calls : List Call) (k : ChunkKey)
      → AllNamed calls
      → Named k
      → (ks : List ChunkKey) × ((keys json (run (init root [] capacity_bytes) calls)).0 ≡ ok ks)
        × ((contains json k (run (init root [] capacity_bytes) calls)).0
            ≡ ok (Sets.has ChunkKey_discrete ks k))
  unfolding keys contains init
  keys-contains root capacity_bytes calls k all named =
      let d = run (init root [] capacity_bytes) calls in
      (
        list_keys d.root d.files,
        refl,
        ap ok (
            sym (
              list_keys-has d.root d.files k named
                (run-OwnFiles (init root [] capacity_bytes) calls all tt))),
      )
