-- ===== src/Store/Disk.antt =====
-- src/llmcache/store/disk.py: one file for each chunk, in a file system of POSIX below the root
-- that one `DiskBackend` owns. A path is what pathlib makes of it: its components, without "" and
-- ".", and an absolute cache id leads to its own place. ".." is a component like any other here,
-- and the errors of the file system are left out. Directories are not listed apart from their
-- files, since an empty one has no effect on any answer.
pub mod Names
pub mod Files
pub mod Listing
pub mod Promises
use mathlib.Core.List.{List-discrete}
use llmcache.Prelude.{
  ℕ, suc, ◌+◌, ◌-◌, ◌≡◌, refl, String, Bool, true, false, Option, none, some, List, [], ◌∷◌, ◌++◌,
  length, take, if◌then◌else◌, String_discrete, ite,
}
use llmcache.Results.{ok}
use llmcache.Exec.{Exec, pure, lift, modify, ◌>>=◌, ◌>>◌}
use llmcache.Text.{
  Chars, chars, from_chars, starts_with, ends_with, split_all, split_first, decimal, int_of,
}
use llmcache.Types.{ChunkKey, ChunkKey_discrete, key_from}
use llmcache.Payload.{KvPayload}
use llmcache.Payload.Framing.{JsonCodec, pack_payload, read}
use llmcache.Dict
use llmcache.Dict.{Dict}
use llmcache.Sets
use llmcache.Store.{StorageBackend, StoreStats}

-- An absolute path, as its directory's components and the file's name.
pub record FilePath : Type 0 where
  pub dir : List String
  pub name : String

unfoldable pub FilePath_discrete : Discrete FilePath
unfolding String_discrete
FilePath_discrete = hlevel (List-discrete String_discrete, String_discrete)

pub record Disk : Type 0 where
  pub root : List String
  pub capacity_bytes : Option ℕ
  pub files : Dict FilePath (List ℕ)
  pub pinned : List ChunkKey

-- `__init__`, over what the file system holds already
unfoldable pub init : List String → Dict FilePath (List ℕ) → Option ℕ → Disk
init root files capacity_bytes = record {
  root = root;
  capacity_bytes = capacity_bytes;
  files = files;
  pinned = [];
}

abbrev pub kvp : Chars
kvp = "." ∷ "k" ∷ "v" ∷ "p" ∷ []

abbrev pub tmp : Chars
tmp = "." ∷ "t" ∷ "m" ∷ "p" ∷ []

-- "{worker}_{chunk}"
unfoldable pub stem : ChunkKey → Chars
stem key = decimal key.worker_id ++ "_" ∷ decimal key.chunk_index

unfoldable pub named_parts : List Chars → List String
named_parts [] = []
named_parts (p ∷ ps) =
    let rest = named_parts ps in
    ite (String_discrete (from_chars p) "") rest
      (ite (String_discrete (from_chars p) ".") rest (from_chars p ∷ rest))

-- The components of a relative or absolute path.
unfoldable pub parts : String → List String
unfolding named_parts split_all
parts path = named_parts (split_all "/" (chars path))

-- `self.root / key.cache_id`
unfoldable pub dir_of : List String → String → List String
unfolding parts
dir_of root cid = if starts_with (chars cid) ("/" ∷ []) then parts cid else root ++ parts cid

-- `_path`, and the same `with_suffix(".tmp")`
unfoldable pub path_of : List String → ChunkKey → FilePath
unfolding dir_of
path_of root key = record { dir = dir_of root key.cache_id; name = from_chars (stem key ++ kvp) }

unfoldable pub tmp_of : List String → ChunkKey → FilePath
unfolding dir_of
tmp_of root key = record { dir = dir_of root key.cache_id; name = from_chars (stem key ++ tmp) }

-- The name of a directory that stands in the root itself.
unfoldable pub child_of : List String → List String → Option String
child_of [] [] = none
child_of [] (d ∷ []) = some d
child_of [] (d ∷ e ∷ ds) = none
child_of (r ∷ root) [] = none
child_of (r ∷ root) (d ∷ dir) = let rest = child_of root dir in ite (String_discrete r d) rest none

abbrev pub key_of_parts : String → Option (Chars × Chars) → Option ChunkKey
key_of_parts dir none = none
key_of_parts dir (some (worker_s, chunk_s)) = key_from dir (int_of worker_s) (int_of chunk_s)

abbrev pub key_in : Option String → Chars → Option ChunkKey
key_in none name = none
key_in (some dir) name =
    if ends_with name kvp
    then key_of_parts dir (split_first "_" (take (length name - 4) name))
    else none

-- `keys`, for one file: its directory is in the root, its name matches "*.kvp", and its stem is
-- that of a key.
unfoldable pub key_of_file : List String → FilePath → Option ChunkKey
unfolding child_of
key_of_file root path = key_in (child_of root path.dir) (chars path.name)

abbrev pub key_list : Option ChunkKey → List ChunkKey → List ChunkKey
key_list none ks = ks
key_list (some k) ks = k ∷ ks

unfoldable pub list_keys : List String → Dict FilePath (List ℕ) → List ChunkKey
list_keys root [] = []
list_keys root ((path, blob) ∷ files) = key_list (key_of_file root path) (list_keys root files)

-- `path.exists()`
abbrev pub is_file : Dict FilePath (List ℕ) → FilePath → Bool
is_file files path = elim (Dict.get FilePath_discrete files path) [
  | none ↦ false
  | some blob ↦ true
]

-- `open(path, "wb")` with what is written to it
abbrev pub write : FilePath → List ℕ → Disk → Disk
write path blob d = record d { files = Dict.put FilePath_discrete d.files path blob }

-- `os.replace(tmp, path)`, where `tmp` holds `blob`
abbrev pub replace : FilePath → FilePath → List ℕ → Disk → Disk
replace source path blob d = record d {
  files = Dict.put FilePath_discrete (Dict.remove FilePath_discrete d.files source) path blob;
}

abbrev pub add_pin : ChunkKey → Disk → Disk
add_pin key d = record d { pinned = Sets.add ChunkKey_discrete d.pinned key }

abbrev pub drop_pin : ChunkKey → Disk → Disk
drop_pin key d = record d { pinned = Sets.discard ChunkKey_discrete d.pinned key }

-- `unlink`, and whether there was a file
abbrev pub unlink : FilePath → Exec Disk Bool
unlink path d =
    (ok (is_file d.files path), record d { files = Dict.remove FilePath_discrete d.files path })

-- The loop of `stats`: how many files, and their bytes.
unfoldable pub measure : List String → Dict FilePath (List ℕ) → List ChunkKey → ℕ × ℕ
unfolding path_of
measure root files [] = (0, 0)
measure root files (k ∷ ks) =
    let (n, used) = measure root files ks in
    elim (Dict.get FilePath_discrete files (path_of root k)) [
      | none ↦ (n, used)
      | some blob ↦ (suc n, length blob + used)
    ]

-- `put`, once the payload is packed
unfoldable pub save : ChunkKey → Bool → List ℕ → Exec Disk (Unit {0})
unfolding path_of tmp_of
save key pin blob = do
  modify (λ d. write (tmp_of d.root key) blob d)
  modify (λ d. replace (tmp_of d.root key) (path_of d.root key) blob d)
  if pin then modify (add_pin key) else pure tt

module _ (json : JsonCodec) where
  unfoldable pub put : ChunkKey → KvPayload → Bool → Exec Disk (Unit {0})
  unfolding save tmp_of
  put key object pin = do
    modify (λ d. write (tmp_of d.root key) [] d)
    blob ← lift (pack_payload json object)
    save key pin blob

  unfoldable pub get : ChunkKey → Exec Disk (Option KvPayload)
  unfolding read path_of
  get key d = (read json (Dict.get FilePath_discrete d.files (path_of d.root key)), d)

  unfoldable pub contains : ChunkKey → Exec Disk Bool
  unfolding path_of
  contains key d = (ok (is_file d.files (path_of d.root key)), d)

  unfoldable pub remove : ChunkKey → Exec Disk Bool
  unfolding path_of
  remove key = modify (drop_pin key) >> (λ d. unlink (path_of d.root key) d)

  unfoldable pub pin : ChunkKey → Exec Disk (Unit {0})
  pin key = modify (add_pin key)

  unfoldable pub unpin : ChunkKey → Exec Disk (Unit {0})
  unpin key = modify (drop_pin key)

  unfoldable pub keys : Exec Disk (List ChunkKey)
  unfolding list_keys key_of_file
  keys d = (ok (list_keys d.root d.files), d)

  unfoldable pub stats : Exec Disk StoreStats
  unfolding measure list_keys
  stats d = (
    ok (record {
      num_objects = (measure d.root d.files (list_keys d.root d.files)).0;
      used_bytes = (measure d.root d.files (list_keys d.root d.files)).1;
      capacity_bytes = d.capacity_bytes;
      pinned_objects = length d.pinned;
      pinned_bytes = 0;
    }),
    d,
  )

  unfoldable pub backend : StorageBackend Disk
  unfolding put get contains remove pin unpin keys stats
  backend = record {
    put = put;
    get = get;
    contains = contains;
    remove = remove;
    pin = pin;
    unpin = unpin;
    keys = keys;
    stats = stats;
  }
