-- ===== src/Store/Disk/Names.antt =====
-- The names of files of src/llmcache/store/disk.py: `keys` reads back what `_path` writes, so that
-- two keys whose cache ids name directories have two files.
use llmcache.Prelude.{
  ◌≤◌, Option, List, [], if_neg, String_discrete, ◌+◌, ◌-◌, ◌≡◌, ◌≢◌, refl, ap, ap₂, sym, ◌∙◌,
  String, true, false, none, some, ◌∷◌, ◌++◌, length, take, arith, length-append, take-append_left,
  append_assoc, if◌then◌else◌, drop,
}
use Prim.Native.Char.{nul}
use llmcache.Sets
use llmcache.Text.{
  from_chars, chars, Chars, ends_with, starts_with, split_first, decimal, Char_discrete,
  digit_value,
}
use llmcache.Text.Laws.{
  from_chars-chars, split_all_absent, starts_with_absent, chars-from_chars, ends_with-append,
  split_first-append, drop-append,
}
use llmcache.Text.Decimal.{int_of-decimal, decimal-has}
use llmcache.Types.{ChunkKey, key_from}
use llmcache.Store.Disk.{
  FilePath, kvp, tmp, stem, path_of, tmp_of, key_of_parts, key_of_file, key_in, parts, named_parts,
  dir_of, child_of,
}

drop_suffix : (s t : Chars) → take (length (s ++ t) - length t) (s ++ t) ≡ s
drop_suffix s t =
    ap (λ n. take n (s ++ t)) (omega (arith, length-append s t)) ∙ take-append_left s t

split_stem :
    (k : ChunkKey) → split_first "_" (stem k) ≡ some (decimal k.worker_id, decimal k.chunk_index)
unfolding stem digit_value
split_stem k =
    split_first-append (decimal k.worker_id) (decimal k.chunk_index) "_"
      (decimal-has k.worker_id "_" refl)

-- A key whose cache id is the name of a directory in POSIX, and whose file's name is short enough:
-- 255 bytes for each, where a character has at most four.
pub record Named (k : ChunkKey) : Type 0 where
  pub nonempty : k.cache_id ≢ ""
  pub not_here : k.cache_id ≢ "."
  pub not_up : k.cache_id ≢ ".."
  pub no_slash : Sets.has Char_discrete (chars k.cache_id) "/" ≡ false
  pub no_nul : Sets.has Char_discrete (chars k.cache_id) nul ≡ false
  pub short : length (chars k.cache_id) ≤ 63
  pub worker_short : length (decimal k.worker_id) ≤ 120
  pub chunk_short : length (decimal k.chunk_index) ≤ 120

parts_of_name : (k : ChunkKey) → Named k → parts k.cache_id ≡ k.cache_id ∷ []
unfolding parts named_parts
parts_of_name k h =
    ap named_parts (split_all_absent "/" (chars k.cache_id) h.no_slash)
    ∙ rw (from_chars-chars k.cache_id) (
        if_neg (String_discrete k.cache_id "") h.nonempty _ _
        ∙ if_neg (String_discrete k.cache_id ".") h.not_here _ _)

pub dir_of_name :
    (root : List String) (k : ChunkKey) → Named k → dir_of root k.cache_id ≡ root ++ k.cache_id ∷ []
unfolding dir_of
dir_of_name root k h =
    ap (λ b. if b then parts k.cache_id else root ++ parts k.cache_id)
      (starts_with_absent "/" (chars k.cache_id) h.no_slash)
    ∙ ap (λ ds. root ++ ds) (parts_of_name k h)

child_of-append : (root : List String) (d : String) → child_of root (root ++ d ∷ []) ≡ some d
unfolding child_of
child_of-append [] d = refl
child_of-append (r ∷ root) d = ground (arith, child_of-append root d)

read_name : (k : ChunkKey) → key_in (some k.cache_id) (chars (from_chars (stem k ++ kvp))) ≡ some k
read_name k =
    ap (key_in (some k.cache_id)) (chars-from_chars (stem k ++ kvp))
    ∙ rw (ends_with-append (stem k) kvp) (
        ap (λ s. key_of_parts k.cache_id (split_first "_" s)) (drop_suffix (stem k) kvp)
        ∙ ap (key_of_parts k.cache_id) (split_stem k)
        ∙ ap₂ (key_from k.cache_id) (int_of-decimal k.worker_id) (int_of-decimal k.chunk_index))

pub key_of_file-path_of :
    (root : List String) (k : ChunkKey) → Named k → key_of_file root (path_of root k) ≡ some k
unfolding key_of_file path_of
key_of_file-path_of root k h =
    ap (λ o. key_in o (chars (from_chars (stem k ++ kvp))))
      (ap (child_of root) (dir_of_name root k h) ∙ child_of-append root k.cache_id)
    ∙ read_name k

other_suffix : (s : Chars) → ends_with (s ++ tmp) kvp ≡ false
unfolding ends_with starts_with Char_discrete llmcache.Prelude.ℕ_discrete
other_suffix s =
    let e : drop (length (s ++ tmp) - 4) (s ++ tmp) ≡ tmp =
      ap (λ n. drop n (s ++ tmp)) (omega (arith, length-append s tmp)) ∙ drop-append s tmp in
    rw e (ground arith)

pub key_of_file-tmp_of :
    (root : List String) (k : ChunkKey) → key_of_file root (tmp_of root k) ≡ none
unfolding key_of_file tmp_of
key_of_file-tmp_of root k =
    ap (key_in (child_of root (dir_of root k.cache_id))) (chars-from_chars (stem k ++ tmp))
    ∙ passed (child_of root (dir_of root k.cache_id))
  where
    passed : (o : Option String) → key_in o (stem k ++ tmp) ≡ none
    passed none = refl
    passed (some dir) = rw (other_suffix (stem k)) refl

pub path_of_inj :
    (root : List String) (k j : ChunkKey)
    → Named k
    → Named j
    → path_of root k ≡ path_of root j
    → k ≡ j
path_of_inj root k j h i e =
    let same =
      sym (key_of_file-path_of root k h) ∙ ap (key_of_file root) e ∙ key_of_file-path_of root j i in
    ground (arith, same)

pub tmp-ne-path : (root : List String) (k j : ChunkKey) → tmp_of root k ≢ path_of root j
unfolding tmp_of path_of
tmp-ne-path root k j e =
    let names : stem k ++ tmp ≡ stem j ++ kvp =
      sym (chars-from_chars (stem k ++ tmp))
      ∙ ap (λ (p : FilePath). chars p.name) e
      ∙ chars-from_chars (stem j ++ kvp) in
    let same =
      sym (other_suffix (stem k))
      ∙ ap (λ s. ends_with s kvp) names
      ∙ ends_with-append (stem j) kvp in
    ground (arith, same)
