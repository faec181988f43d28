-- ===== src/Store/Remote/Names.antt =====
-- The names of keys in Redis: `_parse` reads back what `_name` writes.
use llmcache.Prelude.{
  ◌+◌, ◌≡◌, refl, ap, ap₂, sym, ◌∙◌, String, none, some, [], ◌∷◌, ◌++◌, length, drop, arith,
  length-append, if◌then◌else◌,
}
use llmcache.Text.{chars, from_chars, starts_with, split_last, decimal, digit_value}
use llmcache.Text.Laws.{
  chars-from_chars, from_chars-chars, starts_with-append, drop-append, split_last-append,
}
use llmcache.Text.Decimal.{int_of-decimal, decimal-has}
use llmcache.Types.{ChunkKey, key_from}
use llmcache.Store.Remote.{prefix_of, rest_of, name_of, last_parts, all_parts, parse}

split_rest : (k : ChunkKey) → all_parts (split_last ":" (rest_of k)) ≡ some k
unfolding rest_of digit_value
split_rest k =
    ap all_parts (
      split_last-append (chars k.cache_id ++ ":" ∷ decimal k.worker_id) (decimal k.chunk_index) ":"
        (decimal-has k.chunk_index ":" refl))
    ∙ ap (last_parts (decimal k.chunk_index)) (
        split_last-append (chars k.cache_id) (decimal k.worker_id) ":"
          (decimal-has k.worker_id ":" refl))
    ∙ ap₂ (λ worker chunk. key_from (from_chars (chars k.cache_id)) worker chunk)
        (int_of-decimal k.worker_id) (int_of-decimal k.chunk_index)
    ∙ ap (λ cid. some (record k { cache_id = cid })) (from_chars-chars k.cache_id)

-- For every namespace and every key, colons in the cache id or the namespace included, `_parse`
-- gives back the key from the name that `_name` has made of it. So no two keys have one name.
pub parse-name_of :
    (namespace : String)
    → ((k : ChunkKey) → parse namespace (name_of namespace k) ≡ some k)
      × ((k j : ChunkKey) → name_of namespace k ≡ name_of namespace j → k ≡ j)
unfolding parse name_of
parse-name_of namespace = (
  back,
  λ k j e. let same = sym (back k) ∙ ap (parse namespace) e ∙ back j in ground (arith, same),
)
  where
    back : (k : ChunkKey) → parse namespace (name_of namespace k) ≡ some k
    back k =
        ap
          (λ s.
            if starts_with s (prefix_of namespace)
            then all_parts (split_last ":" (drop (length (chars namespace) + 1) s))
            else none)
          (chars-from_chars (prefix_of namespace ++ rest_of k))
        ∙ rw (starts_with-append (prefix_of namespace) (rest_of k)) (
            ap (λ n. all_parts (split_last ":" (drop n (prefix_of namespace ++ rest_of k))))
              (omega (arith, length-append (chars namespace) (":" ∷ [])))
            ∙ ap (λ s. all_parts (split_last ":" s)) (drop-append (prefix_of namespace) (rest_of k))
            ∙ split_rest k)
