-- ===== src/Types.antt =====
-- src/llmcache/types.py: chunk keys, descriptors, token fingerprints and chunking.
pub mod Encoding
pub mod Chunks
pub mod Matching
use llmcache.Prelude.{
  ℕ, zero, suc, ◌+◌, ◌-◌, ◌*◌, ◌/◌, ◌%◌, ◌^◌, String, ◌≡◌, Bool, true, false, Option, none, some,
  List, [], ◌∷◌, ◌++◌, map, length, take, drop, get_elem?, range_from, ltb, ◌==◌, if◌then◌else◌,
  ite, arith, ℕ_discrete, String_discrete,
}
use llmcache.Int.{ℤ, pos, negsuc, leb_ℤ}
use llmcache.Results.{Result, ok, err, value_error, overflow_error, ◌>>=◌}

-- `ChunkKey`, frozen, so compared by its fields. Worker ids are ranks, counted from 0.
pub record ChunkKey : Type 0 where
  pub cache_id : String
  pub chunk_index : ℕ
  pub worker_id : ℕ

unfoldable pub ChunkKey_discrete : Discrete ChunkKey
unfolding ℕ_discrete String_discrete
ChunkKey_discrete = hlevel (ℕ_discrete, String_discrete)

-- `ChunkKey(cache_id, int(chunk_s), int(worker_s))`, where both texts are numbers
abbrev pub key_from : String → Option ℕ → Option ℕ → Option ChunkKey
key_from cid (some worker) (some chunk) =
    some (record { cache_id = cid; chunk_index = chunk; worker_id = worker })
key_from cid (some worker) none = none
key_from cid none chunk = none

-- `int(t).to_bytes(4, "little", signed=True)`: two's complement, or `OverflowError`.
unfoldable pub word_bytes : ℕ → List ℕ
word_bytes w = (w % 256) ∷ (w / 256 % 256) ∷ (w / 65536 % 256) ∷ (w / 16777216 % 256) ∷ []

unfoldable pub to_bytes : ℤ → Result (List ℕ)
unfolding word_bytes
to_bytes (pos n) = if ltb n 2147483648 then ok (word_bytes n) else err overflow_error
to_bytes (negsuc n) =
    if ltb n 2147483648 then ok (word_bytes (4294967295 - n)) else err overflow_error

-- The loop of `token_fingerprint`: what the hash object has been fed.
unfoldable pub absorb : List ℕ → List ℤ → Result (List ℕ)
absorb fed [] = ok fed
absorb fed (t ∷ tokens) = to_bytes t >>= λ bytes. absorb (fed ++ bytes) tokens

-- `range(0, stop, step)` for a positive step.
unfoldable pub range_step : ℕ → ℕ → List ℕ
range_step stop step = map (λ k. k * step) (range_from 0 ((stop + step - 1) / step))

-- `tokens[i:j]`
abbrev pub slice {ℓ} : {A : Type ℓ} → List A → ℕ → ℕ → List A
slice xs i j = take (j - i) (drop i xs)

unfoldable pub chunk_token_ids : List ℤ → ℕ → Result (List (List ℤ))
unfolding range_step
chunk_token_ids tokens chunk_size =
    if chunk_size == 0
    then err value_error
    else ok (map (λ i. slice tokens i (i + chunk_size)) (range_step (length tokens) chunk_size))

-- `CacheDescriptor`.
pub record CacheDescriptor : Type 0 where
  pub cache_id : String
  pub num_tokens : ℕ
  pub chunk_size : ℕ
  pub num_layers : ℕ
  pub worker_ids : List ℕ
  pub created_at : ℤ
  pub expires_at : Option ℤ
  pub pinned : Bool
  pub chunk_fingerprints : List String
  pub name : Option String
  pub hits : ℕ
  pub last_used_at : Option ℤ

abbrev pub num_chunks : CacheDescriptor → ℕ
num_chunks d = length d.chunk_fingerprints

-- `now or time.time()`: a `now` of 0 counts as absent. `clock` is the clock's reading.
unfoldable pub or_clock : Option ℤ → ℤ → ℤ
or_clock none clock = clock
or_clock (some (pos zero)) clock = clock
or_clock (some t) clock = t

-- `is_expired`, with the reading that it takes if it needs one.
unfoldable pub is_expired : CacheDescriptor → Option ℤ → ℤ → Bool
unfolding or_clock
is_expired d now clock = elim d.expires_at [
  | none ↦ false
  | some at ↦ leb_ℤ at (or_clock now clock)
]

-- `hashlib.blake2b(digest_size=16)`, from the bytes fed to the hexadecimal digest, is a parameter.
module _ (digest : List ℕ → String) where
  unfoldable pub token_fingerprint : List ℤ → Result String
  unfolding absorb
  token_fingerprint tokens = absorb [] tokens >>= λ fed. ok (digest fed)

  -- The loop of `matched_chunk_count`, from position `i` of the descriptor's fingerprints.
  unfoldable pub count_matches : List (List ℤ) → ℕ → ℕ → List String → Result ℕ
  count_matches chunks i matched [] = ok matched
  count_matches chunks i matched (fp ∷ fps) =
      let rest = count_matches chunks (suc i) (suc matched) fps in
      elim (get_elem? chunks i) [
        | none ↦ ok matched
        | some chunk ↦
            token_fingerprint chunk >>= λ found. ite (String_discrete found fp) rest (ok matched)
      ]

  unfoldable pub matched_chunk_count : List ℤ → CacheDescriptor → Result ℕ
  unfolding chunk_token_ids count_matches
  matched_chunk_count request_tokens d = chunk_token_ids request_tokens d.chunk_size >>= λ chunks.
      count_matches chunks 0 0 d.chunk_fingerprints
