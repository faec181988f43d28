-- ===== src/Payload/Framing/RoundTrip.antt =====
-- What is packed is unpacked, and what has another mark in front is refused.
use llmcache.Prelude.{
  ℕ, ◌+◌, ◌-◌, ◌<◌, ◌≡◌, ◌≢◌, refl, ap, ap₂, ◌∙◌, sym, true, List, [], ◌∷◌, ◌++◌, length, take,
  drop, arith, Bool-cases, take-append_left, String_discrete, length-append, drop-drop, ◌≤◌, some,
  dec_lt,
}
use llmcache.Results.{ok, err, serialization_error, overflow_error, ◌>>=◌}
use llmcache.Types.{word_bytes}
use llmcache.Payload.{KvPayload, nbytes, obj}
use llmcache.Payload.Framing.{
  JsonCodec, magic, same_bytes, size_bytes, from_bytes, find_field, item, meta_of, as_unpacked,
  header_fields, header_bytes, read_header, pack_payload, unpack_payload, typed, read,
}

from_bytes-word_bytes : (n : ℕ) → n < 4294967296 → from_bytes (word_bytes n) ≡ n
unfolding from_bytes word_bytes
from_bytes-word_bytes n h = omega arith

drop-append_left : (xs ys : List ℕ) → drop (length xs) (xs ++ ys) ≡ ys
drop-append_left [] ys = refl
drop-append_left (x ∷ xs) ys = drop-append_left xs ys

read_header-header_fields :
    (rest : List ℕ) (p : KvPayload)
    → read_header rest (obj (header_fields p)) ≡ ok (record (as_unpacked p) { bytes = rest })
unfolding read_header item find_field meta_of String_discrete Bool-cases
read_header-header_fields rest p = refl

same_bytes_iff :
    (xs ys : List ℕ) → (same_bytes xs ys ≡ true → xs ≡ ys) × (xs ≡ ys → same_bytes xs ys ≡ true)
unfolding same_bytes
same_bytes_iff [] [] = (λ h. refl, λ h. refl)
same_bytes_iff [] (y ∷ ys) = (λ h. absurd (ground arith), λ h. absurd (ground arith))
same_bytes_iff (x ∷ xs) [] = (λ h. absurd (ground arith), λ h. absurd (ground arith))
same_bytes_iff (x ∷ xs) (y ∷ ys) =
    let (f, g) = same_bytes_iff xs ys in
    (λ h. ground (arith, same_bytes_iff xs ys), λ h. ground (arith, same_bytes_iff xs ys))

module _ (json : JsonCodec) where
  -- The length of the header decides whether `pack_payload` returns.
  pack_payload-returns :
      (p : KvPayload)
      → length (header_bytes json p) < 4294967296
      → pack_payload json p
        ≡ ok (
            magic
            ++ (word_bytes (length (header_bytes json p)) ++ (header_bytes json p ++ p.bytes)))
  unfolding pack_payload size_bytes
  pack_payload-returns p h = ground arith

  pack_payload-raises :
      (p : KvPayload)
      → ¬ (length (header_bytes json p) < 4294967296)
      → pack_payload json p ≡ err overflow_error
  unfolding pack_payload size_bytes
  pack_payload-raises p h = ground arith

  unpack_frame :
      (header bytes : List ℕ)
      → length header < 4294967296
      → unpack_payload json (magic ++ (word_bytes (length header) ++ (header ++ bytes)))
        ≡ (json.loads header >>= read_header bytes)
  unfolding unpack_payload word_bytes same_bytes
  unpack_frame header bytes h =
      let blob = magic ++ (word_bytes (length header) ++ (header ++ bytes)) in
      let read = λ (head : List ℕ) (rest : List ℕ). json.loads head >>= read_header rest in
      ap (λ k. read (take (10 + k - 10) (header ++ bytes)) (drop (10 + k) blob))
        (from_bytes-word_bytes (length header) h)
      ∙ ap₂ read (ap (λ k. take k (header ++ bytes)) (omega arith) ∙ take-append_left header bytes)
          (sym (drop-drop 10 (length header) blob) ∙ drop-append_left header bytes)

  -- `pack_payload` returns exactly when the encoded header is shorter than 2^32 bytes, and raises
  -- OverflowError otherwise. What it returns has the length of the data and the header and ten
  -- bytes more, and `unpack_payload` gives the payload back from it.
  pub unpack-pack :
      (p : KvPayload)
      → (length (header_bytes json p) < 4294967296
          → (blob : List ℕ) × (pack_payload json p ≡ ok blob)
            × (length blob ≡ 10 + length (header_bytes json p) + nbytes p)
            × (unpack_payload json blob ≡ ok (as_unpacked p)))
        × (4294967296 ≤ length (header_bytes json p) → pack_payload json p ≡ err overflow_error)
  unfolding word_bytes
  unpack-pack p = (
    λ h. (
      magic ++ (word_bytes (length (header_bytes json p)) ++ (header_bytes json p ++ p.bytes)),
      pack_payload-returns p h,
      omega (arith, length-append (header_bytes json p) p.bytes),
      unpack_frame (header_bytes json p) p.bytes h
          ∙ ap (λ r. r >>= read_header p.bytes) (json.loads-dumps (header_fields p))
          ∙ read_header-header_fields p.bytes p,
    ),
    λ h. pack_payload-raises p (omega arith),
  )

  unpack_marked :
      (rest : List ℕ)
      → unpack_payload json (magic ++ rest) ≡ (
          json.loads (take (from_bytes (take 4 rest)) (drop 4 rest))
          >>= read_header (drop (from_bytes (take 4 rest)) (drop 4 rest)))
  unfolding unpack_payload same_bytes
  unpack_marked rest =
      let size = from_bytes (take 4 rest) in
      ap₂ (λ head behind. json.loads head >>= read_header behind)
        (ap (λ k. take k (drop 4 rest)) (omega arith)) (sym (drop-drop 10 size (magic ++ rest)))

  unpack_unmarked :
      (blob : List ℕ) → take 6 blob ≢ magic → unpack_payload json blob ≡ err serialization_error
  unfolding unpack_payload
  unpack_unmarked blob h = ground (arith, same_bytes_iff (take 6 blob) magic)

  -- Whatever `pack_payload` returns is read back as its payload.
  pub read-pack :
      (p : KvPayload) (blob : List ℕ)
      → pack_payload json p ≡ ok blob
      → read json (some blob) ≡ ok (some p)
  unfolding read typed
  read-pack p blob h = elim (dec_lt (length (header_bytes json p)) 4294967296) [
    | yes short ↦
        let (made, e, _, back) = (unpack-pack p).0 short in
        let same : made ≡ blob = ground (arith, sym e ∙ h) in
        ap (λ b. unpack_payload json b >>= λ u. typed u >>= λ o. ok (some o)) (sym same)
        ∙ ap (λ r. r >>= λ u. typed u >>= λ o. ok (some o)) back
    | no long ↦ absurd (ground (arith, sym ((unpack-pack p).1 (omega arith)) ∙ h))
  ]
