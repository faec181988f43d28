-- ===== src/Payload/Framing.antt =====
-- src/llmcache/payload.py: `pack_payload` and `unpack_payload`, the framing of the stores of bytes.
-- `json` is a parameter: `dumps` gives the encoded text, and `loads` decodes and parses.
pub mod RoundTrip
use llmcache.Prelude.{
  ℕ, ◌+◌, ◌*◌, ◌≡◌, String, Bool, true, false, ◌&&◌, Option, none, some, List, [], ◌∷◌, ◌++◌,
  length, take, drop, ltb, ◌==◌, ite, if◌then◌else◌, String_discrete,
}
use llmcache.Int.{ℤ, pos}
use llmcache.Results.{
  Result, ok, err, serialization_error, overflow_error, key_error, type_error, ◌>>=◌,
}
use llmcache.Types.{word_bytes, slice}
use llmcache.Payload.{Json, Fields, KvPayload, null, bool, int, str, arr, obj, field, end}

-- What the code relies on: `loads` gives back the dictionary that `dumps` has written.
pub record JsonCodec : Type 0 where
  pub dumps : Json → List ℕ
  pub loads : List ℕ → Result Json
  pub loads-dumps : (fields : Fields) → loads (dumps (obj fields)) ≡ ok (obj fields)

-- `_MAGIC`, the bytes of "LKVP1\n"
abbrev pub magic : List ℕ
magic = 76 ∷ 75 ∷ 86 ∷ 80 ∷ 49 ∷ 10 ∷ []

-- `blob == other`, of bytes
unfoldable pub same_bytes : List ℕ → List ℕ → Bool
same_bytes [] [] = true
same_bytes (a ∷ xs) (b ∷ ys) = a == b && same_bytes xs ys
same_bytes [] (b ∷ ys) = false
same_bytes (a ∷ xs) [] = false

-- `n.to_bytes(4, "little")`
unfoldable pub size_bytes : ℕ → Result (List ℕ)
unfolding word_bytes
size_bytes n = if ltb n 4294967296 then ok (word_bytes n) else err overflow_error

-- `int.from_bytes(bytes, "little")`
unfoldable pub from_bytes : List ℕ → ℕ
from_bytes [] = 0
from_bytes (b ∷ bytes) = b + 256 * from_bytes bytes

-- `header.get(name)`, of a dictionary
unfoldable pub find_field : Fields → String → Option Json
find_field end name = none
find_field (field key value fields) name =
    ite (String_discrete key name) (some value) (find_field fields name)

-- `header[name]`; the header may be no dictionary.
unfoldable pub item : Json → String → Result Json
unfolding find_field
item (obj fields) name = elim (find_field fields name) [
  | none ↦ err key_error
  | some value ↦ ok value
]
item null name = err type_error
item (bool b) name = err type_error
item (int n) name = err type_error
item (str s) name = err type_error
item (arr items) name = err type_error

-- `header.get("meta", {})`, once `header` is known to have items
unfoldable pub meta_of : Json → Json
unfolding find_field
meta_of (obj fields) = elim (find_field fields "meta") [ none ↦ obj end | some value ↦ value ]
meta_of _ = obj end

-- The payload that `unpack_payload` builds. It does not check the types of the header's values.
pub record Unpacked : Type 0 where
  pub bytes : List ℕ
  pub num_tokens : Json
  pub num_layers : Json
  pub fmt : Json
  pub meta : Json

abbrev pub as_unpacked : KvPayload → Unpacked
as_unpacked p = record {
  bytes = p.bytes;
  num_tokens = int (pos p.num_tokens);
  num_layers = int (pos p.num_layers);
  fmt = str p.fmt;
  meta = obj p.meta;
}

abbrev pub header_fields : KvPayload → Fields
header_fields p = field "num_tokens" (int (pos p.num_tokens)) (
    field "num_layers" (int (pos p.num_layers))
      (field "fmt" (str p.fmt) (field "meta" (obj p.meta) end)))

-- `unpack_payload`, from the parsed header on; `rest` is what stands behind the header.
unfoldable pub read_header : List ℕ → Json → Result Unpacked
unfolding item meta_of
read_header rest header = do
  num_tokens ← item header "num_tokens"
  num_layers ← item header "num_layers"
  fmt ← item header "fmt"
  ok (record {
    bytes = rest;
    num_tokens = num_tokens;
    num_layers = num_layers;
    fmt = fmt;
    meta = meta_of header;
  })

-- The payload as `StorageBackend.get` promises it. A header whose values have other types than
-- `pack_payload` writes is taken for an error here; in Python it would show at the first use.
abbrev pub as_nat : Json → Result ℕ
as_nat (int (pos n)) = ok n
as_nat _ = err type_error

abbrev pub as_str : Json → Result String
as_str (str s) = ok s
as_str _ = err type_error

abbrev pub as_fields : Json → Result Fields
as_fields (obj fields) = ok fields
as_fields _ = err type_error

unfoldable pub typed : Unpacked → Result KvPayload
typed u = do
  num_tokens ← as_nat u.num_tokens
  num_layers ← as_nat u.num_layers
  fmt ← as_str u.fmt
  meta ← as_fields u.meta
  ok (record {
    bytes = u.bytes;
    num_tokens = num_tokens;
    num_layers = num_layers;
    fmt = fmt;
    meta = meta;
  })

module _ (json : JsonCodec) where
  abbrev pub header_bytes : KvPayload → List ℕ
  header_bytes p = json.dumps (obj (header_fields p))

  unfoldable pub pack_payload : KvPayload → Result (List ℕ)
  unfolding size_bytes
  pack_payload p = size_bytes (length (header_bytes p)) >>= λ size.
      ok (magic ++ (size ++ (header_bytes p ++ p.bytes)))

  unfoldable pub unpack_payload : List ℕ → Result Unpacked
  unfolding from_bytes read_header same_bytes
  unpack_payload blob =
      let size = from_bytes (slice blob 6 10) in
      let parsed = json.loads (slice blob 10 (10 + size)) >>= λ header.
      read_header (drop (10 + size) blob) header in
      if same_bytes (take 6 blob) magic then parsed else err serialization_error

  -- What the stores make of the bytes that they find, or do not find.
  unfoldable pub read : Option (List ℕ) → Result (Option KvPayload)
  unfolding typed unpack_payload
  read none = ok none
  read (some blob) = do u ← unpack_payload blob; object ← typed u; ok (some object)
