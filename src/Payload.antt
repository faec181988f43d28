-- ===== src/Payload.antt =====
-- src/llmcache/payload.py: the payload of one chunk. `meta` holds what JSON can hold, but for
-- numbers that are not whole.
pub mod Framing
use llmcache.Prelude.{ℕ, ◌≡◌, ◌≢◌, refl, String, Bool, List, length, ite, String_discrete, arith}
use llmcache.Results.{Result, ok, err, serialization_error}
use llmcache.Int.{ℤ}

mutual
  pub data Json : Type 0 where
    null : Json
    bool : Bool → Json
    int : ℤ → Json
    str : String → Json
    arr : Items → Json
    obj : Fields → Json

  pub data Items : Type 0 where
    nil : Items
    cons : Json → Items → Items

  pub data Fields : Type 0 where
    end : Fields
    field : String → Json → Fields → Fields

-- `KVPayload`; `bytes` is its field `data`.
pub record KvPayload : Type 0 where
  pub bytes : List ℕ
  pub num_tokens : ℕ
  pub num_layers : ℕ
  pub fmt : String
  pub meta : Fields

abbrev pub nbytes : KvPayload → ℕ
nbytes p = length p.bytes

-- What `RawSerializer.serialize` may be given: bytes-like objects and anything else.
pub data RawKv : Type 0 where
  buffer : List ℕ → RawKv
  unsupported : RawKv

-- `RawSerializer`
unfoldable pub serialize : RawKv → ℕ → ℕ → Result KvPayload
serialize (buffer bytes) num_tokens num_layers = ok (record {
  bytes = bytes;
  num_tokens = num_tokens;
  num_layers = num_layers;
  fmt = "raw";
  meta = end;
})
serialize unsupported num_tokens num_layers = err serialization_error

unfoldable pub deserialize : KvPayload → Result (List ℕ)
deserialize payload =
    ite (String_discrete payload.fmt "raw") (ok payload.bytes) (err serialization_error)
