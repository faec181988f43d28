-- ===== src/Tests/Data.antt =====
-- Inputs that the examples share.
use llmcache.Prelude.{ℕ, ◌==◌, String, true, false, none, some, List, [], ◌∷◌, if◌then◌else◌}
use llmcache.Int.{ℤ, pos}
use llmcache.Exec.{pure}
use llmcache.Results.{ok, err, value_error}
use llmcache.Dict
use llmcache.Dict.{Dict}
use llmcache.Types.{ChunkKey, ChunkKey_discrete, CacheDescriptor}
use llmcache.Payload.{KvPayload, end}
use llmcache.Store.{StorageBackend}
use llmcache.Store.Cpu
use llmcache.Store.Cpu.{Cpu}
use llmcache.Engine.State.{Env, Engine}

abbrev pub payload_of : List ℕ → KvPayload
payload_of bytes = record { bytes = bytes; num_tokens = 2; num_layers = 1; fmt = "raw"; meta = end }

abbrev pub key_of : String → ℕ → ChunkKey
key_of cid idx = record { cache_id = cid; chunk_index = idx; worker_id = 0 }

abbrev pub first_byte : List ℕ → String
first_byte [] = "empty"
first_byte (b ∷ _) = if b == 1 then "one" else if b == 3 then "three" else "other"

abbrev pub env : Env
env = record { digest = first_byte; time = λ n. pos 100; new_id = λ n. "fresh" }

-- A hot tier on its own, of five bytes.
abbrev pub hot : StorageBackend (Cpu × Unit {0})
hot = Cpu.backend none

abbrev pub empty_cpu : Cpu
empty_cpu = record { capacity_bytes = some 5; entries = []; pinned = []; used = 0 }

abbrev pub engine : Engine (Cpu × Unit {0})
engine = record {
  store = (empty_cpu, tt);
  chunk_size = 2;
  default_ttl = none;
  descriptors = [];
  readings = 0;
  ids = 0;
}

abbrev pub tokens : List ℤ
tokens = pos 1 ∷ pos 2 ∷ pos 3 ∷ []

abbrev pub chunks : List KvPayload
chunks = payload_of (7 ∷ 8 ∷ []) ∷ payload_of (9 ∷ []) ∷ []

abbrev pub descriptor : CacheDescriptor
descriptor = record {
  cache_id = "c";
  num_tokens = 3;
  chunk_size = 2;
  num_layers = 1;
  worker_ids = 0 ∷ [];
  created_at = pos 100;
  expires_at = some (pos 130);
  pinned = true;
  chunk_fingerprints = "one" ∷ "three" ∷ [];
  name = none;
  hits = 0;
  last_used_at = none;
}

-- A cold tier that keeps everything: a dictionary.
abbrev pub Shelf : Type 0
Shelf = Dict ChunkKey KvPayload

unfoldable pub shelf : StorageBackend Shelf
shelf = record {
  put = λ k o p d. (ok tt, Dict.put ChunkKey_discrete d k o);
  get = λ k d. (ok (Dict.get ChunkKey_discrete d k), d);
  contains = λ k d. (ok false, d);
  remove = λ k d. (ok true, Dict.remove ChunkKey_discrete d k);
  pin = λ k. pure tt;
  unpin = λ k. pure tt;
  keys = λ d. (ok (Dict.keys d), d);
  stats = λ d. (err value_error, d);
}

-- A hot tier with three objects, the second of them pinned.
abbrev pub three : Cpu
three = record {
  capacity_bytes = some 5;
  entries =
      (key_of "a" 0, payload_of (1 ∷ 2 ∷ []))
      ∷ (key_of "b" 0, payload_of (3 ∷ []))
      ∷ (key_of "d" 0, payload_of (4 ∷ []))
      ∷ [];
  pinned = key_of "b" 0 ∷ [];
  used = 4;
}
