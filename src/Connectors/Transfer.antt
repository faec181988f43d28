-- ===== src/Connectors/Transfer.antt =====
-- src/llmcache/connectors/transfer.py: moving chunks in and out of a paged buffer. The buffer is
-- that of `DictKVTransfer`; the layout is fixed when it is made.
pub mod Split
pub mod Blocks
pub mod Pages
pub mod Loaded
use mathlib.Core.List.{flatten}
use llmcache.Prelude.{
  ℕ, zero, suc, ◌+◌, ◌-◌, ◌*◌, ◌/◌, ◌%◌, max, Option, none, some, List, [], ◌∷◌, ◌++◌, map, length,
  take, range_from, ℕ_discrete, if◌then◌else◌, ◌==◌,
}
use llmcache.Results.{Result, ok, err, value_error, zero_division_error, ◌>>=◌}
use llmcache.Exec.{Exec}
use llmcache.Types.{slice}
use llmcache.Payload.{KvPayload, end}
use llmcache.Dict
use llmcache.Dict.{Dict}

-- `KVTransfer`: what the connectors ask of it. The buffer is its state.
pub record KvTransfer (T : Type 0) : Type 0 where
  pub num_layers : ℕ
  pub load_into : List ℕ → List KvPayload → Exec T (Unit {0})
  pub save_from : List ℕ → ℕ → Exec T (List KvPayload)

-- The fields of `DictKVTransfer` that do not change, and `self.blocks`.
pub record Layout : Type 0 where
  pub block_size : ℕ
  pub chunk_size : ℕ
  pub num_layers : ℕ

abbrev pub Buffer : Type 0
Buffer = Dict ℕ (List ℕ)

unfoldable pub blocks_per_chunk : Layout → Result ℕ
blocks_per_chunk l =
    if l.block_size == 0
    then err zero_division_error
    else if l.chunk_size % l.block_size == 0
    then ok (l.chunk_size / l.block_size)
    else err value_error

-- `while len(parts) < n: parts.append(b"")`
unfoldable pub pad : List (List ℕ) → ℕ → List (List ℕ)
pad [] zero = []
pad [] (suc n) = [] ∷ pad [] n
pad (p ∷ parts) n = p ∷ pad parts (n - 1)

-- `_split`
unfoldable pub split_part_size : ℕ → ℕ → ℕ
split_part_size len n = max 1 ((len + n - 1) / n)

unfoldable pub split_evenly : List ℕ → ℕ → List (List ℕ)
unfolding split_part_size pad
split_evenly bytes zero = []
split_evenly bytes (suc m) =
    let n = suc m in
    let size = split_part_size (length bytes) n in
    take n (pad (map (λ i. slice bytes (i * size) ((i + 1) * size)) (range_from 0 n)) n)

-- `for blk, part in zip(chunk_blocks, parts): self.blocks[blk] = part`
unfoldable pub write_blocks : List ℕ → List (List ℕ) → Buffer → Buffer
write_blocks [] parts buffer = buffer
write_blocks (b ∷ bs) [] buffer = buffer
write_blocks (b ∷ bs) (p ∷ parts) buffer = write_blocks bs parts (Dict.put ℕ_discrete buffer b p)

-- `self.blocks.get(blk, b"")`
unfoldable pub block : Buffer → ℕ → List ℕ
block buffer b = elim (Dict.get ℕ_discrete buffer b) [ none ↦ [] | some bytes ↦ bytes ]

-- The loop of `load_into`, from chunk `chunk_idx`.
unfoldable pub write_chunks : ℕ → List ℕ → ℕ → List KvPayload → Buffer → Buffer
unfolding split_evenly write_blocks
write_chunks bpc block_ids chunk_idx [] buffer = buffer
write_chunks bpc block_ids chunk_idx (payload ∷ payloads) buffer =
    let chunk_blocks = slice block_ids (chunk_idx * bpc) ((chunk_idx + 1) * bpc) in
    write_chunks bpc block_ids (suc chunk_idx) payloads
      (write_blocks chunk_blocks (split_evenly payload.bytes (length chunk_blocks)) buffer)

unfoldable pub load_into : Layout → List ℕ → List KvPayload → Exec Buffer (Unit {0})
unfolding blocks_per_chunk write_chunks
load_into l block_ids payloads buffer = elim (blocks_per_chunk l) [
  | ok bpc ↦ (ok tt, write_chunks bpc block_ids 0 payloads buffer)
  | err x ↦ (err x, buffer)
]

-- One payload of `save_from`.
unfoldable pub read_chunk : Layout → Buffer → List ℕ → KvPayload
unfolding block
read_chunk l buffer chunk_blocks = record {
  bytes = flatten (map (block buffer) chunk_blocks);
  num_tokens = l.chunk_size;
  num_layers = l.num_layers;
  fmt = "raw";
  meta = end;
}

unfoldable pub save_from : Layout → List ℕ → ℕ → Exec Buffer (List KvPayload)
unfolding blocks_per_chunk read_chunk
save_from l block_ids num_chunks buffer = (
  blocks_per_chunk l >>= λ bpc. ok (
      map
        (λ chunk_idx.
          read_chunk l buffer (slice block_ids (chunk_idx * bpc) ((chunk_idx + 1) * bpc)))
        (range_from 0 num_chunks)),
  buffer,
)

unfoldable pub dict_transfer : Layout → KvTransfer Buffer
unfolding load_into save_from
dict_transfer l = record {
  num_layers = l.num_layers;
  load_into = load_into l;
  save_from = save_from l;
}
