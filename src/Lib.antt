-- ===== src/Lib.antt =====
-- A verification library for llmcache, an explicit cache of the KV state of language models.
--
-- The program. A client registers the KV of a prompt under a cache id; a serving engine later asks
-- how much of a request the cache covers and loads those chunks. `ExplicitKVCache` (engine.py) keeps
-- a descriptor for each id and puts the chunks into a store. A store (store/base.py) is keyed by
-- chunk: `CPUBackend` (store/cpu.py) evicts the least recently used unpinned chunks, and
-- `TieredBackend` (store/tiered.py) demotes what a hot store evicts to a cold one and promotes what
-- is read there. The connectors (connectors/) move chunks between the paged memory of vLLM or
-- SGLang and the engine. All paths are under src/llmcache.
--
-- The files, and the code that they model:
--   Prelude, Int, Results, Exec, Dict, Sets: shared notation and lemmas. Results has the exceptions
--     of errors.py as values; Exec is a method that changes an object and may raise, where what was
--     written before the exception stays written; Dict and Sets are Python's dict and set.
--   Types: types.py. The digest of hashlib is a parameter, a function from the bytes fed.
--     Types/Chunks, Encoding and Matching have the theorems on chunking, on the bytes that are
--     hashed, and on `matched_chunk_count`.
--   Text: Python's operations on texts that are taken apart, and decimal numbers.
--   Payload: the record `KVPayload` and `RawSerializer` of payload.py. Payload/Framing:
--     `pack_payload` and `unpack_payload`, with `json` as a parameter.
--   Store: store/base.py; Store/Contract has what the engine relies on. Store/Cpu: store/cpu.py,
--     with the specification of eviction in Store/Cpu/Spill; `on_evict` works on a state of its own.
--     Store/Tiered: store/tiered.py, where the state is that of both tiers.
--     Store/Disk: store/disk.py, over the files of a POSIX file system. Store/Remote: store/remote.py, where
--     the client of Redis is a parameter and what is relied on of it is in Store/Remote/Promises.
--   Engine: engine.py, for any store. Engine/State has the state, with the number of readings taken
--     of the clock and of fresh ids; Engine/Register has `__init__`, `register`, `put_chunk` and
--     `commit`, Engine/Lifecycle the other methods. A parameter gives the clock's readings, the ids
--     of uuid4 and the digest. Engine/Calls has sequences of its calls, all but `stats`, which may
--     raise, with the rules by which a property of the engine is kept through all of them.
--   Connectors/Transfer: connectors/transfer.py, the interface and `DictKVTransfer`.
--     Connectors/Sglang: connectors/sglang.py. Connectors/Vllm: connectors/vllm.py, with the engine
--     and the buffer side by side in a `Bridge`; Connectors/Vllm/Rounds has the calls that vLLM makes
--     for one request, in their order.
--   Control: control.py, the routes (Control/Routes) and the handlers, as functions from a request to
--     a response or the exception that leaves the handler. Base64 is a parameter, and the documents of
--     requests have the documented types.
--   Cli: cli.py, the client's commands as requests to that server and outcomes, and the store that
--     `serve` builds.
--   Tests: the theorems at concrete inputs.
--
-- Loops are structural recursion over the list that the code iterates, so no fuel is needed. Tokens
-- are integers, and their encoding in four bytes is written out with its overflow error. Times are
-- whole numbers. Byte counts, indices and worker ids are natural numbers.
--
-- Not modelled: threads (the locks guard single dictionary operations, and calls are taken one after
-- the other), errors of the file system, what ".." in a cache id leads to, the limit of `http.server`
-- on a request's line, everything on torch tensors, the sockets of the HTTP server, the grammar of
-- argparse, `ChunkKey.__str__`, and `register_kv_caches`, which only keeps a reference.
pub mod Cli
pub mod Connectors
pub mod Control
pub mod Dict
pub mod Engine
pub mod Exec
pub mod Int
pub mod Payload
pub mod Prelude
pub mod Results
pub mod Sets
pub mod Store
pub mod Tests
pub mod Text
pub mod Types
