-- ===== src/Connectors.antt =====
-- src/llmcache/connectors: the bridges from an inference engine's paged KV memory to the cache.
pub mod Transfer
pub mod Bridge
pub mod Chunks
pub mod Sglang
pub mod Vllm
