-- ===== src/Engine.antt =====
-- src/llmcache/engine.py: `ExplicitKVCache`, the control plane, over any store. Calls of one
-- thread, in order: the code's lock only guards its dictionary.
pub mod State
pub mod Register
pub mod Lifecycle
pub mod Residency
pub mod Built
pub mod Registered
pub mod Live
pub mod Roundtrip
pub mod Hits
pub mod Committed
pub mod Removal
pub mod Expiry
pub mod Sweep
pub mod Totality
pub mod Calls
