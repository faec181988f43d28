-- ===== src/Tests.antt =====
-- The theorems at concrete inputs: a small cache of three tokens in chunks of two.
mod Data
mod Codec
mod Types
mod Store
mod Engine
mod Calls
mod Bytes
mod Http
mod Connectors
mod Rounds
