-- ===== src/Generator.antt =====
-- The load generator, generator/src/: configuration, payloads, metrics, transport and the engine.
pub mod Metrics
pub mod Payload
pub mod AiTxn
pub mod Engine
pub mod Main
pub mod Client
pub mod Config
