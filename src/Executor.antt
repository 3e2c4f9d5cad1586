-- ===== src/Executor.antt =====
-- The package src/build_engine/executor.
pub mod Stream
pub mod Cache
pub mod Docker
pub mod Source
