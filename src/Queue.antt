-- ===== src/Queue.antt =====
-- The durable queue: src/build_engine/queue.
pub mod Rows
pub mod Order
pub mod Keys
pub mod Store
pub mod Lease
pub mod Transition
pub mod Life
pub mod Fencing
pub mod Crashes
pub mod Secrets
pub mod Moves
