-- ===== src/Agent.antt =====
-- The agent: the command handlers in src/build_engine/queue/handlers.py and the uplink in
-- src/build_engine/agent/uplink.py, which share the queue database.
pub mod Commands
pub mod Uplink
pub mod Welcome
pub mod Dispatch
pub mod Backoff
pub mod Leases
