-- ===== src/Protocol.antt =====
-- The WSS protocol v2 envelope: src/build_engine/agent/protocol.py.
pub mod Codec
pub mod Envelope
pub mod Validate
pub mod Frames
