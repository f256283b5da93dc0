-- ===== src/Devotcp.antt =====
-- The binary TCP protocol for devices: internal/transport/devotcp.
pub mod Outcome
pub mod Bytes
pub mod Utf8
pub mod Frame
pub mod Payload
pub mod Reply
mod Tests
