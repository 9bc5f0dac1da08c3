-- ===== src/Protocol.antt =====
-- crates/protocol/src: what the daemon and the preload library share.
pub mod Event
pub mod Message
pub mod Socket
