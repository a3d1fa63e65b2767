-- ===== src/Handshakes.antt =====
-- The Handshake types: handshakes/src.
pub mod LockingScript
pub mod Covenant
pub mod Output
pub mod Input
