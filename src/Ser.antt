-- ===== src/Ser.antt =====
-- Binary serialization: core/src/ser.rs.
pub mod Stream
pub mod CompactInt
pub mod Chain
pub mod Format
