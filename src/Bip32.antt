-- ===== src/Bip32.antt =====
-- The key derivation crate: bip32/src.
pub mod Path
pub mod Keys
pub mod Enc
pub mod Derived
