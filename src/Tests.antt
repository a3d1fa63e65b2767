-- ===== src/Tests.antt =====
-- The theorems at concrete data: sample data, and one module of examples for each part.
pub mod Samples
mod Formats
mod Signing
mod Scripts
mod Keys
mod Polling
mod Devices
mod Wallet
mod Phrases
mod Outputs
