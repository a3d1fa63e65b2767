-- ===== src/Ledger.antt =====
-- ledger/src: the commands and answers of a Ledger device, and their packets.
pub mod Apdu
pub mod Hid
