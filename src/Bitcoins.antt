-- ===== src/Bitcoins.antt =====
-- The Bitcoin transaction types: bitcoins/src.
pub mod TxIn
pub mod Sighash
pub mod Legacy
pub mod Witness
pub mod TxOut
pub mod Tx
pub mod Script
pub mod Address
pub mod Builder
pub mod Utxo
