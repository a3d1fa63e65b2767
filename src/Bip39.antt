-- ===== src/Bip39.antt =====
-- bip39/src: mnemonics.
pub mod Wordlist
pub mod Mnemonic
