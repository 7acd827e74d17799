-- ===== src/Backup.antt =====
-- packages/hub-core/src/backup: the mnemonic of BIP-39.
pub mod Words
pub mod Mnemonic
