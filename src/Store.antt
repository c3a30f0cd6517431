-- ===== src/Store.antt =====
-- internal/store: the repositories over SQLite.
pub mod Tx
pub mod Select
pub mod Nfe
pub mod Nfse
