-- ===== src/Dfe.antt =====
-- internal/dfe: the vocabulary that the fiscal documents share.
pub mod AccessKey
pub mod Money
pub mod Protocol
mod Tests
