-- ===== src/Nfe.antt =====
-- internal/nfe: the domain of the NF-e.
pub mod Types
pub mod Merge
pub mod Manifestacao
pub mod Participation
mod Tests
