-- ===== src/Cte.antt =====
-- internal/cte: the domain of the CT-e.
pub mod Types
pub mod Merge
pub mod Participation
mod Tests
