-- ===== src/Store/Nfe.antt =====
-- internal/store/nfe.go: the NF-e repository.
pub mod Tables
pub mod Rows
pub mod Apply
pub mod Marks
pub mod Reset
pub mod Fresh
pub mod Calls
pub mod Exports
pub mod Samples
mod Tests
