-- ===== src/Sync.antt =====
-- internal/sync and internal/syncstate: the pull of one distribution by NSU.
pub mod Samples
pub mod Error
pub mod Types
pub mod Env
pub mod Rows
pub mod Store
pub mod Budget
pub mod Item
pub mod Batch
pub mod Loop
pub mod Dist
pub mod Dfe
pub mod Nfe
pub mod Nfse
pub mod Cover
pub mod Content
pub mod Count
pub mod Closing
pub mod Manager
mod Tests
