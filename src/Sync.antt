-- ===== src/Sync.antt =====
-- Reading and writing a workspace as immutable packs (packages/sync/src).
pub mod Paths
pub mod Store
