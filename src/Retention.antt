-- ===== src/Retention.antt =====
-- What may be deleted, and how fast: packages/sync/src/trim-floor.ts, data-loss-guard.ts and eviction.ts.
pub mod TrimFloor
pub mod Guard
pub mod Eviction
pub mod Compaction
