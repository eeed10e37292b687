-- ===== src/Evaluate.antt =====
-- The JavaScript interpreter of a view (packages/engine/src/evaluate.ts).
pub mod Matching
pub mod Sorting
pub mod View
