-- ===== src/Query.antt =====
-- The filter, sort and group language of a view (packages/engine/src/query.ts).
pub mod Grammar
pub mod Parse
pub mod Problems
pub mod Sanitise
pub mod Rewrite
pub mod Strip
pub mod Resolve
pub mod RoundTrip
