-- ===== src/Property.antt =====
-- Typed property values (packages/engine/src/properties.ts, with `isUuid` of ids.ts).
pub mod Dates
pub mod Calendar
pub mod Values
pub mod Sets
pub mod Stored
