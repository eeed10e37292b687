-- ===== src/Tests.antt =====
-- The theorems at concrete inputs.
mod Samples
mod Packs
mod Stores
mod Queries
mod Views
mod Formulas
mod Folders
mod Sealed
mod Csvs
mod Names
mod Sidecars
mod Keys
