-- ===== src/Pack.antt =====
-- The pack envelope (packages/format/src): constants.ts, errors.ts, crc32c.ts and envelope.ts.
pub mod Bytes
pub mod Layout
pub mod Crc
pub mod Envelope
pub mod Aead
pub mod Sealed
pub mod Sidecar
