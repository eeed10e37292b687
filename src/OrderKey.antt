-- ===== src/OrderKey.antt =====
-- Fractional order keys (packages/engine/src/order-key.ts).
pub mod Compare
pub mod Digits
pub mod Generate
