-- ===== src/Intelligence.antt =====
-- internal/intelligence: the order of versions, and the ranges that advisories give.
pub mod Version
pub mod Order
pub mod Ranges
mod Examples
