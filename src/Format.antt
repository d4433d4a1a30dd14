-- ===== src/Format.antt =====
-- ui/src/lib/format.ts.
pub mod Basic
pub mod Quantity
pub mod Penalty
