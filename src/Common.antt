-- ===== src/Common.antt =====
-- The types of common/ that the rest of the crate shares.
pub mod Types
pub mod Statistic
