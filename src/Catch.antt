-- ===== src/Catch.antt =====
-- src/catch.
pub mod Performance
pub mod Counts
pub mod Gradual
