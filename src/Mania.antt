-- ===== src/Mania.antt =====
-- src/mania: the mania mode.
pub mod Search
pub mod Arms
pub mod Completion
pub mod Performance
