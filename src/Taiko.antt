-- ===== src/Taiko.antt =====
-- src/taiko.
pub mod Performance
pub mod Objects
pub mod Color
