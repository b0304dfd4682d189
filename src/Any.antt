-- ===== src/Any.antt =====
-- The parts of src/any that all modes share.
pub mod Mode
pub mod Convert
pub mod Performance
pub mod Difficulty
pub mod Score
