-- ===== src/Util.antt =====
-- The data structures of src/util.
pub mod Queue
pub mod Strains
pub mod MapOrAttrs
pub mod Random
pub mod Sort
