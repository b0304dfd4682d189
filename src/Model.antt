-- ===== src/Model.antt =====
-- src/model: the parts of a beatmap.
pub mod ControlPoint
