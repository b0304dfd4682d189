-- ===== src/Examples.antt =====
-- Runs of the models on small inputs, and each theorem at an input that meets its hypotheses.
mod FixedPoint
mod Util
mod Scores
mod Osu
mod Catch
mod ControlPoints
mod Mania
mod Color
mod Numbers
mod Modes
