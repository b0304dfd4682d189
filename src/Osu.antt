-- ===== src/Osu.antt =====
-- src/osu: the osu!standard mode.
pub mod Search
pub mod Performance
