-- ===== src/Any/Score/Accuracy.antt =====
-- The accuracy of each mode's state lies between 0 and 1.
use old_ccv3_pp.Base.{
  ℕ, ◌+◌, ◌*◌, ◌≤◌, ◌<◌, ◌≢◌, if◌then◌else◌, arith, ◌==◌, u32_mod, Bool-cases, inl, inr,
}
use old_ccv3_pp.Float.{Floats, FloatLaws}
use old_ccv3_pp.Any.Score.{
  OsuScoreState, TaikoScoreState, CatchScoreState, ManiaScoreState, osu_accuracy, taiko_accuracy,
  catch_accuracy, mania_accuracy, taiko_total_hits, catch_total_hits, mania_total_hits,
  osu_fraction, OsuScoreOrigin, stable, with_slider_acc, without_slider_acc,
}

module _ (f : Floats) (laws : FloatLaws f) where
  open f use {F64, div, from_u32, decimal}

  -- A fraction that is guarded by a test for zero.
  pub guarded-InUnit :
      (h n d : ℕ)
      → (h ≢ 0 → 0 < d)
      → n ≤ d
      → d < u32_mod
      → laws.InUnit (if h == 0 then decimal 0 0 else div (from_u32 n) (from_u32 d))
  guarded-InUnit h n d p le b = elim (Bool-cases (h == 0)) [
    | inl z ↦ rw z laws.zero-InUnit
    | inr z ↦ rw z (laws.div-InUnit n d le (p (ground arith)) b)
  ]

  -- The accuracy of a taiko state lies between 0 and 1, if twice its hits fit a `u32`.
  pub taiko_accuracy-InUnit :
      (s : TaikoScoreState)
      → 2 * (s.n300 + s.n100 + s.misses) < u32_mod
      → laws.InUnit (taiko_accuracy f s)
  unfolding taiko_accuracy
  taiko_accuracy-InUnit s h =
      unfold taiko_total_hits in guarded-InUnit _ _ _ (λ p. omega arith) (omega arith) (omega arith)

  -- The accuracy of a catch state lies between 0 and 1, if its hits fit a `u32`.
  pub catch_accuracy-InUnit :
      (s : CatchScoreState)
      → s.fruits + s.droplets + s.tiny_droplets + s.tiny_droplet_misses + s.misses < u32_mod
      → laws.InUnit (catch_accuracy f s)
  unfolding catch_accuracy
  catch_accuracy-InUnit s h =
      unfold catch_total_hits in guarded-InUnit _ _ _ (λ p. omega arith) (omega arith) (omega arith)

  -- The accuracy of a mania state lies between 0 and 1, if six times its hits fit a `u32`.
  pub mania_accuracy-InUnit :
      (s : ManiaScoreState)
      → 6 * (s.n320 + s.n300 + s.n200 + s.n100 + s.n50 + s.misses) < u32_mod
      → laws.InUnit (mania_accuracy f s)
  unfolding mania_accuracy
  mania_accuracy-InUnit s h =
      unfold mania_total_hits in guarded-InUnit _ _ _ (λ p. omega arith) (omega arith) (omega arith)

  -- The largest slider part that an origin adds to the denominator.
  abbrev pub max_slider_part : OsuScoreOrigin → ℕ
  max_slider_part stable = 0
  max_slider_part (with_slider_acc ticks ends) = 150 * ends + 30 * ticks
  max_slider_part (without_slider_acc ticks ends) = 30 * ticks + 10 * ends

  osu_fraction_le :
      (s : OsuScoreState) (o : OsuScoreOrigin)
      → 300 * (s.n300 + s.n100 + s.n50 + s.misses) + max_slider_part o < u32_mod
      → (osu_fraction s o).0 ≤ (osu_fraction s o).1
  unfolding osu_fraction
  osu_fraction_le s stable h = omega arith
  osu_fraction_le s (with_slider_acc t e) h = omega arith
  osu_fraction_le s (without_slider_acc t e) h = omega arith

  osu_fraction_lt : (s : OsuScoreState) (o : OsuScoreOrigin) → (osu_fraction s o).1 < u32_mod
  unfolding osu_fraction
  osu_fraction_lt s stable = omega arith
  osu_fraction_lt s (with_slider_acc t e) = omega arith
  osu_fraction_lt s (without_slider_acc t e) = omega arith

  -- The accuracy of an osu! state lies between 0 and 1 for every origin, if the denominator fits a
  -- `u32`.
  pub osu_accuracy-InUnit :
      (s : OsuScoreState) (o : OsuScoreOrigin)
      → 300 * (s.n300 + s.n100 + s.n50 + s.misses) + max_slider_part o < u32_mod
      → laws.InUnit (osu_accuracy f s o)
  unfolding osu_accuracy
  osu_accuracy-InUnit s o h =
      guarded-InUnit _ _ _ (λ p. omega arith) (osu_fraction_le s o h) (osu_fraction_lt s o)
