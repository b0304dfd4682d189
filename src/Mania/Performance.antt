-- ===== src/Mania/Performance.antt =====
-- src/mania/performance/mod.rs and src/mania/attributes.rs: the performance calculator's settings, and
-- `generate_state`, which completes the hit results of a score.
pub mod Total
use old_ccv3_pp.Base.{
  ℕ, ◌-◌, ◌%◌, Bool, Option, none, some, if◌then◌else◌, add32, sub32, u32_mod, min,
}
use old_ccv3_pp.Float.{Floats}
use old_ccv3_pp.Any.Mode.{Result, ok, err, ◌>>=◌, HitResultPriority, clip}
use old_ccv3_pp.Any.Difficulty.{Mods, Difficulty, get_passed_objects, get_lazer}
use old_ccv3_pp.Any.Score.{ManiaScoreState}
use old_ccv3_pp.Util.MapOrAttrs.{MapOrAttrs, resolve}
use old_ccv3_pp.Mania.Search.{HitResults}
use old_ccv3_pp.Mania.Arms.{Given}
use old_ccv3_pp.Mania.Completion.{with_acc, without_acc}

-- `ManiaDifficultyAttributes`
pub record ManiaDifficultyAttributes (F64 : Type 0) : Type 0 where
  pub stars : F64
  pub hit_window : F64
  pub n_objects : ℕ
  pub n_hold_notes : ℕ
  pub max_combo : ℕ
  pub is_convert : Bool

module _ (f : Floats) (m : Mods (f.F64)) (Map : Type 0) where
  open f use {F64, div, decimal, clamp}

  pub record ManiaPerformance : Type 0 where
    pub map_or_attrs : MapOrAttrs Map (ManiaDifficultyAttributes F64)
    pub difficulty : Difficulty f m
    pub n320 : Option ℕ
    pub n300 : Option ℕ
    pub n200 : Option ℕ
    pub n100 : Option ℕ
    pub n50 : Option ℕ
    pub misses : Option ℕ
    pub acc : Option F64
    pub hitresult_priority : HitResultPriority

  -- the setter `accuracy`: a percentage becomes a fraction
  pub set_accuracy : ManiaPerformance → F64 → ManiaPerformance
  set_accuracy p acc = record p {
    acc = some (div (clamp acc (decimal 0 0) (decimal 1000 1)) (decimal 1000 1));
  }

  -- the setter `state`
  unfoldable pub set_state : ManiaPerformance → ManiaScoreState → ManiaPerformance
  set_state p s = record p {
    n320 = some s.n320;
    n300 = some s.n300;
    n200 = some s.n200;
    n100 = some s.n100;
    n50 = some s.n50;
    misses = some s.misses;
  }

  -- `cmp::min(self.difficulty.get_passed_objects() as u32, attrs.n_objects)`
  pub passed_objects : ManiaPerformance → ManiaDifficultyAttributes F64 → ℕ
  unfolding get_passed_objects
  passed_objects p attrs = min (get_passed_objects f m p.difficulty % u32_mod) attrs.n_objects

  -- The hit results of a play: on lazer, hold notes count twice.
  unfoldable pub n_objects : ManiaPerformance → ManiaDifficultyAttributes F64 → ℕ
  unfolding passed_objects get_lazer
  n_objects p attrs =
      if get_lazer f m p.difficulty
      then add32 (passed_objects p attrs) attrs.n_hold_notes
      else passed_objects p attrs

  -- What was given, as far as it fits what the misses leave.
  pub clipped : ManiaPerformance → ℕ → Given
  clipped p n_remaining = record {
    o320 = p.n320;
    o300 = p.n300;
    n320 = clip p.n320 n_remaining;
    n300 = clip p.n300 n_remaining;
    n200 = clip p.n200 n_remaining;
    n100 = clip p.n100 n_remaining;
    n50 = clip p.n50 n_remaining;
  }

  -- `n320`, `n300`, `n200`, `n100` and `n50` of the completed state
  pub hitresults : ManiaPerformance → ℕ → ℕ → HitResults
  unfolding clipped
  hitresults p n_objects misses =
      let n_remaining = sub32 n_objects misses in
      let g = clipped p n_remaining in
      elim p.acc [
        | some acc ↦
            with_acc f acc n_objects n_remaining misses g p.hitresult_priority p.n320 p.n300 p.n200
              p.n100 p.n50
        | none ↦
            without_acc p.hitresult_priority
              (n_objects
                - add32 (add32 (add32 (add32 (add32 g.n320 g.n300) g.n200) g.n100) g.n50) misses)
              g p.n320 p.n300 p.n200 p.n100 p.n50
      ]

  -- The state for given attributes. The misses are limited before hold notes are added.
  pub state_for : ManiaPerformance → ManiaDifficultyAttributes F64 → ManiaScoreState
  unfolding hitresults passed_objects n_objects
  state_for p attrs =
      let misses = clip p.misses (passed_objects p attrs) in
      let (n320, n300, n200, n100, n50) = hitresults p (n_objects p attrs) misses in
      record { n320 = n320; n300 = n300; n200 = n200; n100 = n100; n50 = n50; misses = misses }

  module _
      (calculate_for_mode : Difficulty f m → Map → Result (ManiaDifficultyAttributes F64)) where
    -- The state, and the calculator that now holds it and the attributes.
    pub generate_state : ManiaPerformance → Result (ManiaScoreState × ManiaPerformance)
    unfolding resolve state_for set_state
    generate_state p = do
      (map_or_attrs, attrs) ← resolve (calculate_for_mode p.difficulty) p.map_or_attrs
      let state = state_for p attrs
      ok (state, set_state (record p { map_or_attrs = map_or_attrs }) state)
