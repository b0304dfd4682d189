-- ===== src/Osu/Performance.antt =====
-- src/osu/performance/mod.rs and src/osu/attributes.rs: the performance calculator's settings, and
-- `generate_state`, which completes the hit results of a score.
pub mod Total
use old_ccv3_pp.Base.{
  ℕ, ◌-◌, ◌%◌, Bool, true, false, Option, none, some, List, add32, sub32, mul32, u32_mod, min,
}
use old_ccv3_pp.Float.{Floats}
use old_ccv3_pp.Any.Mode.{Result, ok, err, ◌>>=◌, HitResultPriority, clip}
use old_ccv3_pp.Any.Difficulty.{Mods, Difficulty, get_passed_objects, get_lazer}
use old_ccv3_pp.Any.Score.{
  OsuScoreState, OsuScoreOrigin, stable, with_slider_acc, without_slider_acc,
}
use old_ccv3_pp.Util.MapOrAttrs.{MapOrAttrs, resolve}
use old_ccv3_pp.Osu.Search.{HitResults, slider_acc_values, with_acc, without_acc}

-- `OsuDifficultyAttributes`
pub record OsuDifficultyAttributes (F64 : Type 0) : Type 0 where
  pub aim : F64
  pub speed : F64
  pub flashlight : F64
  pub slider_factor : F64
  pub speed_note_count : F64
  pub aim_difficult_strain_count : F64
  pub speed_difficult_strain_count : F64
  pub ar : F64
  pub od : F64
  pub hp : F64
  pub cs : F64
  pub n_circles : ℕ
  pub n_sliders : ℕ
  pub n_large_ticks : ℕ
  pub n_spinners : ℕ
  pub stars : F64
  pub max_combo : ℕ
  pub dominant_tap_bpm : F64
  pub speed_rework_mult_vanilla : F64
  pub speed_rework_mult_autopilot : F64
  pub local_sr_per_minute : List F64
  pub ap_local_sr_per_minute : List F64
  pub avg_jump_dist : F64
  pub median_delta_time : F64
  pub rx_chunk_hardness : List F64
  pub rx_chunk_avg_delta : List F64

-- `OsuDifficultyAttributes::n_objects`
unfoldable pub n_objects : {F64 : Type 0} → OsuDifficultyAttributes F64 → ℕ
n_objects a = add32 (add32 a.n_circles a.n_sliders) a.n_spinners

-- the origin of the score, with its `slider_end_hits` and `large_tick_hits`
pub record SliderHits : Type 0 where
  pub origin : OsuScoreOrigin
  pub slider_end_hits : ℕ
  pub large_tick_hits : ℕ

-- `o.map_or(bound, |n| cmp::min(n, bound))`
abbrev pub all_or : Option ℕ → ℕ → ℕ
all_or none bound = bound
all_or (some n) bound = min n bound

-- `match (lazer, using_classic_slider_acc)`
unfoldable pub slider_hits :
    {F64 : Type 0} → OsuDifficultyAttributes F64 → Bool → Bool → Option ℕ → Option ℕ → SliderHits
slider_hits attrs false _ ends ticks = record {
  origin = stable;
  slider_end_hits = 0;
  large_tick_hits = 0;
}
slider_hits attrs true false ends ticks = record {
  origin = with_slider_acc attrs.n_large_ticks attrs.n_sliders;
  slider_end_hits = all_or ends attrs.n_sliders;
  large_tick_hits = all_or ticks attrs.n_large_ticks;
}
slider_hits attrs true true ends ticks = record {
  origin = without_slider_acc (add32 attrs.n_sliders attrs.n_large_ticks) attrs.n_sliders;
  slider_end_hits = all_or ends attrs.n_sliders;
  large_tick_hits = all_or ticks (add32 attrs.n_sliders attrs.n_large_ticks);
}

module _ (f : Floats) (m : Mods (f.F64)) (Map : Type 0) where
  open f use {F64, mul, div, from_u32, decimal, clamp}

  pub record OsuPerformance : Type 0 where
    pub map_or_attrs : MapOrAttrs Map (OsuDifficultyAttributes F64)
    pub difficulty : Difficulty f m
    pub acc : Option F64
    pub combo : Option ℕ
    pub large_tick_hits : Option ℕ
    pub slider_end_hits : Option ℕ
    pub n300 : Option ℕ
    pub n100 : Option ℕ
    pub n50 : Option ℕ
    pub misses : Option ℕ
    pub hitresult_priority : HitResultPriority
    pub combo_consistency_v3_p : Option F64
    pub disable_combo_scaling : Bool

  -- the setter `accuracy`: a percentage becomes a fraction
  pub set_accuracy : OsuPerformance → F64 → OsuPerformance
  set_accuracy p acc = record p {
    acc = some (div (clamp acc (decimal 0 0) (decimal 1000 1)) (decimal 1000 1));
  }

  -- the setter `combo_consistency_v3`
  pub combo_consistency_v3 : OsuPerformance → F64 → OsuPerformance
  combo_consistency_v3 q p = record q {
    disable_combo_scaling = true;
    combo_consistency_v3_p = some p;
  }

  -- the setter `state`
  unfoldable pub set_state : OsuPerformance → OsuScoreState → OsuPerformance
  set_state p s = record p {
    combo = some s.max_combo;
    large_tick_hits = some s.large_tick_hits;
    slider_end_hits = some s.slider_end_hits;
    n300 = some s.n300;
    n100 = some s.n100;
    n50 = some s.n50;
    misses = some s.misses;
  }

  -- `cmp::min(self.difficulty.get_passed_objects() as u32, attrs.n_objects())`
  pub passed_objects : OsuPerformance → OsuDifficultyAttributes F64 → ℕ
  unfolding get_passed_objects n_objects
  passed_objects p attrs = min (get_passed_objects f m p.difficulty % u32_mod) (n_objects attrs)

  -- the slider hits under the calculator's mods
  unfoldable pub sliders : OsuPerformance → OsuDifficultyAttributes F64 → SliderHits
  unfolding get_lazer slider_hits
  sliders p attrs =
      let lazer = get_lazer f m p.difficulty in
      let using_classic_slider_acc = m.no_slider_head_acc p.difficulty.mods lazer in
      slider_hits attrs lazer using_classic_slider_acc p.slider_end_hits p.large_tick_hits

  -- `n300`, `n100` and `n50` of the completed state
  pub hitresults : OsuPerformance → SliderHits → ℕ → ℕ → HitResults
  hitresults p s n_objects misses =
      let n_remaining = sub32 n_objects misses in
      let n300 = clip p.n300 n_remaining in
      let n100 = clip p.n100 n_remaining in
      let n50 = clip p.n50 n_remaining in
      let (slider_acc_value, max_slider_acc_value) =
        slider_acc_values s.origin s.slider_end_hits s.large_tick_hits in
      elim p.acc [
        | some acc ↦
            let target_total =
              mul acc (from_u32 (add32 (mul32 300 n_objects) max_slider_acc_value)) in
            with_acc f acc s.origin misses s.slider_end_hits s.large_tick_hits target_total
              slider_acc_value n_remaining p.hitresult_priority n_objects p.n300 p.n100 p.n50
              (n300, n100, n50)
        | none ↦
            without_acc p.hitresult_priority
              (n_objects - add32 (add32 (add32 n300 n100) n50) misses) p.n300 p.n100 p.n50
              (n300, n100, n50)
      ]

  -- The state for given attributes.
  pub state_for : OsuPerformance → OsuDifficultyAttributes F64 → OsuScoreState
  unfolding hitresults passed_objects sliders
  state_for p attrs =
      let n_objects = passed_objects p attrs in
      let misses = clip p.misses n_objects in
      let s = sliders p attrs in
      let (n300, n100, n50) = hitresults p s n_objects misses in
      record {
        max_combo = all_or p.combo (attrs.max_combo - misses);
        large_tick_hits = s.large_tick_hits;
        slider_end_hits = s.slider_end_hits;
        n300 = n300;
        n100 = n100;
        n50 = n50;
        misses = misses;
      }

  module _ (calculate_for_mode : Difficulty f m → Map → Result (OsuDifficultyAttributes F64)) where
    -- The state, and the calculator that now holds it and the attributes.
    pub generate_state : OsuPerformance → Result (OsuScoreState × OsuPerformance)
    unfolding resolve state_for set_state
    generate_state p = do
      (map_or_attrs, attrs) ← resolve (calculate_for_mode p.difficulty) p.map_or_attrs
      let state = state_for p attrs
      ok (state, set_state (record p { map_or_attrs = map_or_attrs }) state)
