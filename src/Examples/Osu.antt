-- ===== src/Examples/Osu.antt =====
-- The completed state of an osu! score.
use old_ccv3_pp.Base.{ℕ, ◌+◌, ◌-◌, ◌*◌, ◌≤◌, ◌<◌, ◌≡◌, u32_mod, refl, some, none, [], arith, false}
use old_ccv3_pp.Any.Mode.{Result, ok, err, ConvertError, best_case}
use old_ccv3_pp.Any.Difficulty.{Difficulty, new, get_lazer}
use old_ccv3_pp.Any.Score.{OsuScoreState}
use old_ccv3_pp.Any.Score.Accuracy.{max_slider_part}
use old_ccv3_pp.Util.MapOrAttrs.{of_attrs, resolve}
use old_ccv3_pp.Osu.Performance as OsuPerf
use old_ccv3_pp.Osu.Performance.{
  OsuPerformance, OsuDifficultyAttributes, passed_objects, n_objects, sliders, slider_hits,
}
use old_ccv3_pp.Osu.Performance.Total as OsuTotal
use old_ccv3_pp.Osu.Search.Completed.{Completed}
use old_ccv3_pp.Examples.FixedPoint.{fixed_point, fixed_point_laws, no_mods}

-- A map of six circles, three sliders with four ticks, and one spinner.
abbrev attrs : OsuDifficultyAttributes ℕ
attrs = record {
  aim = 0;
  speed = 0;
  flashlight = 0;
  slider_factor = 0;
  speed_note_count = 0;
  aim_difficult_strain_count = 0;
  speed_difficult_strain_count = 0;
  ar = 0;
  od = 0;
  hp = 0;
  cs = 0;
  n_circles = 6;
  n_sliders = 3;
  n_large_ticks = 4;
  n_spinners = 1;
  stars = 0;
  max_combo = 17;
  dominant_tap_bpm = 0;
  speed_rework_mult_vanilla = 0;
  speed_rework_mult_autopilot = 0;
  local_sr_per_minute = [];
  ap_local_sr_per_minute = [];
  avg_jump_dist = 0;
  median_delta_time = 0;
  rx_chunk_hardness = [];
  rx_chunk_avg_delta = [];
}

abbrev Play : Type 0
Play = OsuPerformance fixed_point no_mods (Unit {0})

-- A play of 90% with one miss and two missed slider ends, on lazer.
abbrev play : Play
play = record {
  map_or_attrs = of_attrs attrs;
  difficulty = new fixed_point no_mods;
  acc = some 900;
  combo = none;
  large_tick_hits = none;
  slider_end_hits = some 1;
  n300 = none;
  n100 = none;
  n50 = none;
  misses = some 1;
  hitresult_priority = best_case;
  combo_consistency_v3_p = none;
  disable_combo_scaling = false;
}

abbrev no_map : Difficulty fixed_point no_mods → Unit {0} → Result (OsuDifficultyAttributes ℕ)
no_map d map = err ConvertError.already_converted

abbrev generate : Play → Result (OsuScoreState × Play)
generate = OsuPerf.generate_state fixed_point no_mods (Unit {0}) no_map

found : resolve (no_map play.difficulty) play.map_or_attrs ≡ ok (of_attrs attrs, attrs)
unfolding resolve
found = refl

fits :
    300 * n_objects attrs
      + max_slider_part fixed_point fixed_point_laws
          (sliders fixed_point no_mods (Unit {0}) play attrs).origin
    < u32_mod
unfolding n_objects sliders new get_lazer slider_hits
fits = omega arith

osu_generate_state-Completed_example :
    let t = passed_objects fixed_point no_mods (Unit {0}) play attrs in
    (s : OsuScoreState) × (generate play
      ≡ ok (s, OsuPerf.set_state fixed_point no_mods (Unit {0}) play s))
    × (s.misses ≤ t)
    × Completed t s.misses none none none (s.n300, s.n100, s.n50)
    × (s.slider_end_hits ≤ 3)
    × (s.large_tick_hits ≤ 3 + 4)
    × (s.max_combo ≤ 17 - s.misses)
osu_generate_state-Completed_example =
    OsuTotal.osu_generate_state-Completed fixed_point no_mods (Unit {0}) fixed_point_laws no_map
      play (of_attrs attrs) attrs found fits (omega arith)

state :
    (s : OsuScoreState) × (generate play
      ≡ ok (s, OsuPerf.set_state fixed_point no_mods (Unit {0}) play s))
state =
    let c =
      OsuTotal.osu_generate_state-Completed fixed_point no_mods (Unit {0}) fixed_point_laws no_map
        play (of_attrs attrs) attrs found fits (omega arith) in
    (c.0, c.1)

abbrev after : Play
after = OsuPerf.set_state fixed_point no_mods (Unit {0}) play state.0

osu_again_example : generate after ≡ ok (state.0, after)
osu_again_example =
    OsuTotal.osu_generate_state-again fixed_point no_mods (Unit {0}) fixed_point_laws no_map play
      (of_attrs attrs) attrs found fits (omega arith) state.0 after state.1
