-- ===== src/Examples/Scores.antt =====
-- Settings, score states and completed states on small inputs.
use old_ccv3_pp.Base.{ℕ, ◌-◌, ◌≤◌, ◌≡◌, refl, some, none, arith, false}
use old_ccv3_pp.Any.Mode.{GameMode, Result, ok, err, ConvertError, best_case}
use old_ccv3_pp.Any.Difficulty.{Difficulty, new, set_ar, set_clock_rate, inspect, into_difficulty}
use old_ccv3_pp.Any.Difficulty.Inspect.{start, with_ar, with_clock_rate, into_difficulty-inspect}
use old_ccv3_pp.Any.Score.{
  ScoreState, OsuScoreState, TaikoScoreState, CatchScoreState, ManiaScoreState, total_hits,
  osu_total_hits, taiko_total_hits, catch_total_hits, mania_total_hits, to_osu, to_taiko, to_catch,
  to_mania, osu_accuracy, mania_accuracy, with_slider_acc,
}
use old_ccv3_pp.Any.Score.Convert.{total_hits-to}
use old_ccv3_pp.Any.Score.Accuracy.{osu_accuracy-InUnit, mania_accuracy-InUnit}
use old_ccv3_pp.Util.MapOrAttrs.{of_attrs, resolve}
use old_ccv3_pp.Taiko.Performance as TaikoPerf
use old_ccv3_pp.Taiko.Performance.{TaikoPerformance, TaikoDifficultyAttributes, total_result_count}
use old_ccv3_pp.Taiko.Performance.Total as TaikoTotal
use old_ccv3_pp.Catch.Performance as CatchPerf
use old_ccv3_pp.Catch.Performance.{CatchPerformance, CatchDifficultyAttributes}
use old_ccv3_pp.Catch.Performance.Total as CatchTotal
use old_ccv3_pp.Examples.FixedPoint.{fixed_point, fixed_point_laws, no_mods}

abbrev settings : Difficulty fixed_point no_mods
settings =
    set_ar fixed_point no_mods (set_clock_rate fixed_point no_mods (new fixed_point no_mods) 1500) 9
      false

into_difficulty-inspect_example :
    into_difficulty fixed_point no_mods (inspect fixed_point no_mods settings) ≡ settings
into_difficulty-inspect_example =
    into_difficulty-inspect fixed_point no_mods fixed_point_laws
      (with_ar (with_clock_rate start 1500) 9 false)

abbrev score : ScoreState
score = record {
  max_combo = 20;
  osu_large_tick_hits = 0;
  slider_end_hits = 0;
  n_geki = 1;
  n_katu = 2;
  n300 = 3;
  n100 = 4;
  n50 = 5;
  misses = 6;
}

total_hits-to_example :
    (total_hits score GameMode.osu ≡ osu_total_hits (to_osu score))
    × (total_hits score GameMode.taiko ≡ taiko_total_hits (to_taiko score))
    × (total_hits score GameMode.catch ≡ catch_total_hits (to_catch score))
    × (total_hits score GameMode.mania ≡ mania_total_hits (to_mania score))
total_hits-to_example = total_hits-to score

abbrev osu_score : OsuScoreState
osu_score = record {
  max_combo = 20;
  large_tick_hits = 9;
  slider_end_hits = 4;
  n300 = 10;
  n100 = 2;
  n50 = 0;
  misses = 1;
}

osu_accuracy_example :
    fixed_point_laws.InUnit (osu_accuracy fixed_point osu_score (with_slider_acc 7 5))
osu_accuracy_example =
    osu_accuracy-InUnit fixed_point fixed_point_laws osu_score (with_slider_acc 7 5) (omega arith)

abbrev mania_score : ManiaScoreState
mania_score = record { n320 = 3; n300 = 2; n200 = 1; n100 = 0; n50 = 4; misses = 5 }

mania_accuracy_example : fixed_point_laws.InUnit (mania_accuracy fixed_point mania_score)
mania_accuracy_example =
    mania_accuracy-InUnit fixed_point fixed_point_laws mania_score (omega arith)

-- A taiko map of ten objects and a play of 90% with one miss.
abbrev taiko_attrs : TaikoDifficultyAttributes ℕ
taiko_attrs = record {
  stamina = 0;
  rhythm = 0;
  color = 0;
  peak = 0;
  great_hit_window = 0;
  ok_hit_window = 0;
  mono_stamina_factor = 0;
  stars = 0;
  max_combo = 10;
  is_convert = false;
}

abbrev TaikoPlay : Type 0
TaikoPlay = TaikoPerformance fixed_point no_mods (Unit {0})

abbrev taiko_play : TaikoPlay
taiko_play = record {
  map_or_attrs = of_attrs taiko_attrs;
  difficulty = new fixed_point no_mods;
  combo = none;
  acc = some 900;
  hitresult_priority = best_case;
  n300 = none;
  n100 = none;
  misses = some 1;
}

abbrev no_taiko_map :
    Difficulty fixed_point no_mods → Unit {0} → Result (TaikoDifficultyAttributes ℕ)
no_taiko_map d map = err ConvertError.already_converted

abbrev taiko_generate : TaikoPlay → Result (TaikoScoreState × TaikoPlay)
taiko_generate = TaikoPerf.generate_state fixed_point no_mods (Unit {0}) no_taiko_map

taiko_found :
    resolve (no_taiko_map taiko_play.difficulty) taiko_play.map_or_attrs
    ≡ ok (of_attrs taiko_attrs, taiko_attrs)
unfolding resolve
taiko_found = refl

taiko_generate_state-Completed_example :
    let t = total_result_count fixed_point no_mods (Unit {0}) taiko_play taiko_attrs in
    (s : TaikoScoreState) × (taiko_generate taiko_play
      ≡ ok (s, TaikoPerf.set_state fixed_point no_mods (Unit {0}) taiko_play s))
    × (s.misses ≤ t)
    × TaikoTotal.Completed fixed_point no_mods
        (Unit {0})
        fixed_point_laws
        t
        s.misses
        none
        none
        s.n300
        s.n100
    × (s.max_combo ≤ 10 - s.misses)
taiko_generate_state-Completed_example =
    TaikoTotal.generate_state-Completed fixed_point no_mods (Unit {0}) fixed_point_laws no_taiko_map
      taiko_play (of_attrs taiko_attrs) taiko_attrs taiko_found (omega arith) (omega arith)

taiko_state :
    (s : TaikoScoreState) × (taiko_generate taiko_play
      ≡ ok (s, TaikoPerf.set_state fixed_point no_mods (Unit {0}) taiko_play s))
taiko_state =
    let c =
      TaikoTotal.generate_state-Completed fixed_point no_mods (Unit {0}) fixed_point_laws
        no_taiko_map taiko_play (of_attrs taiko_attrs) taiko_attrs taiko_found (omega arith)
        (omega arith) in
    (c.0, c.1)

abbrev taiko_after : TaikoPlay
taiko_after = TaikoPerf.set_state fixed_point no_mods (Unit {0}) taiko_play taiko_state.0

taiko_again_example : taiko_generate taiko_after ≡ ok (taiko_state.0, taiko_after)
taiko_again_example =
    TaikoTotal.taiko_generate_state-again fixed_point no_mods (Unit {0}) fixed_point_laws
      no_taiko_map taiko_play (of_attrs taiko_attrs) taiko_attrs taiko_found (omega arith)
      (omega arith) taiko_state.0 taiko_after taiko_state.1

-- A catch map of five fruits, two droplets and four tiny droplets, and a play of 80% with one miss.
abbrev catch_attrs : CatchDifficultyAttributes ℕ
catch_attrs = record {
  stars = 0;
  ar = 0;
  n_fruits = 5;
  n_droplets = 2;
  n_tiny_droplets = 4;
  is_convert = false;
}

abbrev CatchPlay : Type 0
CatchPlay = CatchPerformance fixed_point no_mods (Unit {0})

abbrev catch_play : CatchPlay
catch_play = record {
  map_or_attrs = of_attrs catch_attrs;
  difficulty = new fixed_point no_mods;
  acc = some 800;
  combo = none;
  fruits = none;
  droplets = none;
  tiny_droplets = none;
  tiny_droplet_misses = none;
  misses = some 1;
}

abbrev no_catch_map :
    Difficulty fixed_point no_mods → Unit {0} → Result (CatchDifficultyAttributes ℕ)
no_catch_map d map = err ConvertError.already_converted

abbrev catch_generate : CatchPlay → Result (CatchScoreState × CatchPlay)
catch_generate = CatchPerf.generate_state fixed_point no_mods (Unit {0}) no_catch_map

catch_found :
    resolve (no_catch_map catch_play.difficulty) catch_play.map_or_attrs
    ≡ ok (of_attrs catch_attrs, catch_attrs)
unfolding resolve
catch_found = refl

catch-IsSmall :
    CatchTotal.IsSmall fixed_point no_mods (Unit {0}) fixed_point_laws catch_play catch_attrs
catch-IsSmall = record {
  map = omega arith;
  fruits = tt;
  droplets = tt;
  tiny_droplets = tt;
  tiny_droplet_misses = tt;
  acc = omega arith;
}

catch_generate_state-IsComplete_example :
    (s : CatchScoreState) × (catch_generate catch_play
      ≡ ok (s, CatchPerf.set_state fixed_point no_mods (Unit {0}) catch_play s))
    × CatchTotal.IsComplete fixed_point no_mods (Unit {0}) fixed_point_laws catch_play catch_attrs s
catch_generate_state-IsComplete_example =
    CatchTotal.generate_state-IsComplete fixed_point no_mods (Unit {0}) fixed_point_laws
      no_catch_map catch_play (of_attrs catch_attrs) catch_attrs catch_found catch-IsSmall

catch_state :
    (s : CatchScoreState) × (catch_generate catch_play
      ≡ ok (s, CatchPerf.set_state fixed_point no_mods (Unit {0}) catch_play s))
catch_state =
    let c =
      CatchTotal.generate_state-IsComplete fixed_point no_mods (Unit {0}) fixed_point_laws
        no_catch_map catch_play (of_attrs catch_attrs) catch_attrs catch_found catch-IsSmall in
    (c.0, c.1)

abbrev catch_after : CatchPlay
catch_after = CatchPerf.set_state fixed_point no_mods (Unit {0}) catch_play catch_state.0

catch_again_example : catch_generate catch_after ≡ ok (catch_state.0, catch_after)
catch_again_example =
    CatchTotal.catch_generate_state-again fixed_point no_mods (Unit {0}) fixed_point_laws
      no_catch_map catch_play (of_attrs catch_attrs) catch_attrs catch_found catch-IsSmall
      catch_state.0 catch_after catch_state.1
