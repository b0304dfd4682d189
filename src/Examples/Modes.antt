-- ===== src/Examples/Modes.antt =====
-- Calculators that change their mode.
use old_ccv3_pp.Base.{ℕ, true, false, none, some, inl, inr, ◌≡◌, refl}
use old_ccv3_pp.Any.Mode.{osu, taiko, mania, Result, ok, err, ConvertError, best_case}
use old_ccv3_pp.Any.Difficulty.{new}
use old_ccv3_pp.Any.Convert.{Beatmap, Conversions, convert_mut, Converted, convert_mut-Converted}
use old_ccv3_pp.Any.Performance.{
  TaikoCalculator, of_taiko, OsuCalculator, of_osu, try_mode, osu_try_mode, try_from,
  try_convert_map, taiko_of, catch_of, mania_of,
}
use old_ccv3_pp.Any.Performance.Modes.{Answer, try_mode-Moved}
use old_ccv3_pp.Util.MapOrAttrs.{of_map, of_attrs}
use old_ccv3_pp.Taiko.Performance.{TaikoDifficultyAttributes}
use old_ccv3_pp.Examples.FixedPoint.{fixed_point, no_mods}

-- The content is a number that tells which conversions changed it.
abbrev marks : Conversions ℕ (no_mods.GameMods)
marks = record { to_taiko = λ n. 1; to_mania = λ mods n. 2 }

abbrev standard : Beatmap ℕ
standard = record { mode = osu; is_convert = false; content = 0 }

abbrev already : Beatmap ℕ
already = record { mode = taiko; is_convert = true; content = 1 }

to_taiko_test : convert_mut marks standard taiko no_mods.default ≡ some (ok already)
unfolding convert_mut
to_taiko_test = refl

already_test :
    convert_mut marks already mania no_mods.default ≡ some (err ConvertError.already_converted)
unfolding convert_mut
already_test = refl

convert_mut-Converted_example :
    (r : Result (Beatmap ℕ)) × (convert_mut marks standard taiko no_mods.default ≡ some r)
    × Converted marks standard taiko r
convert_mut-Converted_example = convert_mut-Converted marks standard taiko no_mods.default

abbrev play_on : Beatmap ℕ → OsuCalculator fixed_point no_mods ℕ marks
play_on map = record {
  map_or_attrs = of_map map;
  difficulty = new fixed_point no_mods;
  acc = some 900;
  combo = none;
  large_tick_hits = none;
  slider_end_hits = none;
  n300 = some 3;
  n100 = none;
  n50 = some 1;
  misses = some 1;
  hitresult_priority = best_case;
  combo_consistency_v3_p = none;
  disable_combo_scaling = false;
}

-- A map that was converted to taiko cannot be one of mania.
given_back_test :
    try_mode fixed_point no_mods ℕ marks (of_osu (play_on already)) mania
    ≡ some (inr (of_osu (play_on already)))
unfolding try_mode osu_try_mode try_from try_convert_map convert_mut taiko_of catch_of mania_of
given_back_test = refl

try_mode-Moved_example : Answer fixed_point no_mods ℕ marks (of_osu (play_on standard)) taiko
try_mode-Moved_example =
    try_mode-Moved fixed_point no_mods ℕ marks (of_osu (play_on standard)) taiko

-- A calculator that has the mode is kept, also where it holds attributes and no map.
abbrev taiko_attrs : TaikoDifficultyAttributes ℕ
taiko_attrs = record {
  stamina = 0;
  rhythm = 0;
  color = 0;
  peak = 0;
  great_hit_window = 0;
  ok_hit_window = 0;
  mono_stamina_factor = 0;
  stars = 0;
  max_combo = 7;
  is_convert = false;
}

abbrev rated : TaikoCalculator fixed_point no_mods ℕ marks
rated = record {
  map_or_attrs = of_attrs taiko_attrs;
  difficulty = new fixed_point no_mods;
  combo = none;
  acc = none;
  hitresult_priority = best_case;
  n300 = none;
  n100 = none;
  misses = none;
}

kept_test :
    try_mode fixed_point no_mods ℕ marks (of_taiko rated) taiko ≡ some (inl (of_taiko rated))
unfolding try_mode
kept_test = refl
