-- ===== src/Any/Performance.antt =====
-- src/any/performance/mod.rs: the performance calculator of any mode, and how one of osu! becomes one of
-- another mode (`TryFrom` in src/taiko/performance, src/catch/performance and src/mania/performance).
pub mod Modes
use old_ccv3_pp.Base.{Bool, Option, none, some, ◌⊎◌, inl, inr}
use old_ccv3_pp.Float.{Floats}
use old_ccv3_pp.Any.Mode.{GameMode, Result, ok, err}
use old_ccv3_pp.Any.Difficulty.{Mods}
use old_ccv3_pp.Any.Convert.{Beatmap, Conversions, convert_mut}
use old_ccv3_pp.Util.MapOrAttrs.{MapOrAttrs, of_map, of_attrs}
use old_ccv3_pp.Osu.Performance.{OsuPerformance, OsuDifficultyAttributes}
use old_ccv3_pp.Taiko.Performance.{TaikoPerformance}
use old_ccv3_pp.Catch.Performance.{CatchPerformance}
use old_ccv3_pp.Mania.Performance.{ManiaPerformance}

module _ (f : Floats) (m : Mods (f.F64)) (Content : Type 0)
    (c : Conversions Content (m.GameMods)) where
  abbrev pub OsuCalculator : Type 0
  OsuCalculator = OsuPerformance f m (Beatmap Content)

  abbrev pub TaikoCalculator : Type 0
  TaikoCalculator = TaikoPerformance f m (Beatmap Content)

  abbrev pub CatchCalculator : Type 0
  CatchCalculator = CatchPerformance f m (Beatmap Content)

  abbrev pub ManiaCalculator : Type 0
  ManiaCalculator = ManiaPerformance f m (Beatmap Content)

  pub data Performance : Type 0 where
    of_osu : OsuCalculator → Performance
    of_taiko : TaikoCalculator → Performance
    of_catch : CatchCalculator → Performance
    of_mania : ManiaCalculator → Performance

  abbrev pub OsuMap : Type 0
  OsuMap = MapOrAttrs (Beatmap Content) (OsuDifficultyAttributes (f.F64))

  -- `Ok` is `inl` and `Err` is `inr`; `none` is a panic. A map is converted in place or, if it is
  -- borrowed, in a copy.
  unfoldable pub try_convert_map :
      OsuMap → GameMode → m.GameMods → Option (Beatmap Content ⊎ OsuMap)
  unfolding convert_mut
  try_convert_map (of_attrs attrs) mode mods = some (inr (of_attrs attrs))
  try_convert_map (of_map map) mode mods = elim (convert_mut c map mode mods) [
    | none ↦ none
    | some (ok map') ↦ some (inl map')
    | some (err e) ↦ some (inr (of_map map))
  ]

  -- `TryFrom<OsuPerformance>`, with the map converted or given back
  unfoldable pub try_from :
      {P : Type 0}
      → (OsuCalculator → Beatmap Content → P)
      → GameMode
      → OsuCalculator
      → Option (P ⊎ OsuCalculator)
  unfolding try_convert_map
  try_from build mode osu = elim (try_convert_map osu.map_or_attrs mode osu.difficulty.mods) [
    | none ↦ none
    | some (inl map) ↦ some (inl (build osu map))
    | some (inr map_or_attrs) ↦ some (inr (record osu { map_or_attrs = map_or_attrs }))
  ]

  unfoldable pub taiko_of : OsuCalculator → Beatmap Content → TaikoCalculator
  taiko_of osu map = record {
    map_or_attrs = of_map map;
    difficulty = osu.difficulty;
    combo = osu.combo;
    acc = osu.acc;
    hitresult_priority = osu.hitresult_priority;
    n300 = osu.n300;
    n100 = osu.n100;
    misses = osu.misses;
  }

  unfoldable pub catch_of : OsuCalculator → Beatmap Content → CatchCalculator
  catch_of osu map = record {
    map_or_attrs = of_map map;
    difficulty = osu.difficulty;
    acc = osu.acc;
    combo = osu.combo;
    fruits = osu.n300;
    droplets = osu.n100;
    tiny_droplets = osu.n50;
    tiny_droplet_misses = none;
    misses = osu.misses;
  }

  unfoldable pub mania_of : OsuCalculator → Beatmap Content → ManiaCalculator
  mania_of osu map = record {
    map_or_attrs = of_map map;
    difficulty = osu.difficulty;
    n320 = none;
    n300 = osu.n300;
    n200 = none;
    n100 = osu.n100;
    n50 = osu.n50;
    misses = osu.misses;
    acc = osu.acc;
    hitresult_priority = osu.hitresult_priority;
  }

  -- `Result::map`, `Result::map_err`
  abbrev pub both : {A B A' B' : Type 0} → (A → A') → (B → B') → Option (A ⊎ B) → Option (A' ⊎ B')
  both g h none = none
  both g h (some (inl a)) = some (inl (g a))
  both g h (some (inr b)) = some (inr (h b))

  -- `OsuPerformance::try_mode`
  unfoldable pub osu_try_mode : OsuCalculator → GameMode → Option (Performance ⊎ OsuCalculator)
  unfolding try_from taiko_of catch_of mania_of
  osu_try_mode osu GameMode.osu = some (inl (of_osu osu))
  osu_try_mode osu GameMode.taiko = both of_taiko (λ o. o) (try_from taiko_of GameMode.taiko osu)
  osu_try_mode osu GameMode.catch = both of_catch (λ o. o) (try_from catch_of GameMode.catch osu)
  osu_try_mode osu GameMode.mania = both of_mania (λ o. o) (try_from mania_of GameMode.mania osu)

  -- `map_or_else(Performance::Osu, ..)`
  abbrev pub either :
      {A : Type 0} → (A → Performance) → Option (A ⊎ OsuCalculator) → Option Performance
  either g none = none
  either g (some (inl a)) = some (g a)
  either g (some (inr osu)) = some (of_osu osu)

  -- `OsuPerformance::mode_or_ignore`
  unfoldable pub osu_mode_or_ignore : OsuCalculator → GameMode → Option Performance
  unfolding try_from taiko_of catch_of mania_of
  osu_mode_or_ignore osu GameMode.osu = some (of_osu osu)
  osu_mode_or_ignore osu GameMode.taiko = either of_taiko (try_from taiko_of GameMode.taiko osu)
  osu_mode_or_ignore osu GameMode.catch = either of_catch (try_from catch_of GameMode.catch osu)
  osu_mode_or_ignore osu GameMode.mania = either of_mania (try_from mania_of GameMode.mania osu)

  unfoldable pub try_mode : Performance → GameMode → Option (Performance ⊎ Performance)
  unfolding osu_try_mode
  try_mode (of_osu o) mode = both (λ p. p) of_osu (osu_try_mode o mode)
  try_mode (of_taiko t) GameMode.taiko = some (inl (of_taiko t))
  try_mode (of_catch t) GameMode.catch = some (inl (of_catch t))
  try_mode (of_mania t) GameMode.mania = some (inl (of_mania t))
  try_mode this _ = some (inr this)

  unfoldable pub mode_or_ignore : Performance → GameMode → Option Performance
  unfolding osu_mode_or_ignore
  mode_or_ignore (of_osu osu) mode = osu_mode_or_ignore osu mode
  mode_or_ignore this mode = some this
