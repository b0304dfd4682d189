-- ===== src/Any/Performance/Modes.antt =====
-- src/any/performance/mod.rs, `try_mode` and `mode_or_ignore`: a calculator is converted or given back.
use mathlib.Core.Path.{subst, sym}
use old_ccv3_pp.Base.{true, ℕ, false, Option, some, ◌⊎◌, inl, inr, ◌≡◌, refl, ap, ◌∙◌}
use old_ccv3_pp.Float.{Floats}
use old_ccv3_pp.Any.Mode.{
  GameMode, osu, taiko, catch, mania, ConvertError, Result, ok, err, is_mode,
}
use old_ccv3_pp.Any.Difficulty.{Mods, Difficulty}
use old_ccv3_pp.Any.Convert.{Beatmap, Conversions, convert_mut, convert_mut-Converted}
use old_ccv3_pp.Util.MapOrAttrs.{of_map, of_attrs}
use old_ccv3_pp.Osu.Performance.{OsuDifficultyAttributes}
use old_ccv3_pp.Any.Performance
use old_ccv3_pp.Any.Performance.{
  OsuCalculator, OsuMap, of_osu, of_taiko, of_catch, of_mania, try_convert_map, try_from, taiko_of,
  catch_of, mania_of, both, either, osu_try_mode, osu_mode_or_ignore, try_mode, mode_or_ignore,
}

module _ (f : Floats) (m : Mods (f.F64)) (Content : Type 0)
    (c : Conversions Content (m.GameMods)) where
  abbrev Calculator : Type 0
  Calculator = Performance.Performance f m Content c

  -- What holds a map that can be converted, to `map'`
  abbrev pub ConvertsTo : OsuMap f m Content c → GameMode → m.GameMods → Beatmap Content → Type 0
  ConvertsTo mo mode mods map' =
      (map : Beatmap Content) × (mo ≡ of_map map) × (convert_mut c map mode mods ≡ some (ok map'))

  -- What holds attributes, or a map that cannot be converted
  abbrev pub NotConvertible : OsuMap f m Content c → GameMode → m.GameMods → Type 0
  NotConvertible mo mode mods =
      ((attrs : OsuDifficultyAttributes (f.F64)) × (mo ≡ of_attrs attrs))
      ⊎ ((map : Beatmap Content) × (e : ConvertError) × (mo ≡ of_map map)
          × (convert_mut c map mode mods ≡ some (err e)))

  -- The converted map, or what was given
  abbrev Tried :
      OsuMap f m Content c
      → GameMode
      → m.GameMods
      → (Beatmap Content ⊎ OsuMap f m Content c)
      → Type 0
  Tried mo mode mods (inl map) = ConvertsTo mo mode mods map
  Tried mo mode mods (inr mo') = (mo' ≡ mo) × NotConvertible mo mode mods

  try_convert_map-Tried :
      (mo : OsuMap f m Content c) (mode : GameMode) (mods : m.GameMods)
      → (r : Beatmap Content ⊎ OsuMap f m Content c) × (try_convert_map f m Content c mo mode mods
          ≡ some r)
        × Tried mo mode mods r
  unfolding try_convert_map
  try_convert_map-Tried (of_attrs attrs) mode mods =
      (inr (of_attrs attrs), refl, (refl, inl (attrs, refl)))
  try_convert_map-Tried (of_map map) mode mods =
      let (r, e, _) = convert_mut-Converted c map mode mods in go r e
    where
      go :
          (r : Result (Beatmap Content))
          → convert_mut c map mode mods ≡ some r
          → (r' : Beatmap Content ⊎ OsuMap f m Content c) × (try_convert_map f m Content c
                (of_map map)
                mode
                mods
              ≡ some r')
            × Tried (of_map map) mode mods r'
      go (ok map') e = (inl map', rw (e, try_convert_map) refl, (map, refl, e))
      go (err x) e = (inr (of_map map), rw (e, try_convert_map) refl, (refl, inr (map, x, refl, e)))

  module _ {P : Type 0} (build : OsuCalculator f m Content c → Beatmap Content → P)
      (mode : GameMode) (o : OsuCalculator f m Content c) where
    -- A calculator built on a map of the mode, or the one that was given
    abbrev Built : P ⊎ OsuCalculator f m Content c → Type 0
    Built (inl p) =
        (map : Beatmap Content) × ConvertsTo o.map_or_attrs mode o.difficulty.mods map
        × (p ≡ build o map)
    Built (inr o') = (o' ≡ o) × NotConvertible o.map_or_attrs mode o.difficulty.mods

    try_from-Built :
        (r : P ⊎ OsuCalculator f m Content c) × (try_from f m Content c build mode o ≡ some r)
        × Built r
    unfolding try_from
    try_from-Built =
        let (r, e, t) = try_convert_map-Tried o.map_or_attrs mode o.difficulty.mods in go r e t
      where
        go :
            (r : Beatmap Content ⊎ OsuMap f m Content c)
            → try_convert_map f m Content c o.map_or_attrs mode o.difficulty.mods ≡ some r
            → Tried o.map_or_attrs mode o.difficulty.mods r
            → (r' : P ⊎ OsuCalculator f m Content c) × (try_from f m Content c build mode o
                ≡ some r')
              × Built r'
        go (inl map) e t = (inl (build o map), rw (e, try_from) refl, (map, t, refl))
        go (inr mo) e t = (
          inr (record o { map_or_attrs = mo }),
          rw (e, try_from) refl,
          (ap (λ x. record o { map_or_attrs = x }) t.0, t.1),
        )

  abbrev pub mode_of : Calculator → GameMode
  mode_of (of_osu o) = osu
  mode_of (of_taiko t) = taiko
  mode_of (of_catch t) = catch
  mode_of (of_mania t) = mania

  -- The settings that calculators of all modes have
  pub record Settings : Type 0 where
    pub difficulty : Difficulty f m
    pub acc : Option (f.F64)
    pub misses : Option ℕ
    pub n300 : Option ℕ
    pub n100 : Option ℕ

  -- Fruits count as 300s and droplets as 100s.
  abbrev pub settings : Calculator → Settings
  settings (of_osu o) = record {
    difficulty = o.difficulty;
    acc = o.acc;
    misses = o.misses;
    n300 = o.n300;
    n100 = o.n100;
  }
  settings (of_taiko t) = record {
    difficulty = t.difficulty;
    acc = t.acc;
    misses = t.misses;
    n300 = t.n300;
    n100 = t.n100;
  }
  settings (of_catch t) = record {
    difficulty = t.difficulty;
    acc = t.acc;
    misses = t.misses;
    n300 = t.fruits;
    n100 = t.droplets;
  }
  settings (of_mania t) = record {
    difficulty = t.difficulty;
    acc = t.acc;
    misses = t.misses;
    n300 = t.n300;
    n100 = t.n100;
  }

  abbrev pub Holds : Calculator → Beatmap Content → Type 0
  Holds (of_osu o) map = o.map_or_attrs ≡ of_map map
  Holds (of_taiko t) map = t.map_or_attrs ≡ of_map map
  Holds (of_catch t) map = t.map_or_attrs ≡ of_map map
  Holds (of_mania t) map = t.map_or_attrs ≡ of_map map

  -- A calculator of osu! with a map that converts to `map'`; others are not converted.
  abbrev pub CanBecome : Calculator → GameMode → Beatmap Content → Type 0
  CanBecome (of_osu o) mode map' = ConvertsTo o.map_or_attrs mode o.difficulty.mods map'
  CanBecome _ mode map' = ⊥

  abbrev pub CannotBecome : Calculator → GameMode → Type 0
  CannotBecome (of_osu o) mode = NotConvertible o.map_or_attrs mode o.difficulty.mods
  CannotBecome _ mode = Unit

  -- Of the same mode: the calculator itself. Of another mode: one with the converted map and the same
  -- settings, or the calculator itself as an error where it cannot be converted.
  abbrev pub Moved : Calculator → GameMode → Calculator ⊎ Calculator → Type 0
  Moved p mode (inl q) =
      (mode_of q ≡ mode)
      × (settings q ≡ settings p)
      × (((is_mode (mode_of p) mode ≡ true) × (q ≡ p))
          ⊎ ((is_mode (mode_of p) mode ≡ false)
              × ((map : Beatmap Content) × CanBecome p mode map × Holds q map)))
  Moved p mode (inr q) = (q ≡ p) × (is_mode (mode_of p) mode ≡ false) × CannotBecome p mode

  abbrev pub either_way : Calculator ⊎ Calculator → Calculator
  either_way (inl q) = q
  either_way (inr q) = q

  abbrev pub Answer : Calculator → GameMode → Type 0
  Answer p mode =
      (r : Calculator ⊎ Calculator) × (try_mode f m Content c p mode ≡ some r)
      × Moved p mode r
      × (mode_or_ignore f m Content c p mode ≡ some (either_way r))

  -- What both functions do with a calculator of osu!, for each of the other modes
  converted :
      {P : Type 0} (wrap : P → Calculator)
      (build : OsuCalculator f m Content c → Beatmap Content → P) (mode : GameMode)
      (o : OsuCalculator f m Content c)
      → ((p : P) → mode_of (wrap p) ≡ mode)
      → ((map : Beatmap Content) → settings (wrap (build o map)) ≡ settings (of_osu o))
      → ((map : Beatmap Content) → Holds (wrap (build o map)) map)
      → is_mode osu mode ≡ false
      → (r : Calculator ⊎ Calculator) × (both f m Content c
            (λ p. p)
            of_osu
            (both f m Content c wrap (λ o'. o') (try_from f m Content c build mode o))
          ≡ some r)
        × Moved (of_osu o) mode r
        × (either f m Content c wrap (try_from f m Content c build mode o) ≡ some (either_way r))
  converted {P} wrap build mode o goal same holds other =
      let (r, e, b) = try_from-Built build mode o in go r e b
    where
      go :
          (r : P ⊎ OsuCalculator f m Content c)
          → try_from f m Content c build mode o ≡ some r
          → Built build mode o r
          → (r' : Calculator ⊎ Calculator) × (both f m Content c
                (λ p. p)
                of_osu
                (both f m Content c wrap (λ o'. o') (try_from f m Content c build mode o))
              ≡ some r')
            × Moved (of_osu o) mode r'
            × (either f m Content c wrap (try_from f m Content c build mode o)
                ≡ some (either_way r'))
      go (inl p) e (map, t, q) = (
        inl (wrap p),
        rw e refl,
        (
          goal p,
          ap (λ p'. settings (wrap p')) q ∙ same map,
          inr (other, (map, t, subst (λ p'. Holds (wrap p') map) (sym q) (holds map))),
        ),
        rw e refl,
      )
      go (inr o') e b = (inr (of_osu o'), rw e refl, (ap of_osu b.0, other, b.1), rw e refl)

  -- A calculator of the mode itself is what `try_mode` gives, also where it holds attributes. A
  -- calculator of osu! whose map can be converted becomes one of the mode that holds the converted
  -- map, with the same difficulty settings, accuracy, misses, 300s and 100s (fruits and droplets
  -- of catch). Every other one, that is one of taiko, catch or mania, or of osu! with attributes
  -- or with a map that cannot be converted, is given back unchanged as the error. `mode_or_ignore`
  -- gives the same calculator in all cases. Neither panics.
  pub try_mode-Moved : (p : Calculator) (mode : GameMode) → Answer p mode
  unfolding try_mode osu_try_mode mode_or_ignore osu_mode_or_ignore taiko_of catch_of mania_of
  try_mode-Moved (of_osu o) osu = (inl (of_osu o), refl, (refl, refl, inl (refl, refl)), refl)
  try_mode-Moved (of_osu o) taiko =
      converted of_taiko (taiko_of f m Content c) taiko o (λ p. refl) (λ map. refl) (λ map. refl)
        refl
  try_mode-Moved (of_osu o) catch =
      converted of_catch (catch_of f m Content c) catch o (λ p. refl) (λ map. refl) (λ map. refl)
        refl
  try_mode-Moved (of_osu o) mania =
      converted of_mania (mania_of f m Content c) mania o (λ p. refl) (λ map. refl) (λ map. refl)
        refl
  try_mode-Moved (of_taiko t) osu = (inr (of_taiko t), refl, (refl, refl, tt), refl)
  try_mode-Moved (of_taiko t) taiko = (inl (of_taiko t), refl, (refl, refl, inl (refl, refl)), refl)
  try_mode-Moved (of_taiko t) catch = (inr (of_taiko t), refl, (refl, refl, tt), refl)
  try_mode-Moved (of_taiko t) mania = (inr (of_taiko t), refl, (refl, refl, tt), refl)
  try_mode-Moved (of_catch t) osu = (inr (of_catch t), refl, (refl, refl, tt), refl)
  try_mode-Moved (of_catch t) taiko = (inr (of_catch t), refl, (refl, refl, tt), refl)
  try_mode-Moved (of_catch t) catch = (inl (of_catch t), refl, (refl, refl, inl (refl, refl)), refl)
  try_mode-Moved (of_catch t) mania = (inr (of_catch t), refl, (refl, refl, tt), refl)
  try_mode-Moved (of_mania t) osu = (inr (of_mania t), refl, (refl, refl, tt), refl)
  try_mode-Moved (of_mania t) taiko = (inr (of_mania t), refl, (refl, refl, tt), refl)
  try_mode-Moved (of_mania t) catch = (inr (of_mania t), refl, (refl, refl, tt), refl)
  try_mode-Moved (of_mania t) mania = (inl (of_mania t), refl, (refl, refl, inl (refl, refl)), refl)
