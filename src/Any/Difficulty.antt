-- ===== src/Any/Difficulty.antt =====
-- src/any/difficulty/mod.rs and inspect.rs: the settings of a calculation, their setters and
-- getters, and the public copy `InspectDifficulty`.
pub mod Inspect
use old_ccv3_pp.Base.{ℕ, ◌-◌, ◌^◌, ◌%◌, Bool, true, false, Option, none, some, u64_mod}
use mathlib.Core.Option
use old_ccv3_pp.Float.{Floats}

-- `ModsDependent`
pub record ModsDependent (F32 : Type 0) : Type 0 where
  pub value : F32
  pub with_mods : Bool

abbrev pub unwrap_or {ℓ} : {A : Type ℓ} → Option A → A → A
unwrap_or none d = d
unwrap_or (some a) d = a

-- What the code asks of `GameMods`.
pub record Mods (F64 : Type 0) : Type 1 where
  pub GameMods : Type 0
  pub default : GameMods
  pub clock_rate : GameMods → F64
  pub hardrock_offsets : GameMods → Bool
  pub no_slider_head_acc : GameMods → Bool → Bool

module _ (f : Floats) (m : Mods (f.F64)) where
  open f use {F64, F32, clamp, clamp32, decimal, to_bits, from_bits}
  open m use {GameMods}

  -- `Difficulty`; the clock rate is kept by its bits.
  pub record Difficulty : Type 0 where
    pub mods : GameMods
    pub passed_objects : Option ℕ
    pub clock_rate : Option ℕ
    pub ar : Option (ModsDependent F32)
    pub cs : Option (ModsDependent F32)
    pub hp : Option (ModsDependent F32)
    pub od : Option (ModsDependent F32)
    pub hardrock_offsets : Option Bool
    pub lazer : Option Bool

  pub record InspectDifficulty : Type 0 where
    pub mods : GameMods
    pub passed_objects : Option ℕ
    pub clock_rate : Option F64
    pub ar : Option (ModsDependent F32)
    pub cs : Option (ModsDependent F32)
    pub hp : Option (ModsDependent F32)
    pub od : Option (ModsDependent F32)
    pub hardrock_offsets : Option Bool
    pub lazer : Option Bool

  unfoldable pub new : Difficulty
  new = record {
    mods = m.default;
    passed_objects = none;
    clock_rate = none;
    ar = none;
    cs = none;
    hp = none;
    od = none;
    hardrock_offsets = none;
    lazer = none;
  }

  pub set_mods : Difficulty → GameMods → Difficulty
  set_mods d mods = record d { mods = mods }

  pub set_passed_objects : Difficulty → ℕ → Difficulty
  set_passed_objects d n = record d { passed_objects = some n }

  -- clamped to 0.01 and 100.0
  pub set_clock_rate : Difficulty → F64 → Difficulty
  set_clock_rate d rate = record d {
    clock_rate = some (to_bits (clamp rate (decimal 1 2) (decimal 1000 1)));
  }

  -- clamped to -20.0 and 20.0
  pub clamped : F32 → Bool → ModsDependent F32
  clamped value with_mods = record { value = clamp32 value 20 20; with_mods = with_mods }

  pub set_ar : Difficulty → F32 → Bool → Difficulty
  unfolding clamped
  set_ar d ar with_mods = record d { ar = some (clamped ar with_mods) }

  pub set_cs : Difficulty → F32 → Bool → Difficulty
  unfolding clamped
  set_cs d cs with_mods = record d { cs = some (clamped cs with_mods) }

  pub set_hp : Difficulty → F32 → Bool → Difficulty
  unfolding clamped
  set_hp d hp with_mods = record d { hp = some (clamped hp with_mods) }

  pub set_od : Difficulty → F32 → Bool → Difficulty
  unfolding clamped
  set_od d od with_mods = record d { od = some (clamped od with_mods) }

  pub set_hardrock_offsets : Difficulty → Bool → Difficulty
  set_hardrock_offsets d b = record d { hardrock_offsets = some b }

  pub set_lazer : Difficulty → Bool → Difficulty
  set_lazer d b = record d { lazer = some b }

  pub get_clock_rate : Difficulty → F64
  get_clock_rate d = unwrap_or (Option.map from_bits d.clock_rate) (m.clock_rate d.mods)

  -- `usize::MAX` if not set
  unfoldable pub get_passed_objects : Difficulty → ℕ
  get_passed_objects d = unwrap_or d.passed_objects (u64_mod - 1)

  pub get_hardrock_offsets : Difficulty → Bool
  get_hardrock_offsets d = unwrap_or d.hardrock_offsets (m.hardrock_offsets d.mods)

  unfoldable pub get_lazer : Difficulty → Bool
  get_lazer d = unwrap_or d.lazer true

  pub inspect : Difficulty → InspectDifficulty
  inspect d = record {
    mods = d.mods;
    passed_objects = d.passed_objects;
    clock_rate = Option.map from_bits d.clock_rate;
    ar = d.ar;
    cs = d.cs;
    hp = d.hp;
    od = d.od;
    hardrock_offsets = d.hardrock_offsets;
    lazer = d.lazer;
  }

  -- `if let Some(x) = o { difficulty = set(difficulty, x) }`
  abbrev pub if_some {ℓ} :
      {A : Type ℓ} → Option A → (Difficulty → A → Difficulty) → Difficulty → Difficulty
  if_some none set d = d
  if_some (some a) set d = set d a

  pub into_difficulty : InspectDifficulty → Difficulty
  unfolding new set_mods set_passed_objects set_clock_rate set_ar set_cs set_hp set_od
      set_hardrock_offsets set_lazer
  into_difficulty i =
      let d = set_mods new i.mods in
      let d = if_some i.passed_objects set_passed_objects d in
      let d = if_some i.clock_rate set_clock_rate d in
      let d = if_some i.ar (λ d a. set_ar d a.value a.with_mods) d in
      let d = if_some i.cs (λ d a. set_cs d a.value a.with_mods) d in
      let d = if_some i.hp (λ d a. set_hp d a.value a.with_mods) d in
      let d = if_some i.od (λ d a. set_od d a.value a.with_mods) d in
      let d = if_some i.hardrock_offsets set_hardrock_offsets d in if_some i.lazer set_lazer d
