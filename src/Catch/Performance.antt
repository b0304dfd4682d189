-- ===== src/Catch/Performance.antt =====
-- src/catch/performance/mod.rs: the performance calculator's settings, and `generate_state`, which
-- completes the hit results of a score.
pub mod Hits
pub mod Total
use old_ccv3_pp.Base.{
  ℕ, zero, suc, ◌+◌, ◌-◌, ◌*◌, ◌%◌, Bool, true, false, Option, none, some, ◌==◌, if◌then◌else◌,
  add32, sub32, mul32, u32_mod, u64_mod, min,
}
use old_ccv3_pp.Base.Loops.{for_inclusive}
use old_ccv3_pp.Float.{Floats}
use old_ccv3_pp.Any.Mode.{Result, ok, err, ◌>>=◌}
use old_ccv3_pp.Any.Difficulty.{Mods, Difficulty, unwrap_or}
use old_ccv3_pp.Any.Score.{CatchScoreState}
use old_ccv3_pp.Util.MapOrAttrs.{MapOrAttrs, resolve}

-- `CatchDifficultyAttributes`
pub record CatchDifficultyAttributes (F64 : Type 0) : Type 0 where
  pub stars : F64
  pub ar : F64
  pub n_fruits : ℕ
  pub n_droplets : ℕ
  pub n_tiny_droplets : ℕ
  pub is_convert : Bool

-- `o.map_or(0, |n| cmp::min(n, bound))`
abbrev pub clip : Option ℕ → ℕ → ℕ
clip none bound = 0
clip (some n) bound = min n bound

-- The fruits and droplets that fit the given ones, the map's (`fruits`, `droplets`) and the misses.
-- `-` is `saturating_sub` and `sub32` the plain subtraction.
pub fruits_and_droplets : Option ℕ → Option ℕ → ℕ → ℕ → ℕ → ℕ × ℕ
fruits_and_droplets (some n_fruits) (some n_droplets) fruits droplets misses =
    let n_remaining = add32 fruits droplets - add32 (add32 n_fruits n_droplets) misses in
    let new_droplets = min n_remaining (droplets - n_droplets) in
    let n_droplets = add32 n_droplets new_droplets in
    let n_fruits = add32 n_fruits (sub32 n_remaining new_droplets) in
    let n_fruits = min n_fruits (add32 fruits droplets - add32 n_droplets misses) in
    (n_fruits, min n_droplets (sub32 (sub32 (add32 fruits droplets) n_fruits) misses))
fruits_and_droplets (some n_fruits) none fruits droplets misses =
    let n_droplets = droplets - (misses - (fruits - n_fruits)) in
    (sub32 (sub32 (add32 fruits droplets) misses) n_droplets, n_droplets)
fruits_and_droplets none (some n_droplets) fruits droplets misses =
    let n_fruits = fruits - (misses - (droplets - n_droplets)) in
    (n_fruits, sub32 (sub32 (add32 fruits droplets) misses) n_fruits)
fruits_and_droplets none none fruits droplets misses =
    let n_droplets = droplets - misses in
    (sub32 fruits (sub32 misses (droplets - n_droplets)), n_droplets)

module _ (f : Floats) where
  open f use {F64, add, sub, mul, div, abs, floor, ceil, lt, infinity, from_u32, to_u32}

  -- the function `accuracy`, with no guard against a map of no objects
  pub accuracy : ℕ → ℕ → ℕ → ℕ → ℕ → F64
  accuracy n_fruits n_droplets n_tiny_droplets n_tiny_droplet_misses misses =
      let numerator = add32 (add32 n_fruits n_droplets) n_tiny_droplets in
      let denominator = add32 (add32 numerator n_tiny_droplet_misses) misses in
      div (from_u32 numerator) (from_u32 denominator)

  -- the best distance so far, with its tiny droplets and their misses
  abbrev pub Best : Type 0
  Best = F64 × ℕ × ℕ

  module _ (n_fruits n_droplets misses : ℕ) (attrs : CatchDifficultyAttributes F64) where
    pub try_tiny_droplets : F64 → ℕ → Best → Best
    unfolding accuracy
    try_tiny_droplets acc n_tiny_droplets (best_dist, tiny, tiny_misses) =
        let n_tiny_droplet_misses = sub32 attrs.n_tiny_droplets n_tiny_droplets in
        let curr_acc = accuracy n_fruits n_droplets n_tiny_droplets n_tiny_droplet_misses misses in
        let curr_dist = abs (sub acc curr_acc) in
        if lt curr_dist best_dist
        then (curr_dist, n_tiny_droplets, n_tiny_droplet_misses)
        else (best_dist, tiny, tiny_misses)

    -- the closure `find_best_tiny_droplets`, from a state of no tiny droplets
    pub find_best_tiny_droplets : F64 → ℕ × ℕ
    unfolding try_tiny_droplets
    find_best_tiny_droplets acc =
        let raw_tiny_droplets =
          sub
            (mul acc
              (from_u32 (add32 (add32 attrs.n_fruits attrs.n_droplets) attrs.n_tiny_droplets)))
            (from_u32 (add32 n_fruits n_droplets)) in
        let min_tiny_droplets = min attrs.n_tiny_droplets (to_u32 (floor raw_tiny_droplets)) in
        let max_tiny_droplets = min attrs.n_tiny_droplets (to_u32 (ceil raw_tiny_droplets)) in
        let (_, tiny, tiny_misses) =
          for_inclusive min_tiny_droplets max_tiny_droplets (try_tiny_droplets acc)
            (infinity, 0, 0) in
        (tiny, tiny_misses)

    -- The tiny droplets and their misses, with the given ones and the accuracy.
    pub tiny_droplets : Option ℕ → Option ℕ → Option F64 → ℕ × ℕ
    unfolding find_best_tiny_droplets
    tiny_droplets (some t) (some tm) (some acc) =
        if add32 t tm == attrs.n_tiny_droplets then (t, tm) else find_best_tiny_droplets acc
    tiny_droplets (some t) (some tm) none = (add32 t (attrs.n_tiny_droplets - add32 t tm), tm)
    tiny_droplets (some t) none acc = (min attrs.n_tiny_droplets t, attrs.n_tiny_droplets - t)
    tiny_droplets none (some tm) acc = (attrs.n_tiny_droplets - tm, min attrs.n_tiny_droplets tm)
    tiny_droplets none none (some acc) = find_best_tiny_droplets acc
    tiny_droplets none none none = (attrs.n_tiny_droplets, 0)

module _ (f : Floats) (m : Mods (f.F64)) (Map : Type 0) where
  open f use {F64}

  pub record CatchPerformance : Type 0 where
    pub map_or_attrs : MapOrAttrs Map (CatchDifficultyAttributes F64)
    pub difficulty : Difficulty f m
    pub acc : Option F64
    pub combo : Option ℕ
    pub fruits : Option ℕ
    pub droplets : Option ℕ
    pub tiny_droplets : Option ℕ
    pub tiny_droplet_misses : Option ℕ
    pub misses : Option ℕ

  -- the setter `state`
  unfoldable pub set_state : CatchPerformance → CatchScoreState → CatchPerformance
  set_state p s = record p {
    combo = some s.max_combo;
    fruits = some s.fruits;
    droplets = some s.droplets;
    tiny_droplets = some s.tiny_droplets;
    tiny_droplet_misses = some s.tiny_droplet_misses;
    misses = some s.misses;
  }

  -- The state for given attributes. The combo is not held against the map's.
  pub state_for : CatchPerformance → CatchDifficultyAttributes F64 → CatchScoreState
  unfolding fruits_and_droplets tiny_droplets
  state_for p attrs =
      let all = add32 attrs.n_fruits attrs.n_droplets in
      let misses = clip p.misses all in
      let (n_fruits, n_droplets) =
        fruits_and_droplets p.fruits p.droplets attrs.n_fruits attrs.n_droplets misses in
      let (tiny, tiny_misses) =
        tiny_droplets f n_fruits n_droplets misses attrs p.tiny_droplets p.tiny_droplet_misses
          p.acc in
      record {
        max_combo = unwrap_or p.combo (sub32 all misses);
        fruits = n_fruits;
        droplets = n_droplets;
        tiny_droplets = tiny;
        tiny_droplet_misses = tiny_misses;
        misses = misses;
      }

  module _
      (calculate_for_mode : Difficulty f m → Map → Result (CatchDifficultyAttributes F64)) where
    -- The state, and the calculator that now holds it and the attributes.
    pub generate_state : CatchPerformance → Result (CatchScoreState × CatchPerformance)
    unfolding resolve state_for set_state
    generate_state p = do
      (map_or_attrs, attrs) ← resolve (calculate_for_mode p.difficulty) p.map_or_attrs
      let state = state_for p attrs
      ok (state, set_state (record p { map_or_attrs = map_or_attrs }) state)
