-- ===== src/Taiko/Performance.antt =====
-- src/taiko/performance/mod.rs: the performance calculator's settings, and `generate_state`, which
-- completes the hit results of a score.
pub mod Total
use old_ccv3_pp.Base.{
  ℕ, zero, suc, ◌+◌, ◌-◌, ◌*◌, ◌%◌, Bool, true, false, Option, none, some, ◌==◌, if◌then◌else◌,
  add32, sub32, mul32, u32_mod, u64_mod, min,
}
use old_ccv3_pp.Base.Loops.{for_inclusive}
use old_ccv3_pp.Float.{Floats}
use old_ccv3_pp.Any.Mode.{Result, ok, err, ◌>>=◌, HitResultPriority, best_case, worst_case, clip}
use old_ccv3_pp.Any.Difficulty.{Mods, Difficulty, unwrap_or, get_passed_objects}
use old_ccv3_pp.Any.Score.{TaikoScoreState}
use old_ccv3_pp.Util.MapOrAttrs.{MapOrAttrs, of_attrs, resolve}

-- `TaikoDifficultyAttributes`
pub record TaikoDifficultyAttributes (F64 : Type 0) : Type 0 where
  pub stamina : F64
  pub rhythm : F64
  pub color : F64
  pub peak : F64
  pub great_hit_window : F64
  pub ok_hit_window : F64
  pub mono_stamina_factor : F64
  pub stars : F64
  pub max_combo : ℕ
  pub is_convert : Bool

module _ (f : Floats) (m : Mods (f.F64)) (Map : Type 0) where
  open f use {
    F64, add, sub, mul, div, abs, floor, ceil, lt, max_value, from_u32, to_u32, decimal, clamp,
  }

  pub record TaikoPerformance : Type 0 where
    pub map_or_attrs : MapOrAttrs Map (TaikoDifficultyAttributes F64)
    pub difficulty : Difficulty f m
    pub combo : Option ℕ
    pub acc : Option F64
    pub hitresult_priority : HitResultPriority
    pub n300 : Option ℕ
    pub n100 : Option ℕ
    pub misses : Option ℕ

  -- the setter `accuracy`: a percentage becomes a fraction
  pub set_accuracy : TaikoPerformance → F64 → TaikoPerformance
  set_accuracy p acc = record p {
    acc = some (div (clamp acc (decimal 0 0) (decimal 1000 1)) (decimal 1000 1));
  }

  -- the setter `state`
  unfoldable pub set_state : TaikoPerformance → TaikoScoreState → TaikoPerformance
  set_state p s = record p {
    combo = some s.max_combo;
    n300 = some s.n300;
    n100 = some s.n100;
    misses = some s.misses;
  }

  -- the function `accuracy`
  unfoldable pub accuracy : ℕ → ℕ → ℕ → F64
  accuracy n300 n100 misses =
      if add32 (add32 n300 n100) misses == 0
      then decimal 0 0
      else div (from_u32 (add32 (mul32 2 n300) n100))
          (from_u32 (mul32 2 (add32 (add32 n300 n100) misses)))

  -- the best distance so far, with its `n300` and `n100`
  abbrev pub Best : Type 0
  Best = F64 × ℕ × ℕ

  -- The body of the search: `new300` and what is left as `new100`, if they come closer to `acc`.
  pub try_n300 : F64 → ℕ → ℕ → ℕ → Best → Best
  unfolding accuracy
  try_n300 acc n_remaining misses new300 (best_dist, n300, n100) =
      let new100 = sub32 n_remaining new300 in
      let dist = abs (sub acc (accuracy new300 new100 misses)) in
      if lt dist best_dist then (dist, new300, new100) else (best_dist, n300, n100)

  -- `(None, None)` with an accuracy: search around the `n300` that would give it.
  pub search_n300 : F64 → ℕ → ℕ → ℕ → ℕ → ℕ → Best
  unfolding try_n300
  search_n300 acc total n_remaining misses n300 n100 =
      let target_total = mul acc (from_u32 (mul32 2 total)) in
      let raw_n300 = sub target_total (from_u32 n_remaining) in
      let min_n300 = min n_remaining (to_u32 (floor raw_n300)) in
      let max_n300 = min n_remaining (to_u32 (ceil raw_n300)) in
      for_inclusive min_n300 max_n300 (try_n300 acc n_remaining misses) (max_value, n300, n100)

  -- The branches with an accuracy; `-` is `saturating_sub`.
  pub with_acc : HitResultPriority → F64 → ℕ → ℕ → Option ℕ → Option ℕ → ℕ → ℕ → ℕ × ℕ
  unfolding search_n300
  with_acc best_case acc total misses (some _) (some _) n300 n100 =
      (add32 n300 (total - add32 (add32 n300 n100) misses), n100)
  with_acc worst_case acc total misses (some _) (some _) n300 n100 =
      (n300, add32 n100 (total - add32 (add32 n300 n100) misses))
  with_acc _ acc total misses (some _) none n300 n100 =
      (n300, add32 n100 (total - add32 n300 misses))
  with_acc _ acc total misses none (some _) n300 n100 =
      (add32 n300 (total - add32 n100 misses), n100)
  with_acc _ acc total misses none none n300 n100 =
      let (_, n300, n100) = search_n300 acc total (sub32 total misses) misses n300 n100 in
      (n300, n100)

  -- The branches with no accuracy: what remains goes to the first result that was not given.
  pub without_acc : HitResultPriority → ℕ → Option ℕ → Option ℕ → ℕ → ℕ → ℕ × ℕ
  without_acc best_case remaining none _ n300 n100 = (remaining, n100)
  without_acc best_case remaining (some _) none n300 n100 = (n300, remaining)
  without_acc best_case remaining (some _) (some _) n300 n100 = (add32 n300 remaining, n100)
  without_acc worst_case remaining _ none n300 n100 = (n300, remaining)
  without_acc worst_case remaining none (some _) n300 n100 = (remaining, n100)
  without_acc worst_case remaining (some _) (some _) n300 n100 = (n300, add32 n100 remaining)

  -- `n300` and `n100` of the completed state
  pub hitresults : TaikoPerformance → ℕ → ℕ → ℕ × ℕ
  unfolding with_acc without_acc
  hitresults p total misses =
      let n_remaining = sub32 total misses in
      let n300 = clip p.n300 n_remaining in
      let n100 = clip p.n100 n_remaining in
      elim p.acc [
        | some acc ↦ with_acc p.hitresult_priority acc total misses p.n300 p.n100 n300 n100
        | none ↦
            without_acc p.hitresult_priority (total - add32 (add32 n300 n100) misses) p.n300 p.n100
              n300 n100
      ]

  -- `cmp::min(self.difficulty.get_passed_objects() as u32, max_combo)`
  pub total_result_count : TaikoPerformance → TaikoDifficultyAttributes F64 → ℕ
  unfolding get_passed_objects
  total_result_count p attrs = min (get_passed_objects f m p.difficulty % u32_mod) attrs.max_combo

  -- The state for given attributes.
  pub state_for : TaikoPerformance → TaikoDifficultyAttributes F64 → TaikoScoreState
  unfolding hitresults total_result_count
  state_for p attrs =
      let total = total_result_count p attrs in
      let misses = clip p.misses total in
      let (n300, n100) = hitresults p total misses in
      let max_possible_combo = attrs.max_combo - misses in
      record {
        max_combo = elim p.combo [
          | none ↦ max_possible_combo
          | some combo ↦ min combo max_possible_combo
        ];
        n300 = n300;
        n100 = n100;
        misses = misses;
      }

  module _
      (calculate_for_mode : Difficulty f m → Map → Result (TaikoDifficultyAttributes F64)) where
    -- The state, and the calculator that now holds it and the attributes.
    pub generate_state : TaikoPerformance → Result (TaikoScoreState × TaikoPerformance)
    unfolding resolve state_for set_state
    generate_state p = do
      (map_or_attrs, attrs) ← resolve (calculate_for_mode p.difficulty) p.map_or_attrs
      let state = state_for p attrs
      ok (state, set_state (record p { map_or_attrs = map_or_attrs }) state)
