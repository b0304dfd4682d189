-- ===== src/Osu/Search.antt =====
-- src/osu/performance/mod.rs: `NoComboState`, and how `generate_state` finds the hit results that
-- come closest to an accuracy.

pub mod Sums
pub mod Completed
use old_ccv3_pp.Base.{
  ℕ, ◌-◌, ◌/◌, Option, none, some, ◌==◌, if◌then◌else◌, add32, sub32, mul32, min,
}
use old_ccv3_pp.Base.Loops.{for_inclusive}
use old_ccv3_pp.Float.{Floats}
use old_ccv3_pp.Any.Mode.{HitResultPriority, best_case, worst_case}
use old_ccv3_pp.Any.Score.{
  OsuScoreOrigin, stable, with_slider_acc, without_slider_acc, slider_parts,
}

pub record NoComboState : Type 0 where
  pub n300 : ℕ
  pub n100 : ℕ
  pub n50 : ℕ
  pub misses : ℕ
  pub large_tick_hits : ℕ
  pub slider_end_hits : ℕ

-- `n300`, `n100` and `n50`
abbrev pub HitResults : Type 0
HitResults = ℕ × ℕ × ℕ

-- `(slider_acc_value, max_slider_acc_value)`
pub slider_acc_values : OsuScoreOrigin → ℕ → ℕ → ℕ × ℕ
slider_acc_values stable ends ticks = (0, 0)
slider_acc_values (with_slider_acc max_large_ticks max_slider_ends) ends ticks = (
  add32 (mul32 150 ends) (mul32 30 ticks),
  add32 (mul32 150 max_slider_ends) (mul32 30 max_large_ticks),
)
slider_acc_values (without_slider_acc max_large_ticks max_slider_ends) ends ticks = (
  add32 (mul32 30 ticks) (mul32 10 ends),
  add32 (mul32 30 max_large_ticks) (mul32 10 max_slider_ends),
)

-- The last step of the search with no hit result given: the priority moves results between the
-- three kinds.
pub shift : HitResultPriority → HitResults → HitResults
shift best_case (n300, n100, n50) =
    let n = min n300 (n50 / 4) in (sub32 n300 n, add32 n100 (mul32 5 n), sub32 n50 (mul32 4 n))
shift worst_case (n300, n100, n50) =
    let n = n100 / 5 in (add32 n300 n, sub32 n100 (mul32 5 n), add32 n50 (mul32 4 n))

module _ (f : Floats) where
  open f use {F64, add, sub, mul, div, abs, floor, ceil, lt, max_value, from_u32, to_u32, decimal}

  unfoldable pub accuracy : NoComboState → OsuScoreOrigin → F64
  accuracy s origin =
      let (n, d) = slider_parts origin s.slider_end_hits s.large_tick_hits in
      let numerator =
        add32 (add32 (add32 (mul32 300 s.n300) (mul32 100 s.n100)) (mul32 50 s.n50)) n in
      let denominator = add32 (mul32 300 (add32 (add32 (add32 s.n300 s.n100) s.n50) s.misses)) d in
      if denominator == 0 then decimal 0 0 else div (from_u32 numerator) (from_u32 denominator)

  -- the best distance so far, with its hit results
  abbrev pub Best : Type 0
  Best = F64 × HitResults

  module _ (acc : F64) (origin : OsuScoreOrigin) (misses ends ticks : ℕ) where
    -- The end of every round: the results are kept if their accuracy comes closer to `acc`.
    pub keep_closer : HitResults → Best → Best
    unfolding accuracy
    keep_closer (n300, n100, n50) (best_dist, best) =
        let state : NoComboState = record {
          n300 = n300;
          n100 = n100;
          n50 = n50;
          misses = misses;
          large_tick_hits = ticks;
          slider_end_hits = ends;
        } in
        let dist = abs (sub acc (accuracy state origin)) in
        if lt dist best_dist then (dist, (n300, n100, n50)) else (best_dist, best)

    -- `for new in min(left, raw.floor())..=min(left, raw.ceil())`
    pub around : ℕ → F64 → (ℕ → Best → Best) → Best → Best
    around left raw body best =
        for_inclusive (min left (to_u32 (floor raw))) (min left (to_u32 (ceil raw))) body best

    module _ (target_total : F64) (slider_acc_value n_remaining : ℕ) where
      -- `(Some(_), None, None)`
      pub search_n100 : HitResults → Best
      unfolding keep_closer around
      search_n100 (n300, n100, n50) =
          let n300 = min n300 n_remaining in
          let left = sub32 n_remaining n300 in
          let known = add32 (add32 (mul32 50 left) (mul32 300 n300)) slider_acc_value in
          let raw_n100 = div (sub target_total (from_u32 known)) (decimal 50 0) in
          around left raw_n100 (λ new100. keep_closer (n300, new100, sub32 left new100))
            (max_value, (n300, n100, n50))

      -- `(None, Some(_), None)`
      pub search_n300_n50 : HitResults → Best
      unfolding keep_closer around
      search_n300_n50 (n300, n100, n50) =
          let n100 = min n100 n_remaining in
          let left = sub32 n_remaining n100 in
          let known = add32 (add32 (mul32 50 left) (mul32 100 n100)) slider_acc_value in
          let raw_n300 = div (sub target_total (from_u32 known)) (decimal 250 0) in
          around left raw_n300 (λ new300. keep_closer (new300, n100, sub32 left new300))
            (max_value, (n300, n100, n50))

      -- `(None, None, Some(_))`
      pub search_n300_n100 : ℕ → HitResults → Best
      unfolding keep_closer around
      search_n300_n100 n_objects (n300, n100, n50) =
          let n50 = min n50 n_remaining in
          let left = sub32 n_remaining n50 in
          let more = from_u32 (add32 (mul32 100 misses) (mul32 50 n50)) in
          let known = from_u32 (add32 (mul32 100 n_objects) slider_acc_value) in
          let raw_n300 = div (sub (add target_total more) known) (decimal 200 0) in
          around left raw_n300 (λ new300. keep_closer (new300, sub32 left new300, n50))
            (max_value, (n300, n100, n50))

      -- A round of the outer loop for `(None, None, None)`.
      pub try_n300 : ℕ → Best → Best
      unfolding keep_closer around
      try_n300 new300 best =
          let left = sub32 n_remaining new300 in
          let known = add32 (add32 (mul32 50 n_remaining) (mul32 250 new300)) slider_acc_value in
          let raw_n100 = div (sub target_total (from_u32 known)) (decimal 50 0) in
          around left raw_n100 (λ new100. keep_closer (new300, new100, sub32 left new100)) best

      -- `(None, None, None)`
      pub search_all : HitResults → Best
      unfolding try_n300 around
      search_all hits =
          let known = add32 (mul32 50 n_remaining) slider_acc_value in
          let raw_n300 = div (sub target_total (from_u32 known)) (decimal 250 0) in
          around n_remaining raw_n300 try_n300 (max_value, hits)

      -- The branches with an accuracy; `-` is `saturating_sub`.
      pub with_acc :
          HitResultPriority → ℕ → Option ℕ → Option ℕ → Option ℕ → HitResults → HitResults
      unfolding search_n100 search_n300_n50 search_n300_n100 search_all shift
      with_acc best_case n_objects (some _) (some _) (some _) (n300, n100, n50) =
          (add32 n300 (n_objects - add32 (add32 (add32 n300 n100) n50) misses), n100, n50)
      with_acc worst_case n_objects (some _) (some _) (some _) (n300, n100, n50) =
          (n300, n100, add32 n50 (n_objects - add32 (add32 (add32 n300 n100) n50) misses))
      with_acc _ n_objects (some _) (some _) none (n300, n100, n50) =
          (n300, n100, n_objects - add32 (add32 n300 n100) misses)
      with_acc _ n_objects (some _) none (some _) (n300, n100, n50) =
          (n300, n_objects - add32 (add32 n300 n50) misses, n50)
      with_acc _ n_objects none (some _) (some _) (n300, n100, n50) =
          (n_objects - add32 (add32 n100 n50) misses, n100, n50)
      with_acc _ n_objects (some _) none none hits = (search_n100 hits).1
      with_acc _ n_objects none (some _) none hits = (search_n300_n50 hits).1
      with_acc _ n_objects none none (some _) hits = (search_n300_n100 n_objects hits).1
      with_acc priority n_objects none none none hits = shift priority (search_all hits).1

-- The branches with no accuracy: what remains goes to the first result that was not given.
pub without_acc : HitResultPriority → ℕ → Option ℕ → Option ℕ → Option ℕ → HitResults → HitResults
without_acc best_case remaining none _ _ (n300, n100, n50) = (remaining, n100, n50)
without_acc best_case remaining (some _) none _ (n300, n100, n50) = (n300, remaining, n50)
without_acc best_case remaining (some _) (some _) none (n300, n100, n50) = (n300, n100, remaining)
without_acc best_case remaining (some _) (some _) (some _) (n300, n100, n50) =
    (add32 n300 remaining, n100, n50)
without_acc worst_case remaining _ _ none (n300, n100, n50) = (n300, n100, remaining)
without_acc worst_case remaining _ none (some _) (n300, n100, n50) = (n300, remaining, n50)
without_acc worst_case remaining none (some _) (some _) (n300, n100, n50) = (remaining, n100, n50)
without_acc worst_case remaining (some _) (some _) (some _) (n300, n100, n50) =
    (n300, n100, add32 n50 remaining)
