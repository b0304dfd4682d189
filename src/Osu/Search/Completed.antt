-- ===== src/Osu/Search/Completed.antt =====
-- The branches of src/osu/performance/mod.rs that complete the hit results: they make up the
-- objects, and complete results stay as they are.
use old_ccv3_pp.Base.{
  ℕ, ◌+◌, ◌-◌, ◌*◌, ◌≤◌, ◌<◌, Option, none, some, add32, u32_mod, max, min, ◌≡◌, ◌∙◌, arith,
}
use old_ccv3_pp.Float.{Floats, FloatLaws}
use old_ccv3_pp.Any.Mode.{HitResultPriority, best_case, worst_case, clip}
use old_ccv3_pp.Any.Score.{OsuScoreOrigin}
use old_ccv3_pp.Any.Score.Accuracy.{max_slider_part}
use old_ccv3_pp.Osu.Search.{HitResults, shift, with_acc, without_acc}
use old_ccv3_pp.Osu.Search.Sums.{
  hits_of, shift-hits_of, search_n100-Sums, search_n300_n50-Sums, search_n300_n100-Sums,
  search_all-Sums,
}

-- The hit results that were given, as far as they fit.
abbrev pub given : Option ℕ → Option ℕ → Option ℕ → ℕ → HitResults
given o300 o100 o50 n_remaining =
    (clip o300 n_remaining, clip o100 n_remaining, clip o50 n_remaining)

-- The completed results make up the objects, unless more was claimed, and fit what misses leave.
abbrev pub Completed : ℕ → ℕ → Option ℕ → Option ℕ → Option ℕ → HitResults → Type 0
Completed n_objects misses o300 o100 o50 (n300, n100, n50) =
    (n300 + n100 + n50 + misses
      ≡ max n_objects (hits_of (given o300 o100 o50 (n_objects - misses)) + misses))
    × (n300 ≤ n_objects - misses)
    × (n100 ≤ n_objects - misses)
    × (n50 ≤ n_objects - misses)

module _ (n_objects misses : ℕ) (within : misses ≤ n_objects)
    (small : 300 * n_objects < u32_mod) where
  pub without_acc-Completed :
      (priority : HitResultPriority) (o300 o100 o50 : Option ℕ)
      → let (a, b, c) = given o300 o100 o50 (n_objects - misses) in
        Completed n_objects misses o300 o100 o50 (
          without_acc priority
            (n_objects - add32 (add32 (add32 a b) c) misses)
            o300
            o100
            o50
            (a, b, c))
  unfolding without_acc
  without_acc-Completed best_case none none none = omega arith
  without_acc-Completed best_case none none (some c) = omega arith
  without_acc-Completed best_case none (some b) none = omega arith
  without_acc-Completed best_case none (some b) (some c) = omega arith
  without_acc-Completed best_case (some a) none none = omega arith
  without_acc-Completed best_case (some a) none (some c) = omega arith
  without_acc-Completed best_case (some a) (some b) none = omega arith
  without_acc-Completed best_case (some a) (some b) (some c) = omega arith
  without_acc-Completed worst_case none none none = omega arith
  without_acc-Completed worst_case none none (some c) = omega arith
  without_acc-Completed worst_case none (some b) none = omega arith
  without_acc-Completed worst_case none (some b) (some c) = omega arith
  without_acc-Completed worst_case (some a) none none = omega arith
  without_acc-Completed worst_case (some a) none (some c) = omega arith
  without_acc-Completed worst_case (some a) (some b) none = omega arith
  without_acc-Completed worst_case (some a) (some b) (some c) = omega arith

  -- Results that make up the objects.
  abbrev pub Complete : HitResults → Type 0
  Complete (n300, n100, n50) =
      (n300 ≤ n_objects - misses)
      × (n100 ≤ n_objects - misses)
      × (n50 ≤ n_objects - misses)
      × (n_objects ≤ n300 + n100 + n50 + misses)

  pub without_acc_fixed :
      (priority : HitResultPriority) (a b c : ℕ)
      → Complete (a, b, c)
      → let n_remaining = n_objects - misses in
        without_acc priority
          (n_objects
            - add32
                (add32 (add32 (min a n_remaining) (min b n_remaining)) (min c n_remaining))
                misses)
          (some a)
          (some b)
          (some c)
          (given (some a) (some b) (some c) n_remaining)
        ≡ (a, b, c)
  unfolding without_acc
  without_acc_fixed best_case a b c (la, lb, lc, le) = ground arith
  without_acc_fixed worst_case a b c (la, lb, lc, le) = ground arith

module _ (f : Floats) (laws : FloatLaws f) (acc : f.F64) (origin : OsuScoreOrigin)
    (n_objects misses ends ticks : ℕ) (within : misses ≤ n_objects)
    (small : 300 * n_objects + max_slider_part f laws origin < u32_mod) (target_total : f.F64)
    (slider_acc_value : ℕ) where
  summed :
      (o300 o100 o50 : Option ℕ) (h : HitResults)
      → hits_of (given o300 o100 o50 (n_objects - misses)) + misses ≤ n_objects
      → hits_of h ≡ n_objects - misses
      → Completed n_objects misses o300 o100 o50 h
  summed o300 o100 o50 h le e = omega arith

  shifted :
      (priority : HitResultPriority) (h : HitResults)
      → hits_of h ≡ n_objects - misses
      → Completed n_objects misses none none none (shift priority h)
  shifted priority h e =
      summed none none none _ (omega arith) (shift-hits_of priority h (omega (arith, e)) ∙ e)

  pub with_acc-Completed :
      (priority : HitResultPriority) (o300 o100 o50 : Option ℕ)
      → laws.InUnit acc
      → Completed n_objects misses o300 o100 o50 (
          with_acc f acc origin misses ends ticks target_total slider_acc_value
            (n_objects - misses)
            priority
            n_objects
            o300
            o100
            o50
            (given o300 o100 o50 (n_objects - misses)))
  unfolding with_acc
  with_acc-Completed best_case (some a) (some b) (some c) u = omega arith
  with_acc-Completed worst_case (some a) (some b) (some c) u = omega arith
  with_acc-Completed best_case (some a) (some b) none u = omega arith
  with_acc-Completed worst_case (some a) (some b) none u = omega arith
  with_acc-Completed best_case (some a) none (some c) u = omega arith
  with_acc-Completed worst_case (some a) none (some c) u = omega arith
  with_acc-Completed best_case none (some b) (some c) u = omega arith
  with_acc-Completed worst_case none (some b) (some c) u = omega arith
  with_acc-Completed best_case (some a) none none u = summed (some a) none none _ (omega arith) (
      search_n100-Sums f laws acc u origin misses ends ticks (n_objects - misses) (omega arith)
        target_total slider_acc_value _)
  with_acc-Completed worst_case (some a) none none u = summed (some a) none none _ (omega arith) (
      search_n100-Sums f laws acc u origin misses ends ticks (n_objects - misses) (omega arith)
        target_total slider_acc_value _)
  with_acc-Completed best_case none (some b) none u = summed none (some b) none _ (omega arith) (
      search_n300_n50-Sums f laws acc u origin misses ends ticks (n_objects - misses) (omega arith)
        target_total slider_acc_value _)
  with_acc-Completed worst_case none (some b) none u = summed none (some b) none _ (omega arith) (
      search_n300_n50-Sums f laws acc u origin misses ends ticks (n_objects - misses) (omega arith)
        target_total slider_acc_value _)
  with_acc-Completed best_case none none (some c) u = summed none none (some c) _ (omega arith) (
      search_n300_n100-Sums f laws acc u origin misses ends ticks (n_objects - misses) (omega arith)
        target_total slider_acc_value _ _)
  with_acc-Completed worst_case none none (some c) u = summed none none (some c) _ (omega arith) (
      search_n300_n100-Sums f laws acc u origin misses ends ticks (n_objects - misses) (omega arith)
        target_total slider_acc_value _ _)
  with_acc-Completed best_case none none none u = shifted best_case _ (
      search_all-Sums f laws acc u origin misses ends ticks (n_objects - misses) (omega arith)
        target_total slider_acc_value _)
  with_acc-Completed worst_case none none none u = shifted worst_case _ (
      search_all-Sums f laws acc u origin misses ends ticks (n_objects - misses) (omega arith)
        target_total slider_acc_value _)

  pub with_acc_fixed :
      (priority : HitResultPriority) (a b c : ℕ)
      → Complete n_objects misses within (omega arith) (a, b, c)
      → with_acc f acc origin misses ends ticks target_total slider_acc_value
          (n_objects - misses)
          priority
          n_objects
          (some a)
          (some b)
          (some c)
          (given (some a) (some b) (some c) (n_objects - misses))
        ≡ (a, b, c)
  unfolding with_acc
  with_acc_fixed best_case a b c (la, lb, lc, le) = ground arith
  with_acc_fixed worst_case a b c (la, lb, lc, le) = ground arith
