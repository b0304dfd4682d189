-- ===== src/Osu/Search/Sums.antt =====
-- The hit results that the search of src/osu/performance/mod.rs ends with.
use old_ccv3_pp.Base.{ℕ, ◌+◌, ◌*◌, ◌≤◌, ◌<◌, sub32, u32_mod, min, ◌≡◌, arith, Bool-cases, inl, inr}
use old_ccv3_pp.Base.Loops.{for_inclusive_inv, for_inclusive_first}
use old_ccv3_pp.Float.{Floats, FloatLaws}
use old_ccv3_pp.Any.Mode.{HitResultPriority, best_case, worst_case}
use old_ccv3_pp.Any.Score.{OsuScoreOrigin, osu_accuracy, osu_fraction}
use old_ccv3_pp.Any.Score.Accuracy.{max_slider_part, osu_accuracy-InUnit}
use old_ccv3_pp.Osu.Search.{
  NoComboState, HitResults, shift, accuracy, Best, keep_closer, around, search_n100,
  search_n300_n50, search_n300_n100, try_n300, search_all,
}

-- The number of hit results
abbrev pub hits_of : HitResults → ℕ
hits_of (n300, n100, n50) = n300 + n100 + n50

pub shift-hits_of :
    (priority : HitResultPriority) (h : HitResults)
    → hits_of h < u32_mod
    → hits_of (shift priority h) ≡ hits_of h
unfolding shift
shift-hits_of best_case (n300, n100, n50) b = omega arith
shift-hits_of worst_case (n300, n100, n50) b = omega arith

module _ (f : Floats) (laws : FloatLaws f) where
  open f use {F64, abs, sub, lt, max_value, floor, ceil, to_u32}

  -- `NoComboState` has the accuracy of the full state.
  accuracy-InUnit :
      (s : NoComboState) (o : OsuScoreOrigin)
      → 300 * (s.n300 + s.n100 + s.n50 + s.misses) + max_slider_part f laws o < u32_mod
      → laws.InUnit (accuracy f s o)
  unfolding accuracy
  accuracy-InUnit s o h =
      unfold osu_accuracy osu_fraction in
      osu_accuracy-InUnit f laws
        (record {
          max_combo = 0;
          large_tick_hits = s.large_tick_hits;
          slider_end_hits = s.slider_end_hits;
          n300 = s.n300;
          n100 = s.n100;
          n50 = s.n50;
          misses = s.misses;
        })
        o h

  module _ (acc : F64) (unit : laws.InUnit acc) (origin : OsuScoreOrigin) (misses ends ticks : ℕ)
      (n_remaining : ℕ)
      (small : 300 * (n_remaining + misses) + max_slider_part f laws origin < u32_mod) where
    abbrev Sums : Best f → Type 0
    Sums (d, h) = hits_of h ≡ n_remaining

    keep_closer_keeps :
        (h : HitResults) (b : Best f)
        → hits_of h ≡ n_remaining
        → Sums b
        → Sums (keep_closer f acc origin misses ends ticks h b)
    unfolding keep_closer
    keep_closer_keeps (n300, n100, n50) (d, h) e s =
        elim (Bool-cases (
          lt
            (abs (
              sub acc (
                accuracy f
                  (record {
                    n300 = n300;
                    n100 = n100;
                    n50 = n50;
                    misses = misses;
                    large_tick_hits = ticks;
                    slider_end_hits = ends;
                  })
                  origin)))
            d)) [ inl q ↦ rw q e | inr q ↦ rw q s ]

    keep_closer_first :
        (h h₀ : HitResults)
        → hits_of h ≡ n_remaining
        → Sums (keep_closer f acc origin misses ends ticks h (max_value, h₀))
    unfolding keep_closer
    keep_closer_first (n300, n100, n50) h₀ e =
        let closer = laws.dist-lt-max_value acc _ unit (
          accuracy-InUnit
            (record {
              n300 = n300;
              n100 = n100;
              n50 = n50;
              misses = misses;
              large_tick_hits = ticks;
              slider_end_hits = ends;
            })
            origin (omega arith)) in
        rw closer e

    module _ (body : ℕ → Best f → Best f) (left : ℕ) (raw : F64)
        (keeps : (j : ℕ) (b : Best f) → j ≤ left → Sums b → Sums (body j b)) where
      around_keeps :
          (b : Best f) → Sums b → Sums (around f acc origin misses ends ticks left raw body b)
      unfolding around
      around_keeps b s =
          for_inclusive_inv Sums body _ _ b (λ j t lo hi q. keeps j t (omega arith) q)
            (omega (arith, laws.floor-le-ceil)) s

      around_first :
          (b : Best f)
          → ((j : ℕ) → j ≤ left → Sums (body j b))
          → Sums (around f acc origin misses ends ticks left raw body b)
      unfolding around
      around_first b first =
          for_inclusive_first Sums body _ _ b (λ j t lo hi q. keeps j t (omega arith) q)
            (omega (arith, laws.floor-le-ceil)) (first _ (omega arith))

    module _ (target_total : F64) (slider_acc_value : ℕ) where
      pub search_n100-Sums :
          (h : HitResults)
          → Sums (
              search_n100 f acc origin misses ends ticks target_total slider_acc_value n_remaining
                h)
      unfolding search_n100
      search_n100-Sums (n300, n100, n50) =
          around_first _ _ _
            (λ j b le s.
              keep_closer_keeps
                (min n300 n_remaining, j, sub32 (sub32 n_remaining (min n300 n_remaining)) j) b
                (omega arith) s)
            _
            (λ j le.
              keep_closer_first
                (min n300 n_remaining, j, sub32 (sub32 n_remaining (min n300 n_remaining)) j)
                (min n300 n_remaining, n100, n50) (omega arith))

      pub search_n300_n50-Sums :
          (h : HitResults)
          → Sums (
              search_n300_n50 f acc origin misses ends ticks target_total slider_acc_value
                n_remaining h)
      unfolding search_n300_n50
      search_n300_n50-Sums (n300, n100, n50) =
          around_first _ _ _
            (λ j b le s.
              keep_closer_keeps
                (j, min n100 n_remaining, sub32 (sub32 n_remaining (min n100 n_remaining)) j) b
                (omega arith) s)
            _
            (λ j le.
              keep_closer_first
                (j, min n100 n_remaining, sub32 (sub32 n_remaining (min n100 n_remaining)) j)
                (n300, min n100 n_remaining, n50) (omega arith))

      pub search_n300_n100-Sums :
          (n_objects : ℕ) (h : HitResults)
          → Sums (
              search_n300_n100 f acc origin misses ends ticks target_total slider_acc_value
                n_remaining n_objects h)
      unfolding search_n300_n100
      search_n300_n100-Sums n_objects (n300, n100, n50) =
          around_first _ _ _
            (λ j b le s.
              keep_closer_keeps
                (j, sub32 (sub32 n_remaining (min n50 n_remaining)) j, min n50 n_remaining) b
                (omega arith) s)
            _
            (λ j le.
              keep_closer_first
                (j, sub32 (sub32 n_remaining (min n50 n_remaining)) j, min n50 n_remaining)
                (n300, n100, min n50 n_remaining) (omega arith))

      try_n300_keeps :
          (j : ℕ) (b : Best f)
          → j ≤ n_remaining
          → Sums b
          → Sums (
              try_n300 f acc origin misses ends ticks target_total slider_acc_value n_remaining j b)
      unfolding try_n300
      try_n300_keeps j b le s =
          around_keeps _ _ _
            (λ k t kle q. keep_closer_keeps (j, k, sub32 (sub32 n_remaining j) k) t (omega arith) q)
            b s

      try_n300_first :
          (j : ℕ) (h : HitResults)
          → j ≤ n_remaining
          → Sums (
              try_n300 f acc origin misses ends ticks target_total slider_acc_value n_remaining j
                (max_value, h))
      unfolding try_n300
      try_n300_first j h le =
          around_first _ _ _
            (λ k t kle q. keep_closer_keeps (j, k, sub32 (sub32 n_remaining j) k) t (omega arith) q)
            _ (λ k kle. keep_closer_first (j, k, sub32 (sub32 n_remaining j) k) h (omega arith))

      pub search_all-Sums :
          (h : HitResults)
          → Sums (
              search_all f acc origin misses ends ticks target_total slider_acc_value n_remaining h)
      unfolding search_all
      search_all-Sums h =
          around_first _ _ _ (λ j b le s. try_n300_keeps j b le s) _ (λ j le. try_n300_first j h le)
