-- ===== src/Mania/Arms.antt =====
-- src/mania/performance/mod.rs: the arms of `generate_state` that search for hit results.
pub mod Fits
pub mod Single
pub mod Ranges
pub mod Nested
use old_ccv3_pp.Base.{ℕ, ◌-◌, Option, none, some, add32, sub32, mul32, min}
use old_ccv3_pp.Base.Loops.{for_inclusive}
use old_ccv3_pp.Float.{Floats}
use old_ccv3_pp.Mania.Search.{Hits, exact_range, capped_range, Best, keep_closer}

-- The counts that an arm starts from; those that were not given are 0.
pub record Given : Type 0 where
  pub o320 : Option ℕ
  pub o300 : Option ℕ
  pub n320 : ℕ
  pub n300 : ℕ
  pub n200 : ℕ
  pub n100 : ℕ
  pub n50 : ℕ

-- `-` is `saturating_sub`, and `sub32` the plain subtraction.
module _ (f : Floats) (acc : f.F64) (n_objects n_remaining misses : ℕ) (g : Given) where
  open f use {F64, add, sub, mul, div, floor, ceil, infinity, from_u32, to_u32, decimal}

  abbrev target_total : F64
  target_total = mul acc (from_u32 (mul32 6 n_objects))

  -- `for new in min(lo, top)..=min(hi, top)`
  abbrev within : ℕ → F64 → F64 → (ℕ → Best f → Best f) → Best f → Best f
  within top lo hi body best =
      for_inclusive (min (to_u32 (floor lo)) top) (min (to_u32 (ceil hi)) top) body best

  -- n100 and n50 given
  unfoldable pub search_n200 : Best f
  unfolding keep_closer
  search_n200 =
      let n3x0 = n_objects - add32 (add32 (add32 (add32 g.n320 g.n300) g.n100) g.n50) misses in
      let raw_n3x0 =
        div
          (add (sub target_total (from_u32 (mul32 4 n_remaining)))
            (from_u32 (add32 (mul32 2 g.n100) (mul32 3 g.n50))))
          (decimal 2 0) in
      let top = n_remaining - add32 g.n100 g.n50 in
      let (lo, hi) =
        exact_range g.o320 g.o300 g.n320 g.n300 (min (to_u32 (floor raw_n3x0)) top)
          (min (to_u32 (ceil raw_n3x0)) top) in
      for_inclusive lo hi
        (λ new3x0.
          keep_closer f acc misses
            (new3x0, n_remaining - add32 (add32 new3x0 g.n100) g.n50, g.n100, g.n50))
        (infinity, (n3x0, g.n200, g.n100, g.n50))

  -- n200 and n50 given
  unfoldable pub search_n100 : Best f
  unfolding keep_closer
  search_n100 =
      let n3x0 = n_objects - add32 (add32 (add32 (add32 g.n320 g.n300) g.n200) g.n50) misses in
      let raw_n3x0 =
        div (sub target_total (from_u32 (sub32 (mul32 2 (add32 n_remaining g.n200)) g.n50)))
          (decimal 4 0) in
      let top = n_remaining - add32 g.n200 g.n50 in
      let (lo, hi) =
        exact_range g.o320 g.o300 g.n320 g.n300 (min (to_u32 (floor raw_n3x0)) top)
          (min (to_u32 (ceil raw_n3x0)) top) in
      for_inclusive lo hi
        (λ new3x0.
          keep_closer f acc misses
            (new3x0, g.n200, n_remaining - add32 (add32 new3x0 g.n200) g.n50, g.n50))
        (infinity, (n3x0, g.n200, g.n100, g.n50))

  -- n200 and n100 given
  unfoldable pub search_n50 : Best f
  unfolding keep_closer
  search_n50 =
      let n3x0 = n_objects - add32 (add32 (add32 (add32 g.n320 g.n300) g.n200) g.n100) misses in
      let raw_n3x0 =
        div (sub target_total (from_u32 (add32 (add32 n_remaining (mul32 3 g.n200)) g.n100)))
          (decimal 5 0) in
      let top = n_remaining - add32 g.n200 g.n100 in
      let (lo, hi) =
        exact_range g.o320 g.o300 g.n320 g.n300 (min (to_u32 (floor raw_n3x0)) top)
          (min (to_u32 (ceil raw_n3x0)) top) in
      for_inclusive lo hi
        (λ new3x0.
          keep_closer f acc misses
            (new3x0, g.n200, g.n100, n_remaining - add32 (add32 new3x0 g.n200) g.n100))
        (infinity, (n3x0, g.n200, g.n100, g.n50))

  -- The inner loop of the search with n200 given.
  unfoldable pub try_n100_n50 : ℕ → Best f → Best f
  unfolding keep_closer
  try_n100_n50 new3x0 best =
      let raw_n100 =
        sub target_total (from_u32 (add32 (add32 n_remaining (mul32 5 new3x0)) (mul32 3 g.n200))) in
      within (n_remaining - add32 new3x0 g.n200) raw_n100 raw_n100
        (λ new100.
          keep_closer f acc misses
            (new3x0, g.n200, new100, n_remaining - add32 (add32 new3x0 g.n200) new100))
        best

  -- n200 given
  unfoldable pub search_n100_n50 : Best f
  unfolding try_n100_n50
  search_n100_n50 =
      let n3x0 = n_objects - add32 (add32 (add32 g.n320 g.n300) g.n200) misses in
      let top = sub32 n_remaining g.n200 in
      let raw_min =
        div (sub target_total (from_u32 (mul32 2 (add32 n_remaining g.n200)))) (decimal 4 0) in
      let raw_max =
        div (sub target_total (from_u32 (add32 n_remaining (mul32 3 g.n200)))) (decimal 5 0) in
      let (lo, hi) =
        capped_range n_remaining g.o320 g.o300 g.n320 g.n300 (min (to_u32 (floor raw_min)) top)
          (min (to_u32 (ceil raw_max)) top) in
      for_inclusive lo hi try_n100_n50 (infinity, (n3x0, g.n200, g.n100, g.n50))

  -- The inner loop of the search with n100 given.
  unfoldable pub try_n200_n50 : ℕ → Best f → Best f
  unfolding keep_closer
  try_n200_n50 new3x0 best =
      let raw_n200 =
        div (sub target_total (from_u32 (add32 (add32 n_remaining (mul32 5 new3x0)) g.n100)))
          (decimal 3 0) in
      within (n_remaining - add32 new3x0 g.n100) raw_n200 raw_n200
        (λ new200.
          keep_closer f acc misses
            (new3x0, new200, g.n100, n_remaining - add32 (add32 new3x0 new200) g.n100))
        best

  -- n100 given
  unfoldable pub search_n200_n50 : Best f
  unfolding try_n200_n50
  search_n200_n50 =
      let n3x0 = n_objects - add32 (add32 (add32 g.n320 g.n300) g.n100) misses in
      let top = sub32 n_remaining g.n100 in
      let raw_min =
        sub (mul acc (from_u32 (mul32 3 n_remaining)))
          (from_u32 (sub32 (mul32 2 n_remaining) g.n100)) in
      let raw_max = div (sub target_total (from_u32 (add32 n_remaining g.n100))) (decimal 5 0) in
      let (lo, hi) =
        capped_range n_remaining g.o320 g.o300 g.n320 g.n300 (min (to_u32 (floor raw_min)) top)
          (min (to_u32 (ceil raw_max)) top) in
      for_inclusive lo hi try_n200_n50 (infinity, (n3x0, g.n200, g.n100, g.n50))

  -- The inner loop of the search with n50 given.
  unfoldable pub try_n200_n100 : ℕ → Best f → Best f
  unfolding keep_closer
  try_n200_n100 new3x0 best =
      let raw_n200 =
        div
          (add (sub target_total (from_u32 (add32 (mul32 2 n_remaining) (mul32 4 new3x0))))
            (from_u32 g.n50))
          (decimal 2 0) in
      within (n_remaining - add32 new3x0 g.n50) raw_n200 raw_n200
        (λ new200.
          keep_closer f acc misses
            (new3x0, new200, n_remaining - add32 (add32 new3x0 new200) g.n50, g.n50))
        best

  -- n50 given
  unfoldable pub search_n200_n100 : Best f
  unfolding try_n200_n100
  search_n200_n100 =
      let n3x0 = n_objects - add32 (add32 (add32 g.n320 g.n300) g.n50) misses in
      let top = sub32 n_remaining g.n50 in
      let raw_min =
        div (sub target_total (from_u32 (sub32 (mul32 4 n_remaining) (mul32 3 g.n50))))
          (decimal 2 0) in
      let raw_max =
        div (sub target_total (from_u32 (sub32 (mul32 2 n_remaining) g.n50))) (decimal 4 0) in
      let (lo, hi) =
        capped_range n_remaining g.o320 g.o300 g.n320 g.n300 (min (to_u32 (floor raw_min)) top)
          (min (to_u32 (ceil raw_max)) top) in
      for_inclusive lo hi try_n200_n100 (infinity, (n3x0, g.n200, g.n100, g.n50))

  -- The innermost loop of the search with none of the three given.
  unfoldable pub try_n100_of_all : ℕ → ℕ → Best f → Best f
  unfolding keep_closer
  try_n100_of_all new3x0 new200 best =
      let raw_n100 =
        sub target_total (from_u32 (add32 (add32 n_remaining (mul32 5 new3x0)) (mul32 3 new200))) in
      within (sub32 n_remaining (add32 new3x0 new200)) raw_n100 raw_n100
        (λ new100.
          keep_closer f acc misses
            (new3x0, new200, new100, sub32 (sub32 (sub32 n_remaining new3x0) new200) new100))
        best

  -- Its middle loop.
  unfoldable pub try_n200_of_all : ℕ → Best f → Best f
  unfolding try_n100_of_all
  try_n200_of_all new3x0 best =
      let raw_min =
        sub (mul acc (from_u32 (mul32 3 n_objects)))
          (from_u32 (add32 n_remaining (mul32 2 new3x0))) in
      let raw_max =
        div (sub target_total (from_u32 (add32 n_remaining (mul32 5 new3x0)))) (decimal 3 0) in
      within (sub32 n_remaining new3x0) raw_min raw_max (try_n100_of_all new3x0) best

  -- Neither n200, n100, nor n50 given
  unfoldable pub search_all : Best f
  unfolding try_n200_of_all
  search_all =
      let n3x0 = n_objects - add32 (add32 (add32 (add32 g.n320 g.n300) g.n200) g.n100) misses in
      let raw_min = div (sub target_total (from_u32 (mul32 4 n_remaining))) (decimal 5 0) in
      let raw_max =
        f.min (div (sub target_total (from_u32 n_remaining)) (decimal 5 0))
          (sub (mul acc (from_u32 (mul32 3 n_objects))) (from_u32 n_remaining)) in
      let (lo, hi) =
        capped_range n_remaining g.o320 g.o300 g.n320 g.n300
          (min (to_u32 (floor raw_min)) n_remaining) (min (to_u32 (ceil raw_max)) n_remaining) in
      for_inclusive lo hi try_n200_of_all (infinity, (n3x0, g.n200, g.n100, g.n50))
