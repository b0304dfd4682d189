-- ===== src/Mania/Completion/Completed.antt =====
-- The completed hit results of src/mania/performance/mod.rs make up the objects.
use old_ccv3_pp.Base.{
  ℕ, ◌+◌, ◌-◌, ◌*◌, ◌≤◌, ◌<◌, ◌≡◌, Option, none, some, add32, u32_mod, min, arith,
}
use old_ccv3_pp.Float.{Floats, FloatLaws}
use old_ccv3_pp.Any.Mode.{HitResultPriority, best_case, worst_case, clip}
use old_ccv3_pp.Mania.Search.{HitResults}
use old_ccv3_pp.Mania.Arms.Fits.{given, MakesUp, distribute-exact, distribute-capped, spread-capped}
use old_ccv3_pp.Mania.Arms.Single.{search_n200-Fits, search_n100-Fits, search_n50-Fits}
use old_ccv3_pp.Mania.Arms.Nested.{
  search_n100_n50-Fits, search_n200_n50-Fits, search_n200_n100-Fits, search_all-Fits,
}
use old_ccv3_pp.Mania.Arms.Ranges.{RangeLaws}
use old_ccv3_pp.Mania.Completion.{by_search, with_acc, without_acc}

-- What the hit results that were given claim.
abbrev pub claimed : Option ℕ → Option ℕ → Option ℕ → Option ℕ → Option ℕ → ℕ → ℕ
claimed o320 o300 o200 o100 o50 r =
    clip o320 r + clip o300 r + (clip o200 r + clip o100 r + clip o50 r)

-- Results that make up the objects, each within what the misses leave.
abbrev pub Complete : ℕ → ℕ → HitResults → Type 0
Complete n_objects misses (n320, n300, n200, n100, n50) =
    (n_objects ≤ n320 + n300 + n200 + n100 + n50 + misses)
    × (n320 ≤ n_objects - misses)
    × (n300 ≤ n_objects - misses)
    × (n200 ≤ n_objects - misses)
    × (n100 ≤ n_objects - misses)
    × (n50 ≤ n_objects - misses)

module _ (n_objects misses : ℕ) (within : misses ≤ n_objects)
    (small : 36 * n_objects < u32_mod) where
  pub without_acc-MakesUp :
      (priority : HitResultPriority) (o320 o300 o200 o100 o50 : Option ℕ)
      → let r = n_objects - misses in
        let g = given o320 o300 o200 o100 o50 r in
        let rest = add32 (add32 (add32 (add32 (add32 g.n320 g.n300) g.n200) g.n100) g.n50) misses in
        MakesUp n_objects misses
          (claimed o320 o300 o200 o100 o50 r)
          (without_acc priority (n_objects - rest) g o320 o300 o200 o100 o50)
  unfolding without_acc
  without_acc-MakesUp priority o320 o300 o200 o100 o50 = ground arith

  pub without_acc_fixed :
      (priority : HitResultPriority) (h : HitResults)
      → Complete n_objects misses h
      → let (a, b, c, d, e) = h in
        let r = n_objects - misses in
        let g = given (some a) (some b) (some c) (some d) (some e) r in
        let rest = add32 (add32 (add32 (add32 (add32 g.n320 g.n300) g.n200) g.n100) g.n50) misses in
        without_acc priority (n_objects - rest) g (some a) (some b) (some c) (some d) (some e) ≡ h
  unfolding without_acc
  without_acc_fixed best_case h p = ground arith
  without_acc_fixed worst_case h p = ground arith

module _ (f : Floats) (laws : FloatLaws f) (range_laws : RangeLaws f laws) (acc : f.F64)
    (unit : laws.InUnit acc) (n_objects misses : ℕ) (within : misses ≤ n_objects)
    (small : 36 * n_objects < u32_mod) where
  abbrev r : ℕ
  r = n_objects - misses

  abbrev Searched : HitResultPriority → (o320 o300 o200 o100 o50 : Option ℕ) → Type 0
  Searched priority o320 o300 o200 o100 o50 =
      MakesUp n_objects misses (claimed o320 o300 o200 o100 o50 r) (
        by_search f acc n_objects r misses (given o320 o300 o200 o100 o50 r) priority o320 o300 o200
          o100 o50)

  abbrev All : HitResultPriority → (o320 o300 o200 o100 o50 : Option ℕ) → Type 0
  All priority o320 o300 o200 o100 o50 =
      MakesUp n_objects misses (claimed o320 o300 o200 o100 o50 r) (
        with_acc f acc n_objects r misses (given o320 o300 o200 o100 o50 r) priority o320 o300 o200
          o100 o50)

  module _ (priority : HitResultPriority) (o320 o300 : Option ℕ) where
    Searched-n200 : (b c : ℕ) → Searched priority o320 o300 none (some b) (some c)
    unfolding by_search
    Searched-n200 b c = omega (
      arith,
      distribute-exact n_objects misses (min b r + min c r) within small priority o320 o300 _
          (search_n200-Fits f laws acc unit n_objects misses within small o320 o300 b c),
    )

    Searched-n100 : (b c : ℕ) → Searched priority o320 o300 (some b) none (some c)
    unfolding by_search
    Searched-n100 b c = omega (
      arith,
      distribute-exact n_objects misses (min b r + min c r) within small priority o320 o300 _
          (search_n100-Fits f laws acc unit n_objects misses within small o320 o300 b c),
    )

    Searched-n50 : (b c : ℕ) → Searched priority o320 o300 (some b) (some c) none
    unfolding by_search
    Searched-n50 b c = omega (
      arith,
      distribute-exact n_objects misses (min b r + min c r) within small priority o320 o300 _
          (search_n50-Fits f laws acc unit n_objects misses within small o320 o300 b c),
    )

    Searched-n100_n50 : (b : ℕ) → Searched priority o320 o300 (some b) none none
    unfolding by_search
    Searched-n100_n50 b = omega (
      arith,
      distribute-capped n_objects misses (min b r) within small priority o320 o300 _ (
          search_n100_n50-Fits f laws acc unit n_objects misses within small o320 o300 range_laws
            b),
    )

    Searched-n200_n50 : (b : ℕ) → Searched priority o320 o300 none (some b) none
    unfolding by_search
    Searched-n200_n50 b = omega (
      arith,
      distribute-capped n_objects misses (min b r) within small priority o320 o300 _ (
          search_n200_n50-Fits f laws acc unit n_objects misses within small o320 o300 range_laws
            b),
    )

    Searched-n200_n100 : (b : ℕ) → Searched priority o320 o300 none none (some b)
    unfolding by_search
    Searched-n200_n100 b =
        let (fits, free) =
          search_n200_n100-Fits f laws acc unit n_objects misses within small o320 o300 range_laws
            b in
        omega (
          arith,
          spread-capped n_objects misses (min b r) within small priority o320 o300 _ fits free,
        )

    Searched-all : Searched priority o320 o300 none none none
    unfolding by_search
    Searched-all =
        let (fits, free) =
          search_all-Fits f laws acc unit n_objects misses within small o320 o300 range_laws in
        omega (arith, spread-capped n_objects misses 0 within small priority o320 o300 _ fits free)

  -- Whatever was given, the branches with an accuracy make up the objects.
  pub with_acc-MakesUp :
      (priority : HitResultPriority) (o320 o300 o200 o100 o50 : Option ℕ)
      → All priority o320 o300 o200 o100 o50
  unfolding with_acc
  with_acc-MakesUp priority o320 o300 (some a) (some b) (some c) = ground arith
  with_acc-MakesUp priority o320 o300 none (some b) (some c) =
      ground (arith, Searched-n200 priority o320 o300 b c)
  with_acc-MakesUp priority o320 o300 (some b) none (some c) =
      ground (arith, Searched-n100 priority o320 o300 b c)
  with_acc-MakesUp priority o320 o300 (some b) (some c) none =
      ground (arith, Searched-n50 priority o320 o300 b c)
  with_acc-MakesUp priority o320 o300 (some b) none none =
      ground (arith, Searched-n100_n50 priority o320 o300 b)
  with_acc-MakesUp priority o320 o300 none (some b) none =
      ground (arith, Searched-n200_n50 priority o320 o300 b)
  with_acc-MakesUp priority o320 o300 none none (some b) =
      ground (arith, Searched-n200_n100 priority o320 o300 b)
  with_acc-MakesUp priority o320 o300 none none none =
      ground (arith, Searched-all priority o320 o300)

  -- Results that make up the objects are left as they are.
  pub with_acc_fixed :
      (priority : HitResultPriority) (h : HitResults)
      → Complete n_objects misses h
      → let (a, b, c, d, e) = h in
        with_acc f acc n_objects r misses
          (given (some a) (some b) (some c) (some d) (some e) r)
          priority
          (some a)
          (some b)
          (some c)
          (some d)
          (some e)
        ≡ h
  unfolding with_acc
  with_acc_fixed best_case h p = ground arith
  with_acc_fixed worst_case h p = ground arith
