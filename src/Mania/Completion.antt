-- ===== src/Mania/Completion.antt =====
-- src/mania/performance/mod.rs: the `match` of `generate_state` on what was given.

pub mod Completed
use old_ccv3_pp.Base.{ℕ, ◌-◌, Option, none, some, add32}
use old_ccv3_pp.Float.{Floats}
use old_ccv3_pp.Any.Mode.{HitResultPriority, best_case, worst_case}
use old_ccv3_pp.Mania.Search.{HitResults, distribute, spread}
use old_ccv3_pp.Mania.Arms.{
  Given, search_n200, search_n100, search_n50, search_n100_n50, search_n200_n50, search_n200_n100,
  search_all,
}

-- The branches with an accuracy; `-` is `saturating_sub`.
module _ (f : Floats) (acc : f.F64) (n_objects n_remaining misses : ℕ) (g : Given) where
  -- The arms that search, by which of n200, n100 and n50 were given.
  unfoldable pub by_search :
      HitResultPriority → Option ℕ → Option ℕ → Option ℕ → Option ℕ → Option ℕ → HitResults
  -- all three given: not reached
  by_search priority o320 o300 (some _) (some _) (some _) = (g.n320, g.n300, g.n200, g.n100, g.n50)
  -- n100 and n50 given
  by_search priority o320 o300 none (some _) (some _) =
      distribute priority o320 o300 g.n320 g.n300
        (search_n200 f acc n_objects n_remaining misses g).1
  -- n200 and n50 given
  by_search priority o320 o300 (some _) none (some _) =
      distribute priority o320 o300 g.n320 g.n300
        (search_n100 f acc n_objects n_remaining misses g).1
  -- n200 and n100 given
  by_search priority o320 o300 (some _) (some _) none =
      distribute priority o320 o300 g.n320 g.n300
        (search_n50 f acc n_objects n_remaining misses g).1
  -- n200 given
  by_search priority o320 o300 (some _) none none =
      distribute priority o320 o300 g.n320 g.n300
        (search_n100_n50 f acc n_objects n_remaining misses g).1
  -- n100 given
  by_search priority o320 o300 none (some _) none =
      distribute priority o320 o300 g.n320 g.n300
        (search_n200_n50 f acc n_objects n_remaining misses g).1
  -- n50 given
  by_search priority o320 o300 none none (some _) = spread priority o320 (
      distribute priority o320 o300 g.n320 g.n300
        (search_n200_n100 f acc n_objects n_remaining misses g).1)
  -- Neither n200, n100, nor n50 given
  by_search priority o320 o300 none none none = spread priority o320 (
      distribute priority o320 o300 g.n320 g.n300
        (search_all f acc n_objects n_remaining misses g).1)

  unfoldable pub with_acc :
      HitResultPriority → Option ℕ → Option ℕ → Option ℕ → Option ℕ → Option ℕ → HitResults
  -- All hitresults given
  with_acc best_case (some _) (some _) (some _) (some _) (some _) =
      let remaining =
        n_objects
        - add32 (add32 (add32 (add32 (add32 g.n320 g.n300) g.n200) g.n100) g.n50) misses in
      (add32 g.n320 remaining, g.n300, g.n200, g.n100, g.n50)
  with_acc worst_case (some _) (some _) (some _) (some _) (some _) =
      let remaining =
        n_objects
        - add32 (add32 (add32 (add32 (add32 g.n320 g.n300) g.n200) g.n100) g.n50) misses in
      (g.n320, g.n300, g.n200, g.n100, add32 g.n50 remaining)
  -- All but one hitresults given
  with_acc _ none (some _) (some _) (some _) (some _) =
      let rest = add32 (add32 (add32 (add32 g.n300 g.n200) g.n100) g.n50) misses in
      (n_objects - rest, g.n300, g.n200, g.n100, g.n50)
  with_acc _ (some _) none (some _) (some _) (some _) =
      let rest = add32 (add32 (add32 (add32 g.n320 g.n200) g.n100) g.n50) misses in
      (g.n320, n_objects - rest, g.n200, g.n100, g.n50)
  with_acc _ (some _) (some _) none (some _) (some _) =
      let rest = add32 (add32 (add32 (add32 g.n320 g.n300) g.n100) g.n50) misses in
      (g.n320, g.n300, n_objects - rest, g.n100, g.n50)
  with_acc _ (some _) (some _) (some _) none (some _) =
      let rest = add32 (add32 (add32 (add32 g.n320 g.n300) g.n200) g.n50) misses in
      (g.n320, g.n300, g.n200, n_objects - rest, g.n50)
  with_acc _ (some _) (some _) (some _) (some _) none =
      let rest = add32 (add32 (add32 (add32 g.n320 g.n300) g.n200) g.n100) misses in
      (g.n320, g.n300, g.n200, g.n100, n_objects - rest)
  -- n200, n100, and n50 given
  with_acc best_case none none (some _) (some _) (some _) =
      let rest = add32 (add32 (add32 (add32 (add32 g.n320 g.n300) g.n200) g.n100) g.n50) misses in
      (n_objects - rest, g.n300, g.n200, g.n100, g.n50)
  with_acc worst_case none none (some _) (some _) (some _) =
      let rest = add32 (add32 (add32 (add32 (add32 g.n320 g.n300) g.n200) g.n100) g.n50) misses in
      (g.n320, n_objects - rest, g.n200, g.n100, g.n50)
  -- the arms below
  with_acc priority o320 o300 o200 o100 o50 = by_search priority o320 o300 o200 o100 o50

-- The branches with no accuracy: what remains goes to the first result that was not given.
unfoldable pub without_acc :
    HitResultPriority
    → ℕ
    → Given
    → Option ℕ
    → Option ℕ
    → Option ℕ
    → Option ℕ
    → Option ℕ
    → HitResults
without_acc best_case remaining g none _ _ _ _ = (remaining, g.n300, g.n200, g.n100, g.n50)
without_acc best_case remaining g (some _) none _ _ _ = (g.n320, remaining, g.n200, g.n100, g.n50)
without_acc best_case remaining g (some _) (some _) none _ _ =
    (g.n320, g.n300, remaining, g.n100, g.n50)
without_acc best_case remaining g (some _) (some _) (some _) none _ =
    (g.n320, g.n300, g.n200, remaining, g.n50)
without_acc best_case remaining g (some _) (some _) (some _) (some _) none =
    (g.n320, g.n300, g.n200, g.n100, remaining)
without_acc best_case remaining g (some _) (some _) (some _) (some _) (some _) =
    (add32 g.n320 remaining, g.n300, g.n200, g.n100, g.n50)
without_acc worst_case remaining g _ _ _ _ none = (g.n320, g.n300, g.n200, g.n100, remaining)
without_acc worst_case remaining g _ _ _ none (some _) = (g.n320, g.n300, g.n200, remaining, g.n50)
without_acc worst_case remaining g _ _ none (some _) (some _) =
    (g.n320, g.n300, remaining, g.n100, g.n50)
without_acc worst_case remaining g _ none (some _) (some _) (some _) =
    (g.n320, remaining, g.n200, g.n100, g.n50)
without_acc worst_case remaining g none (some _) (some _) (some _) (some _) =
    (remaining, g.n300, g.n200, g.n100, g.n50)
without_acc worst_case remaining g (some _) (some _) (some _) (some _) (some _) =
    (g.n320, g.n300, g.n200, g.n100, add32 g.n50 remaining)
