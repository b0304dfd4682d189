-- ===== src/Mania/Search.antt =====
-- src/mania/performance/mod.rs: what the searches of `generate_state` share.
pub mod Rounds
use old_ccv3_pp.Base.{ℕ, ◌-◌, ◌/◌, Option, none, some, if◌then◌else◌, add32, sub32, mul32, min, max}
use old_ccv3_pp.Float.{Floats}
use old_ccv3_pp.Any.Mode.{HitResultPriority, best_case, worst_case}

-- `n3x0`, `n200`, `n100` and `n50`: the searches do not tell `n320` and `n300` apart.
abbrev pub Hits : Type 0
Hits = ℕ × ℕ × ℕ × ℕ

-- `n320`, `n300`, `n200`, `n100` and `n50`
abbrev pub HitResults : Type 0
HitResults = ℕ × ℕ × ℕ × ℕ × ℕ

-- `match (self.n320, self.n300)`: the bounds of the search respect what was given.
abbrev pub exact_range : Option ℕ → Option ℕ → ℕ → ℕ → ℕ → ℕ → ℕ × ℕ
exact_range (some _) (some _) n320 n300 lo hi = (add32 n320 n300, add32 n320 n300)
exact_range (some _) none n320 n300 lo hi = (max lo n320, max hi n320)
exact_range none (some _) n320 n300 lo hi = (max lo n300, max hi n300)
exact_range none none n320 n300 lo hi = (lo, hi)

-- The same in the searches with two loops or more, where two given counts are capped.
abbrev pub capped_range : ℕ → Option ℕ → Option ℕ → ℕ → ℕ → ℕ → ℕ → ℕ × ℕ
capped_range n_remaining (some _) (some _) n320 n300 lo hi =
    (min n_remaining (add32 n320 n300), min n_remaining (add32 n320 n300))
capped_range n_remaining (some _) none n320 n300 lo hi = (max lo n320, max hi n320)
capped_range n_remaining none (some _) n320 n300 lo hi = (max lo n300, max hi n300)
capped_range n_remaining none none n320 n300 lo hi = (lo, hi)

-- `match (self.n320, self.n300)` at the end of each search: `n3x0` becomes `n320` and `n300`.
abbrev pub distribute : HitResultPriority → Option ℕ → Option ℕ → ℕ → ℕ → Hits → HitResults
distribute best_case none none n320 n300 (n3x0, n200, n100, n50) = (n3x0, n300, n200, n100, n50)
distribute worst_case none none n320 n300 (n3x0, n200, n100, n50) = (n320, n3x0, n200, n100, n50)
distribute _ (some _) none n320 n300 (n3x0, n200, n100, n50) =
    (n320, sub32 n3x0 n320, n200, n100, n50)
distribute _ none (some _) n320 n300 (n3x0, n200, n100, n50) =
    (sub32 n3x0 n300, n300, n200, n100, n50)
distribute _ (some _) (some _) n320 n300 (n3x0, n200, n100, n50) = (n320, n300, n200, n100, n50)

-- Distribute n200 onto n320 and n100, if n320 was not given.
abbrev pub spread : HitResultPriority → Option ℕ → HitResults → HitResults
spread best_case none (n320, n300, n200, n100, n50) =
    let n = n200 / 2 in (add32 n320 n, n300, sub32 n200 (mul32 2 n), add32 n100 n, n50)
spread best_case (some _) h = h
spread worst_case _ h = h

module _ (f : Floats) where
  open f use {F64, sub, div, abs, lt, from_u32}

  -- the function `accuracy`, with no guard against a map of no objects
  unfoldable pub accuracy : ℕ → ℕ → ℕ → ℕ → ℕ → ℕ → F64
  accuracy n320 n300 n200 n100 n50 misses =
      let numerator =
        add32 (add32 (add32 (mul32 6 (add32 n320 n300)) (mul32 4 n200)) (mul32 2 n100)) n50 in
      let hits = add32 (add32 (add32 (add32 (add32 n320 n300) n200) n100) n50) misses in
      div (from_u32 numerator) (from_u32 (mul32 6 hits))

  -- the best distance so far, with its hits
  abbrev pub Best : Type 0
  Best = F64 × Hits

  -- The end of every round: the hits are kept if their accuracy comes closer to `acc`.
  unfoldable pub keep_closer : F64 → ℕ → Hits → Best → Best
  unfolding accuracy
  keep_closer acc misses (n3x0, n200, n100, n50) (best_dist, best) =
      let dist = abs (sub acc (accuracy n3x0 0 n200 n100 n50 misses)) in
      if lt dist best_dist then (dist, (n3x0, n200, n100, n50)) else (best_dist, best)
