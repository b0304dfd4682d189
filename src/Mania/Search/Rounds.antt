-- ===== src/Mania/Search/Rounds.antt =====
-- What the rounds of a search of src/mania/performance/mod.rs keep, for any predicate on the hits.
use old_ccv3_pp.Base.{ℕ, ◌+◌, ◌*◌, ◌≤◌, ◌<◌, ◌⊎◌, inl, inr, u32_mod, Bool-cases, arith}
use old_ccv3_pp.Base.Loops.{for_inclusive, for_inclusive_keeps, for_inclusive_first}
use old_ccv3_pp.Float.{Floats, FloatLaws}
use old_ccv3_pp.Mania.Search.{Hits, accuracy, Best, keep_closer}

abbrev pub hits_of : Hits → ℕ
hits_of (n3x0, n200, n100, n50) = n3x0 + n200 + n100 + n50

module _ (f : Floats) (laws : FloatLaws f) where
  open f use {F64, abs, sub, lt, infinity, from_u32}

  -- The accuracy of some hits lies between 0 and 1, if six times their number fits a `u32`.
  pub accuracy-InUnit :
      (n3x0 n200 n100 n50 misses : ℕ)
      → 0 < n3x0 + n200 + n100 + n50 + misses
      → 6 * (n3x0 + n200 + n100 + n50 + misses) < u32_mod
      → laws.InUnit (accuracy f n3x0 0 n200 n100 n50 misses)
  unfolding accuracy
  accuracy-InUnit n3x0 n200 n100 n50 misses p h =
      laws.div-InUnit _ _ (omega arith) (omega arith) (omega arith)

  module _ (acc : F64) (unit : laws.InUnit acc) (misses : ℕ) (P : Hits → Type 0) where
    pub keep_closer_keeps :
        (h : Hits) (b : Best f) → P h → P b.1 → P (keep_closer f acc misses h b).1
    unfolding keep_closer
    keep_closer_keeps (n3x0, n200, n100, n50) (d, best) p q =
        elim (Bool-cases (lt (abs (sub acc (accuracy f n3x0 0 n200 n100 n50 misses))) d)) [
          | inl e ↦ rw e p
          | inr e ↦ rw e q
        ]

    pub keep_closer_first :
        (h h₀ : Hits)
        → 0 < hits_of h + misses
        → 6 * (hits_of h + misses) < u32_mod
        → P h
        → P (keep_closer f acc misses h (infinity, h₀)).1
    unfolding keep_closer
    keep_closer_first (n3x0, n200, n100, n50) h₀ p b q =
        let closer =
          laws.dist-lt-infinity acc _ unit (accuracy-InUnit n3x0 n200 n100 n50 misses p b) in
        rw closer q

    -- A search whose rounds all give `P`: either it starts with `P`, or it runs, and its first round
    -- replaces what it starts with.
    pub search-P :
        (body : ℕ → Best f → Best f) (lo hi : ℕ) (h₀ : Hits)
        → ((j : ℕ) (b : Best f) → lo ≤ j → j ≤ hi → P b.1 → P (body j b).1)
        → P h₀ ⊎ ((lo ≤ hi) × P (body lo (infinity, h₀)).1)
        → P (for_inclusive lo hi body (infinity, h₀)).1
    search-P body lo hi h₀ keeps (inl start) =
        for_inclusive_keeps (λ (b : Best f). P b.1) body lo hi (infinity, h₀) keeps start
    search-P body lo hi h₀ keeps (inr (le, first)) =
        for_inclusive_first (λ (b : Best f). P b.1) body lo hi (infinity, h₀) keeps le first
