-- ===== src/Mania/Arms/Fits.antt =====
-- What the searches of src/mania/performance/mod.rs end with, and what it makes of the hit results.
use old_ccv3_pp.Base.{ℕ, ◌+◌, ◌-◌, ◌*◌, ◌≤◌, ◌<◌, Option, none, some, ◌≡◌, u32_mod, min, max, arith}
use old_ccv3_pp.Any.Mode.{HitResultPriority, best_case, worst_case, clip}
use old_ccv3_pp.Mania.Search.{Hits, HitResults, exact_range, capped_range, distribute, spread}
use old_ccv3_pp.Mania.Arms.{Given}

-- The hit results that were given, as far as they fit.
abbrev pub given : Option ℕ → Option ℕ → Option ℕ → Option ℕ → Option ℕ → ℕ → Given
given o320 o300 o200 o100 o50 n_remaining = record {
  o320 = o320;
  o300 = o300;
  n320 = clip o320 n_remaining;
  n300 = clip o300 n_remaining;
  n200 = clip o200 n_remaining;
  n100 = clip o100 n_remaining;
  n50 = clip o50 n_remaining;
}

-- The least `n3x0` that holds what was given.
abbrev pub exact_base : Option ℕ → Option ℕ → ℕ → ℕ
exact_base o320 o300 r = clip o320 r + clip o300 r

abbrev pub capped_base : Option ℕ → Option ℕ → ℕ → ℕ
capped_base (some a) (some b) r = min r (min a r + min b r)
capped_base (some a) none r = min a r
capped_base none (some b) r = min b r
capped_base none none r = 0

-- The largest `n3x0`, if the other results that were given leave `top`.
abbrev pub cap_of : Option ℕ → Option ℕ → ℕ → ℕ → ℕ
cap_of (some _) (some _) base top = base
cap_of (some _) none base top = max top base
cap_of none (some _) base top = max top base
cap_of none none base top = top

pub cap_of-le : (o320 o300 : Option ℕ) (base top : ℕ) → cap_of o320 o300 base top ≤ max top base
cap_of-le (some _) (some _) base top = omega arith
cap_of-le (some _) none base top = omega arith
cap_of-le none (some _) base top = omega arith
cap_of-le none none base top = omega arith

-- `n3x0` is in its range, and the other results fill up what it leaves beside `fixed`, what was given
-- of them.
abbrev pub Fits : ℕ → ℕ → ℕ → ℕ → Hits → Type 0
Fits r base cap fixed (n3x0, n200, n100, n50) =
    (base ≤ n3x0)
    × (n3x0 ≤ cap)
    × (n200 + n100 + n50 ≡ fixed + (r - (n3x0 + fixed)))
    × (n200 ≤ r)
    × (n100 ≤ r)
    × (n50 ≤ r)

-- n200 and n100 together are within what `n3x0` leaves.
abbrev pub Free : ℕ → ℕ → Hits → Type 0
Free r fixed (n3x0, n200, n100, n50) = n200 + n100 ≤ r - (n3x0 + fixed)

-- The range of a search, from the bounds `lo` and `hi` that the accuracy gives.
pub exact_range-within :
    (o320 o300 : Option ℕ) (r lo hi top : ℕ)
    → lo ≤ hi
    → hi ≤ top
    → 2 * r < u32_mod
    → let (lo', hi') = exact_range o320 o300 (clip o320 r) (clip o300 r) lo hi in
      let base = exact_base o320 o300 r in
      (base ≤ lo') × (lo' ≤ hi') × (hi' ≤ cap_of o320 o300 base top)
exact_range-within (some a) (some b) r lo hi top h t s = omega arith
exact_range-within (some a) none r lo hi top h t s = omega arith
exact_range-within none (some b) r lo hi top h t s = omega arith
exact_range-within none none r lo hi top h t s = omega arith

pub capped_range-within :
    (o320 o300 : Option ℕ) (r lo hi top : ℕ)
    → lo ≤ hi
    → hi ≤ top
    → 2 * r < u32_mod
    → let (lo', hi') = capped_range r o320 o300 (clip o320 r) (clip o300 r) lo hi in
      let base = capped_base o320 o300 r in
      (base ≤ lo') × (lo' ≤ hi') × (hi' ≤ cap_of o320 o300 base top)
capped_range-within (some a) (some b) r lo hi top h t s = omega arith
capped_range-within (some a) none r lo hi top h t s = omega arith
capped_range-within none (some b) r lo hi top h t s = omega arith
capped_range-within none none r lo hi top h t s = omega arith

pub capped_base_le : (o320 o300 : Option ℕ) (r : ℕ) → capped_base o320 o300 r ≤ r
capped_base_le (some a) (some b) r = omega arith
capped_base_le (some a) none r = omega arith
capped_base_le none (some b) r = omega arith
capped_base_le none none r = omega arith

-- The results make up the objects, unless more was claimed, and each fits what the misses leave.
abbrev pub MakesUp : ℕ → ℕ → ℕ → HitResults → Type 0
MakesUp n_objects misses claimed (n320, n300, n200, n100, n50) =
    (n320 + n300 + n200 + n100 + n50 + misses ≡ max n_objects (claimed + misses))
    × (n320 ≤ n_objects - misses)
    × (n300 ≤ n_objects - misses)
    × (n200 ≤ n_objects - misses)
    × (n100 ≤ n_objects - misses)
    × (n50 ≤ n_objects - misses)

module _ (n_objects misses fixed : ℕ) (within : misses ≤ n_objects)
    (small : 36 * n_objects < u32_mod) where
  pub distribute-exact :
      (priority : HitResultPriority) (o320 o300 : Option ℕ) (h : Hits)
      → let r = n_objects - misses in
        let base = exact_base o320 o300 r in
        Fits r base (cap_of o320 o300 base (r - fixed)) fixed h
        → MakesUp n_objects misses
            (clip o320 r + clip o300 r + fixed)
            (distribute priority o320 o300 (clip o320 r) (clip o300 r) h)
  distribute-exact best_case (some a) (some b) h p = omega arith
  distribute-exact best_case (some a) none h p = omega arith
  distribute-exact best_case none (some b) h p = omega arith
  distribute-exact best_case none none h p = omega arith
  distribute-exact worst_case (some a) (some b) h p = omega arith
  distribute-exact worst_case (some a) none h p = omega arith
  distribute-exact worst_case none (some b) h p = omega arith
  distribute-exact worst_case none none h p = omega arith

  pub distribute-capped :
      (priority : HitResultPriority) (o320 o300 : Option ℕ) (h : Hits)
      → let r = n_objects - misses in
        let base = capped_base o320 o300 r in
        Fits r base (cap_of o320 o300 base (r - fixed)) fixed h
        → MakesUp n_objects misses
            (clip o320 r + clip o300 r + fixed)
            (distribute priority o320 o300 (clip o320 r) (clip o300 r) h)
  distribute-capped best_case (some a) (some b) h p = omega arith
  distribute-capped best_case (some a) none h p = omega arith
  distribute-capped best_case none (some b) h p = omega arith
  distribute-capped best_case none none h p = omega arith
  distribute-capped worst_case (some a) (some b) h p = omega arith
  distribute-capped worst_case (some a) none h p = omega arith
  distribute-capped worst_case none (some b) h p = omega arith
  distribute-capped worst_case none none h p = omega arith

  pub spread-capped :
      (priority : HitResultPriority) (o320 o300 : Option ℕ) (h : Hits)
      → let r = n_objects - misses in
        let base = capped_base o320 o300 r in
        Fits r base (cap_of o320 o300 base (r - fixed)) fixed h
        → Free (n_objects - misses) fixed h
        → MakesUp n_objects misses
            (clip o320 r + clip o300 r + fixed)
            (spread priority o320 (distribute priority o320 o300 (clip o320 r) (clip o300 r) h))
  spread-capped best_case (some a) (some b) h p q = omega arith
  spread-capped best_case (some a) none h p q = omega arith
  spread-capped best_case none (some b) h p q = omega arith
  spread-capped best_case none none h p q = omega arith
  spread-capped worst_case (some a) (some b) h p q = omega arith
  spread-capped worst_case (some a) none h p q = omega arith
  spread-capped worst_case none (some b) h p q = omega arith
  spread-capped worst_case none none h p q = omega arith
