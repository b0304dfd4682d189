-- ===== src/Taiko/Color/Repeats.antt =====
-- src/taiko/difficulty/color/preprocessor.rs, `encode_repeating_hit_patterns`: the loop takes every
-- pattern once and never meets a missing one.
use mathlib.Core.List.{append_assoc}
use mathlib.Core.Path.{subst}
use old_ccv3_pp.Base.{
  ℕ, zero, suc, ◌≤◌, Bool, true, false, some, List, [], ◌∷◌, ◌++◌, length, map, ◌≡◌, refl, sym, ap,
  ◌∙◌, length-append, arith,
}
use old_ccv3_pp.Base.Sort.{All, All-append}
use old_ccv3_pp.Taiko.Color.{
  MonoStreak, AlternatingMonoPattern, RepeatingHitPatterns, pattern_of, is_repetition_of,
  has_identical_mono_len, is_coupled, pop_coupled, drain_two, next_pattern, hit_patterns_from,
}
use old_ccv3_pp.Taiko.Color.Chunks.{concat, IsNonempty}

-- The pattern has a first streak.
abbrev pub IsFilled : AlternatingMonoPattern → Type 0
IsFilled p = IsNonempty p.mono_streaks

abbrev pub patterns : RepeatingHitPatterns → List AlternatingMonoPattern
patterns p = p.alternating_mono_patterns

-- Every pattern of the list stands in one of the results, in the same order, and none is empty.
abbrev pub IsPartition : List AlternatingMonoPattern → List RepeatingHitPatterns → Type 0
IsPartition data' ps = (concat (map patterns ps) ≡ data') × All IsNonempty (map patterns ps)

pub has_identical_mono_len-some :
    (p q : AlternatingMonoPattern)
    → IsFilled p
    → IsFilled q
    → (b : Bool) × (has_identical_mono_len p q ≡ some b)
unfolding has_identical_mono_len
has_identical_mono_len-some p q = go p.mono_streaks q.mono_streaks
  where
    go :
        (ss ts : List MonoStreak)
        → IsNonempty ss
        → IsNonempty ts
        → (b : Bool) × (has_identical_mono_len (pattern_of ss) (pattern_of ts) ≡ some b)
    go [] ts f g = absurd f
    go (s ∷ ss) [] f g = absurd g
    go (s ∷ ss) (t ∷ ts) f g = (_, refl)

is_repetition_of-some :
    (p q : AlternatingMonoPattern)
    → IsFilled p
    → IsFilled q
    → (b : Bool) × (is_repetition_of p q ≡ some b)
unfolding is_repetition_of
is_repetition_of-some p q = go p.mono_streaks q.mono_streaks
  where
    go :
        (ss ts : List MonoStreak)
        → IsNonempty ss
        → IsNonempty ts
        → (b : Bool) × (is_repetition_of (pattern_of ss) (pattern_of ts) ≡ some b)
    go [] ts f g = absurd f
    go (s ∷ ss) [] f g = absurd g
    go (s ∷ ss) (t ∷ ts) f g = (_, refl)

-- The test answers; where it says yes, there are three patterns.
is_coupled-some :
    (ps : List AlternatingMonoPattern)
    → All IsFilled ps
    → (b : Bool) × (is_coupled ps ≡ some b) × (b ≡ true → 3 ≤ length ps)
unfolding is_coupled
is_coupled-some [] h = (false, refl, λ e. ground (arith, e))
is_coupled-some (p ∷ []) h = (false, refl, λ e. ground (arith, e))
is_coupled-some (p ∷ q ∷ []) h = (false, refl, λ e. ground (arith, e))
is_coupled-some (p ∷ q ∷ r ∷ ps) h =
    let (b, e) = is_repetition_of-some p r h.0 h.1.1.0 in (b, e, λ e'. omega arith)

abbrev Popped : List AlternatingMonoPattern → Type 0
Popped ps =
    (taken : List AlternatingMonoPattern) × (left : List AlternatingMonoPattern) × (pop_coupled ps
      ≡ some (taken, left))
    × (taken ++ left ≡ ps)
    × (2 ≤ length ps → 2 ≤ length left)

pop_coupled-Popped : (ps : List AlternatingMonoPattern) → All IsFilled ps → Popped ps
unfolding pop_coupled
pop_coupled-Popped [] h = ([], [], refl, refl, λ l. l)
pop_coupled-Popped (p ∷ ps) h =
    let (b, e, three) = is_coupled-some (p ∷ ps) h in
    let (taken, left, e', c, l) = pop_coupled-Popped ps h.1 in go b e three taken left e' c l
  where
    go :
        (b : Bool)
        → is_coupled (p ∷ ps) ≡ some b
        → (b ≡ true → 3 ≤ length (p ∷ ps))
        → (taken left : List AlternatingMonoPattern) → pop_coupled ps ≡ some (taken, left)
        → taken ++ left ≡ ps
        → (2 ≤ length ps → 2 ≤ length left)
        → Popped (p ∷ ps)
    go false e three taken left e' c l = ([], p ∷ ps, rw (e, pop_coupled) refl, refl, λ l. l)
    go true e three taken left e' c l = (
      p ∷ taken,
      left,
      rw (e, e', pop_coupled) refl,
      ap (λ r. p ∷ r) c,
      λ l'. l (omega (arith, three refl)),
    )

abbrev Taken : AlternatingMonoPattern → List AlternatingMonoPattern → Type 0
Taken p ps =
    (taken : List AlternatingMonoPattern) × (left : List AlternatingMonoPattern) × (next_pattern p
        ps
      ≡ some (taken, left))
    × (taken ++ left ≡ p ∷ ps)
    × IsNonempty taken

-- After the coupled patterns two are left, which the pattern takes too.
drain_two-Taken :
    (p : AlternatingMonoPattern) (ps taken left : List AlternatingMonoPattern)
    → is_coupled (p ∷ ps) ≡ some true
    → pop_coupled (p ∷ ps) ≡ some (taken, left)
    → taken ++ left ≡ p ∷ ps
    → 2 ≤ length left
    → Taken p ps
unfolding next_pattern drain_two
drain_two-Taken p ps taken [] e e' c l = absurd (omega (arith, l))
drain_two-Taken p ps taken (q ∷ []) e e' c l = absurd (omega (arith, l))
drain_two-Taken p ps taken (q ∷ r ∷ left) e e' c l = (
  taken ++ (q ∷ r ∷ []),
  left,
  rw (e, e', next_pattern) refl,
  append_assoc taken (q ∷ r ∷ []) left ∙ c,
  nonempty taken,
)
  where
    nonempty : (t : List AlternatingMonoPattern) → IsNonempty (t ++ (q ∷ r ∷ []))
    nonempty [] = tt
    nonempty (x ∷ t) = tt

next_pattern-Taken :
    (p : AlternatingMonoPattern) (ps : List AlternatingMonoPattern)
    → All IsFilled (p ∷ ps)
    → Taken p ps
unfolding next_pattern
next_pattern-Taken p ps h =
    let (b, e, three) = is_coupled-some (p ∷ ps) h in
    let (taken, left, e', c, l) = pop_coupled-Popped (p ∷ ps) h in go b e three taken left e' c l
  where
    go :
        (b : Bool)
        → is_coupled (p ∷ ps) ≡ some b
        → (b ≡ true → 3 ≤ length (p ∷ ps))
        → (taken left : List AlternatingMonoPattern) → pop_coupled (p ∷ ps) ≡ some (taken, left)
        → taken ++ left ≡ p ∷ ps
        → (2 ≤ length (p ∷ ps) → 2 ≤ length left)
        → Taken p ps
    go false e three taken left e' c l = (p ∷ [], ps, rw (e, next_pattern) refl, refl, tt)
    go true e three taken left e' c l =
        drain_two-Taken p ps taken left e e' c (l (omega (arith, three refl)))

left-shorter :
    (p : AlternatingMonoPattern) (ps taken left : List AlternatingMonoPattern)
    → taken ++ left ≡ p ∷ ps
    → IsNonempty taken
    → length left ≤ length ps
left-shorter p ps [] left c n = absurd n
left-shorter p ps (t ∷ taken) left c n =
    let e : length ((t ∷ taken) ++ left) ≡ length (p ∷ ps) = ap length c in
    omega (arith, e, length-append taken left)

pub hit_patterns_from-IsPartition :
    (fuel : ℕ) (data' : List AlternatingMonoPattern)
    → All IsFilled data'
    → length data' ≤ fuel
    → (ps : List RepeatingHitPatterns) × (hit_patterns_from fuel data' ≡ some ps)
      × IsPartition data' ps
unfolding hit_patterns_from
hit_patterns_from-IsPartition fuel [] h l = ([], refl, (refl, tt))
hit_patterns_from-IsPartition zero (p ∷ ps) h l = absurd (omega (arith, l))
hit_patterns_from-IsPartition (suc fuel) (p ∷ ps) h l =
    let (taken, left, e, c, n) = next_pattern-Taken p ps h in
    let filled : All IsFilled (taken ++ left) = subst (λ qs. All IsFilled qs) (sym c) h in
    let shorter : length left ≤ fuel = omega (arith, l, left-shorter p ps taken left c n) in
    let (rs, e', (c', n')) =
      hit_patterns_from-IsPartition fuel left (All-append IsFilled taken left filled).1 shorter in
    (
      record { alternating_mono_patterns = taken; repetition_interval = 0 } ∷ rs,
      rw (e, e', hit_patterns_from) refl,
      (rw c' c, (n, n')),
    )
