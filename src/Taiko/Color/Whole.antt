-- ===== src/Taiko/Color/Whole.antt =====
-- src/taiko/difficulty/color/preprocessor.rs, `encode`: from the objects of a map to repeating patterns
-- of patterns of streaks.
use mathlib.Core.Path.{subst}
use old_ccv3_pp.Base.{
  ℕ, suc, ◌≤◌, Option, none, some, List, [], ◌∷◌, length, map, ◌≡◌, refl, sym, ap, ◌∙◌,
  length-append, arith,
}
use old_ccv3_pp.Base.Sort.{All, All-append}
use old_ccv3_pp.Taiko.Objects.{TaikoDifficultyObject, TaikoDifficultyObjects}
use old_ccv3_pp.Taiko.Color.{
  MonoStreak, AlternatingMonoPattern, RepeatingHitPatterns, streak_of, pattern_of,
  encode_mono_streaks, encode_alternating_mono_pattern, assign_intervals,
  encode_repeating_hit_patterns, encode,
}
use old_ccv3_pp.Taiko.Color.Chunks.{concat, IsNonempty}
use old_ccv3_pp.Taiko.Color.Encode.{
  encode_mono_streaks-IsChunking, encode_alternating_mono_pattern-IsChunking,
}
use old_ccv3_pp.Taiko.Color.Repeats.{IsFilled, patterns, IsPartition, hit_patterns_from-IsPartition}
use old_ccv3_pp.Taiko.Color.Intervals.{
  IsFull, Nearest, interval_of, find_repetition_interval-Nearest,
}

-- An interval below 16, or the mark for no repetition.
abbrev pub IsInterval : ℕ → Type 0
IsInterval n = (1 ≤ n) × (n ≤ 17) × (n ≡ 16 → ⊥)

abbrev HasInterval : RepeatingHitPatterns → Type 0
HasInterval p = IsInterval p.repetition_interval

interval_of-IsInterval :
    (p : RepeatingHitPatterns) (earlier : List RepeatingHitPatterns) (r : Option ℕ)
    → Nearest p earlier 15 r
    → IsInterval (interval_of 1 r)
interval_of-IsInterval p earlier none n = (omega arith, omega arith, omega arith)
interval_of-IsInterval p earlier (some j) (l, f, n) =
    (omega arith, omega (arith, l), λ e. omega (arith, l, e))

-- The list with an interval given to each pattern.
abbrev Assigned : List RepeatingHitPatterns → Option (List RepeatingHitPatterns) → Type 0
Assigned ps result =
    (ps' : List RepeatingHitPatterns) × (result ≡ some ps')
    × (map patterns ps' ≡ map patterns ps)
    × All HasInterval ps'

assign_intervals-Assigned :
    (earlier ps : List RepeatingHitPatterns)
    → All IsFull earlier
    → All IsFull ps
    → Assigned ps (assign_intervals earlier ps)
unfolding assign_intervals
assign_intervals-Assigned earlier [] f g = ([], refl, refl, tt)
assign_intervals-Assigned earlier (p ∷ ps) f g =
    let (r, e, n) = find_repetition_interval-Nearest p earlier g.0 f in
    let (ps', e', m, h) = assign_intervals-Assigned (p ∷ earlier) ps (g.0, f) g.1 in
    (
      record p { repetition_interval = interval_of 1 r } ∷ ps',
      rw (e, e', assign_intervals) refl,
      ap (λ qs. patterns p ∷ qs) m,
      (interval_of-IsInterval p earlier r n, h),
    )

All-concat :
    (ps : List RepeatingHitPatterns) → All IsFilled (concat (map patterns ps)) → All IsFull ps
All-concat [] h = tt
All-concat (p ∷ ps) h =
    let (f, g) = All-append IsFilled (patterns p) (concat (map patterns ps)) h in
    (f, All-concat ps g)

pub encode_repeating_hit_patterns-IsPartition :
    (fuel : ℕ) (data' : List AlternatingMonoPattern)
    → All IsFilled data'
    → length data' ≤ fuel
    → (ps : List RepeatingHitPatterns) × (encode_repeating_hit_patterns fuel data' ≡ some ps)
      × IsPartition data' ps
      × All HasInterval ps
unfolding encode_repeating_hit_patterns
encode_repeating_hit_patterns-IsPartition fuel data' h l =
    let (ps, e, (c, n)) = hit_patterns_from-IsPartition fuel data' h l in
    let full : All IsFull ps = All-concat ps (subst (λ qs. All IsFilled qs) (sym c) h) in
    let (ps', e', m, i) = assign_intervals-Assigned [] ps tt full in
    (
      ps',
      rw (e, encode_repeating_hit_patterns) e',
      (ap concat m ∙ c, subst (λ qs. All IsNonempty qs) (sym m) n),
      i,
    )

length-concat :
    {A : Type 0} → (gs : List (List A)) → All IsNonempty gs → length gs ≤ length (concat gs)
length-concat [] h = omega arith
length-concat ([] ∷ gs) h = absurd h.0
length-concat ((x ∷ g) ∷ gs) h = omega (arith, length-concat gs h.1, length-append g (concat gs))

abbrev pub streaks_of : List RepeatingHitPatterns → List MonoStreak
streaks_of ps = concat (map (λ p. p.mono_streaks) (concat (map patterns ps)))

abbrev pub objects_of : List RepeatingHitPatterns → List TaikoDifficultyObject
objects_of ps = concat (map (λ s. s.hit_objects) (streaks_of ps))

module _ {A B : Type 0} where
  length-map : (f : A → B) (xs : List A) → length (map f xs) ≡ length xs
  length-map f [] = refl
  length-map f (x ∷ xs) = ap suc (length-map f xs)

All-pattern_of :
    (gs : List (List MonoStreak)) → All IsNonempty gs → All IsFilled (map pattern_of gs)
All-pattern_of [] h = tt
All-pattern_of (g ∷ gs) h = (h.0, All-pattern_of gs h.1)

map-hit_objects :
    (gs : List (List TaikoDifficultyObject)) → map (λ s. s.hit_objects) (map streak_of gs) ≡ gs
map-hit_objects [] = refl
map-hit_objects (g ∷ gs) = ap (λ r. g ∷ r) (map-hit_objects gs)

map-mono_streaks :
    (gs : List (List MonoStreak)) → map (λ p. p.mono_streaks) (map pattern_of gs) ≡ gs
map-mono_streaks [] = refl
map-mono_streaks (g ∷ gs) = ap (λ r. g ∷ r) (map-mono_streaks gs)

-- With as much fuel as there are objects, `encode` ends without a panic, and the streaks of its
-- patterns, one after the other, are the objects of the map: none is lost, repeated or moved.
-- Every pattern has an interval from 1 to 15, or 17 for no repetition.
pub encode-objects_of :
    (fuel : ℕ) (objects : TaikoDifficultyObjects)
    → length objects.objects ≤ fuel
    → (ps : List RepeatingHitPatterns) × (encode fuel objects ≡ some ps)
      × (objects_of ps ≡ objects.objects)
      × All HasInterval ps
unfolding encode
encode-objects_of fuel objects l =
    let streaks : List (List TaikoDifficultyObject) = encode_mono_streaks objects in
    let (c, n, k, d) = encode_mono_streaks-IsChunking objects in
    let groups : List (List MonoStreak) = encode_alternating_mono_pattern (map streak_of streaks) in
    let (c', n', k', d') = encode_alternating_mono_pattern-IsChunking (map streak_of streaks) in
    let enough : length (map pattern_of groups) ≤ fuel = omega (
      arith,
      l,
      ap length c,
      ap length c',
      length-concat streaks n,
      length-concat groups n',
      length-map streak_of streaks,
      length-map pattern_of groups,
    ) in
    let (ps, e, (c'', n''), i) =
      encode_repeating_hit_patterns-IsPartition fuel (map pattern_of groups)
        (All-pattern_of groups n') enough in
    (
      ps,
      e,
      ap (λ qs. concat (map (λ s. s.hit_objects) (concat (map (λ p. p.mono_streaks) qs)))) c''
          ∙ ap (λ qs. concat (map (λ s. s.hit_objects) (concat qs))) (map-mono_streaks groups)
          ∙ ap (λ qs. concat (map (λ s. s.hit_objects) qs)) c'
          ∙ ap concat (map-hit_objects streaks)
          ∙ c,
      i,
    )
