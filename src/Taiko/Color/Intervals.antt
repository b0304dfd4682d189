-- ===== src/Taiko/Color/Intervals.antt =====
-- src/taiko/difficulty/color/repeating_hit_patterns.rs, `find_repetition_interval`: how far back the
-- nearest repetition is.
use old_ccv3_pp.Base.{
  ℕ, zero, suc, ◌+◌, ◌<◌, Bool, true, false, Option, none, some, List, [], ◌∷◌, length, ◌==◌, ltb,
  get_elem?, Bool-cases, ◌≡◌, refl, ap, ◌∙◌, inl, inr, arith,
}
use old_ccv3_pp.Base.Sort.{All}
use old_ccv3_pp.Taiko.Color.{
  AlternatingMonoPattern, RepeatingHitPatterns, has_identical_mono_len, first_two_identical,
  repeats, interval_from, find_repetition_interval,
}
use old_ccv3_pp.Taiko.Color.Repeats.{IsFilled, patterns, has_identical_mono_len-some}

-- All patterns of the repeating pattern have a first streak.
abbrev pub IsFull : RepeatingHitPatterns → Type 0
IsFull p = All IsFilled (patterns p)

first_two_identical-some :
    (ps qs : List AlternatingMonoPattern)
    → All IsFilled ps
    → All IsFilled qs
    → (b : Bool) × (first_two_identical ps qs ≡ some b)
unfolding first_two_identical
first_two_identical-some [] qs f g = (true, refl)
first_two_identical-some (p ∷ ps) [] f g = (true, refl)
first_two_identical-some (p ∷ ps) (q ∷ qs) f g =
    let (b, e) = has_identical_mono_len-some p q f.0 g.0 in go b e ps qs f.1 g.1
  where
    go :
        (b : Bool)
        → has_identical_mono_len p q ≡ some b
        → (ps qs : List AlternatingMonoPattern) → All IsFilled ps
        → All IsFilled qs
        → (c : Bool) × (first_two_identical (p ∷ ps) (q ∷ qs) ≡ some c)
    go false e ps qs f g = (false, rw (e, first_two_identical) refl)
    go true e [] qs f g = (true, rw (e, first_two_identical) refl)
    go true e (p' ∷ ps) [] f g = (true, rw (e, first_two_identical) refl)
    go true e (p' ∷ ps) (q' ∷ qs) f g =
        let (c, e') = has_identical_mono_len-some p' q' f.0 g.0 in
        (c, rw (e, first_two_identical) e')

repeats-some :
    (p q : RepeatingHitPatterns) → IsFull p → IsFull q → (b : Bool) × (repeats p q ≡ some b)
unfolding repeats
repeats-some p q f g = elim (Bool-cases (length (patterns p) == length (patterns q))) [
  | inl e ↦
      let (b, e') = first_two_identical-some (patterns p) (patterns q) f g in
      (b, rw (e, repeats) e')
  | inr e ↦ (false, rw (e, repeats) refl)
]

-- The patterns before `j`, counted from the nearest, are not repeated.
abbrev pub NoneBefore : RepeatingHitPatterns → List RepeatingHitPatterns → ℕ → Type 0
NoneBefore p earlier zero = Unit
NoneBefore p [] (suc j) = Unit
NoneBefore p (q ∷ earlier) (suc j) = (repeats p q ≡ some false) × NoneBefore p earlier j

-- The first repetition among the nearest `window` patterns is `j` patterns before the nearest; or
-- there is none.
abbrev pub Nearest : RepeatingHitPatterns → List RepeatingHitPatterns → ℕ → Option ℕ → Type 0
Nearest p earlier window (some j) =
    (j < window)
    × ((q : RepeatingHitPatterns) × (get_elem? earlier j ≡ some q) × (repeats p q ≡ some true))
    × NoneBefore p earlier j
Nearest p earlier window none = NoneBefore p earlier window

-- The interval that stands for a repetition, when the first pattern looked at has `interval`.
abbrev pub interval_of : ℕ → Option ℕ → ℕ
interval_of interval (some j) = interval + j
interval_of interval none = 17

abbrev later : Option ℕ → Option ℕ
later none = none
later (some j) = some (suc j)

Nearest-later :
    (p q : RepeatingHitPatterns) (earlier : List RepeatingHitPatterns) (window : ℕ) (r : Option ℕ)
    → repeats p q ≡ some false
    → Nearest p earlier window r
    → Nearest p (q ∷ earlier) (suc window) (later r)
Nearest-later p q earlier window none e h = (e, h)
Nearest-later p q earlier window (some j) e (l, f, n) = (omega (arith, l), f, (e, n))

interval_of-later : (i : ℕ) (r : Option ℕ) → interval_of (suc i) r ≡ interval_of i (later r)
interval_of-later i none = refl
interval_of-later i (some j) = omega arith

NoneBefore-nil : (p : RepeatingHitPatterns) (j : ℕ) → NoneBefore p [] j
NoneBefore-nil p zero = tt
NoneBefore-nil p (suc j) = tt

abbrev Found : RepeatingHitPatterns → List RepeatingHitPatterns → ℕ → ℕ → Option ℕ → Type 0
Found p earlier window interval result =
    (r : Option ℕ) × (result ≡ some (interval_of interval r)) × Nearest p earlier window r

-- The last pattern that there is
interval_from-last :
    (p : RepeatingHitPatterns) (window interval : ℕ) (q : RepeatingHitPatterns) (b : Bool)
    → ltb interval 16 ≡ true
    → repeats p q ≡ some b
    → Found p (q ∷ []) (suc window) interval (interval_from p interval q [])
unfolding interval_from
interval_from-last p window interval q true near e = (
  some 0,
  rw (near, e, interval_from) (ap some (ground (arith, near))),
  (omega arith, (q, refl, e), tt),
)
interval_from-last p window interval q false near e =
    (none, rw (near, e, interval_from) refl, (e, NoneBefore-nil p window))

-- A pattern that has another one before it
interval_from-next :
    (p : RepeatingHitPatterns) (window interval : ℕ) (q q' : RepeatingHitPatterns)
    (earlier : List RepeatingHitPatterns) (b : Bool)
    → ltb interval 16 ≡ true
    → repeats p q ≡ some b
    → Found p (q' ∷ earlier) window (suc interval) (interval_from p (suc interval) q' earlier)
    → Found p (q ∷ q' ∷ earlier) (suc window) interval (interval_from p interval q (q' ∷ earlier))
unfolding interval_from
interval_from-next p window interval q q' earlier true near e ih = (
  some 0,
  rw (near, e, interval_from) (ap some (ground (arith, near))),
  (omega arith, (q, refl, e), tt),
)
interval_from-next p window interval q q' earlier false near e (r, e', n) = (
  later r,
  rw (near, e, interval_from) (e' ∙ ap some (interval_of-later interval r)),
  Nearest-later p q (q' ∷ earlier) window r e n,
)

interval_from-Found :
    (p : RepeatingHitPatterns) (window interval : ℕ) (q : RepeatingHitPatterns)
    (earlier : List RepeatingHitPatterns)
    → window + interval ≡ 16
    → IsFull p
    → IsFull q
    → All IsFull earlier
    → Found p (q ∷ earlier) window interval (interval_from p interval q earlier)
unfolding interval_from
interval_from-Found p zero interval q earlier w f g h =
    let past : ltb interval 16 ≡ false = ground (arith, w) in (none, out_of_reach earlier past, tt)
  where
    out_of_reach :
        (es : List RepeatingHitPatterns)
        → ltb interval 16 ≡ false
        → interval_from p interval q es ≡ some 17
    out_of_reach [] past = rw (past, interval_from) refl
    out_of_reach (q' ∷ es) past = rw (past, interval_from) refl
interval_from-Found p (suc window) interval q [] w f g h =
    let (b, e) = repeats-some p q f g in
    interval_from-last p window interval q b (ground (arith, w)) e
interval_from-Found p (suc window) interval q (q' ∷ earlier) w f g h =
    let (b, e) = repeats-some p q f g in
    interval_from-next p window interval q q' earlier b (ground (arith, w)) e
      (interval_from-Found p window (suc interval) q' earlier (omega (arith, w)) f h.0 h.1)

-- Where all patterns have streaks, `find_repetition_interval` gives the distance to the nearest
-- earlier pattern that is repeated, if one of the 15 before is, and 17 if none is. It does not
-- panic.
pub find_repetition_interval-Nearest :
    (p : RepeatingHitPatterns) (earlier : List RepeatingHitPatterns)
    → IsFull p
    → All IsFull earlier
    → (r : Option ℕ) × (find_repetition_interval p earlier ≡ some (interval_of 1 r))
      × Nearest p earlier 15 r
unfolding find_repetition_interval
find_repetition_interval-Nearest p [] f h = (none, refl, tt)
find_repetition_interval-Nearest p (q ∷ earlier) f h =
    interval_from-Found p 15 1 q earlier refl f h.0 h.1
