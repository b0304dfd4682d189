-- ===== src/Taiko/Color.antt =====
-- src/taiko/difficulty/color: streaks of objects, patterns of streaks and their repetitions. A list
-- holds the values that its references point to; the back references that `process_and_assign` sets
-- afterwards are left out.
pub mod Chunks
pub mod Encode
pub mod Intervals
pub mod Repeats
pub mod Streaks
pub mod Whole
use old_ccv3_pp.Base.{
  ℕ, zero, suc, ◌+◌, Bool, true, false, ◌&&◌, Option, none, some, List, [], ◌∷◌, ◌++◌, length, ◌==◌,
  ltb, if◌then◌else◌, min, get_elem?, map,
}
use old_ccv3_pp.Taiko.Objects.{
  HitType, center, rim, non_hit, TaikoDifficultyObject, TaikoDifficultyObjects, previous_note,
}

pub record MonoStreak : Type 0 where
  pub hit_objects : List TaikoDifficultyObject

pub record AlternatingMonoPattern : Type 0 where
  pub mono_streaks : List MonoStreak

pub record RepeatingHitPatterns : Type 0 where
  pub alternating_mono_patterns : List AlternatingMonoPattern
  pub repetition_interval : ℕ

abbrev pub run_len : MonoStreak → ℕ
run_len s = length s.hit_objects

abbrev pub type_eq : HitType → HitType → Bool
type_eq HitType.center HitType.center = true
type_eq HitType.rim HitType.rim = true
type_eq HitType.non_hit HitType.non_hit = true
type_eq _ _ = false

abbrev pub hit_type : MonoStreak → Option HitType
hit_type s = elim s.hit_objects [ [] ↦ none | h ∷ hs ↦ some h.base_hit_type ]

abbrev pub hit_type_eq : Option HitType → Option HitType → Bool
hit_type_eq none none = true
hit_type_eq (some a) (some b) = type_eq a b
hit_type_eq _ _ = false

-- `curr.push(x)`, where `curr` refers to the last group.
unfoldable pub push_last {ℓ} : {A : Type ℓ} → List (List A) → A → List (List A)
push_last [] x = []
push_last (g ∷ []) x = (g ++ (x ∷ [])) ∷ []
push_last (g ∷ h ∷ gs) x = g ∷ push_last (h ∷ gs) x

-- `previous_note(o, 0).filter(|prev| prev has the same type)`
unfoldable pub continues : TaikoDifficultyObjects → TaikoDifficultyObject → Bool
unfolding previous_note
continues objects o = elim (previous_note objects o 0) [
  | none ↦ false
  | some prev ↦ type_eq o.base_hit_type prev.base_hit_type
]

-- The loop of `encode_mono_streaks`
unfoldable pub streaks_from :
    TaikoDifficultyObjects
    → List TaikoDifficultyObject
    → List (List TaikoDifficultyObject)
    → List (List TaikoDifficultyObject)
unfolding push_last continues
streaks_from objects [] streaks = streaks
streaks_from objects (o ∷ os) streaks =
    streaks_from objects os
      (push_last (if continues objects o then streaks else streaks ++ ([] ∷ [])) o)

unfoldable pub encode_mono_streaks : TaikoDifficultyObjects → List (List TaikoDifficultyObject)
unfolding streaks_from
encode_mono_streaks objects = elim objects.objects [
  | [] ↦ []
  | o ∷ os ↦ streaks_from objects os (push_last ([] ∷ []) o)
]

-- The loop of `encode_alternating_mono_pattern`
unfoldable pub patterns_from : ℕ → List MonoStreak → List (List MonoStreak) → List (List MonoStreak)
unfolding push_last
patterns_from prev_run_len [] patterns = patterns
patterns_from prev_run_len (mono ∷ objects) patterns =
    patterns_from (run_len mono) objects
      (push_last (if run_len mono == prev_run_len then patterns else patterns ++ ([] ∷ [])) mono)

unfoldable pub encode_alternating_mono_pattern : List MonoStreak → List (List MonoStreak)
unfolding patterns_from
encode_alternating_mono_pattern [] = []
encode_alternating_mono_pattern (mono ∷ objects) =
    patterns_from (run_len mono) objects (push_last ([] ∷ []) mono)

-- `self.mono_streaks[0]`: `none` is a panic.
abbrev pub first_streak : AlternatingMonoPattern → Option MonoStreak
first_streak p = get_elem? p.mono_streaks 0

unfoldable pub has_identical_mono_len :
    AlternatingMonoPattern → AlternatingMonoPattern → Option Bool
has_identical_mono_len p q = elim (first_streak p) [
  | none ↦ none
  | some s ↦ elim (first_streak q) [ none ↦ none | some t ↦ some (run_len s == run_len t) ]
]

unfoldable pub is_repetition_of : AlternatingMonoPattern → AlternatingMonoPattern → Option Bool
is_repetition_of p q = elim (first_streak p) [
  | none ↦ none
  | some s ↦ elim (first_streak q) [
    | none ↦ none
    | some t ↦ some (
        (run_len s == run_len t)
        && (length p.mono_streaks == length q.mono_streaks)
        && hit_type_eq (hit_type s) (hit_type t))
  ]
]

-- `data.get(2).map_or(false, |other| data[0].is_repetition_of(other))`
unfoldable pub is_coupled : List AlternatingMonoPattern → Option Bool
unfolding is_repetition_of
is_coupled (p ∷ q ∷ r ∷ objects) = is_repetition_of p r
is_coupled _ = some false

-- `while is_coupled { push(data.pop_front().unwrap()); .. }`: what is pushed, and what is left
unfoldable pub pop_coupled :
    List AlternatingMonoPattern → Option (List AlternatingMonoPattern × List AlternatingMonoPattern)
unfolding is_coupled
pop_coupled [] = some ([], [])
pop_coupled (p ∷ objects) =
    let rest = pop_coupled objects in
    elim (is_coupled (p ∷ objects)) [
      | none ↦ none
      | some false ↦ some ([], p ∷ objects)
      | some true ↦ elim rest [ none ↦ none | some (taken, left) ↦ some (p ∷ taken, left) ]
    ]

-- `data.drain(..2)`, which panics if there are not two.
unfoldable pub drain_two :
    List AlternatingMonoPattern → Option (List AlternatingMonoPattern × List AlternatingMonoPattern)
drain_two (p ∷ q ∷ objects) = some (p ∷ q ∷ [], objects)
drain_two _ = none

-- The first pattern of the outer loop, if there is any: what it takes, and what is left.
unfoldable pub next_pattern :
    AlternatingMonoPattern
    → List AlternatingMonoPattern
    → Option (List AlternatingMonoPattern × List AlternatingMonoPattern)
unfolding is_coupled pop_coupled drain_two
next_pattern p objects = elim (is_coupled (p ∷ objects)) [
  | none ↦ none
  | some false ↦ some (p ∷ [], objects)
  | some true ↦ elim (pop_coupled (p ∷ objects)) [
    | none ↦ none
    | some (taken, left) ↦ elim (drain_two left) [
      | none ↦ none
      | some (two, left') ↦ some (taken ++ two, left')
    ]
  ]
]

-- `while !data.is_empty()`, with fuel for its rounds; `none` is a panic or no fuel.
unfoldable pub hit_patterns_from :
    ℕ → List AlternatingMonoPattern → Option (List RepeatingHitPatterns)
unfolding next_pattern
hit_patterns_from fuel [] = some []
hit_patterns_from zero (p ∷ objects) = none
hit_patterns_from (suc fuel) (p ∷ objects) = elim (next_pattern p objects) [
  | none ↦ none
  | some (taken, left) ↦ elim (hit_patterns_from fuel left) [
    | none ↦ none
    | some rest ↦
        some (record { alternating_mono_patterns = taken; repetition_interval = 0 } ∷ rest)
  ]
]

abbrev pub max_repetition_interval : ℕ
max_repetition_interval = 16

-- `take(2).all(..)` over the zipped patterns
unfoldable pub first_two_identical :
    List AlternatingMonoPattern → List AlternatingMonoPattern → Option Bool
unfolding has_identical_mono_len
first_two_identical (p ∷ ps) (q ∷ qs) = elim (has_identical_mono_len p q) [
  | none ↦ none
  | some false ↦ some false
  | some true ↦ elim ps [
    | [] ↦ some true
    | p' ∷ ps' ↦ elim qs [ [] ↦ some true | q' ∷ qs' ↦ has_identical_mono_len p' q' ]
  ]
]
first_two_identical _ _ = some true

-- `RepeatingHitPatterns::is_repetition_of`
unfoldable pub repeats : RepeatingHitPatterns → RepeatingHitPatterns → Option Bool
unfolding first_two_identical
repeats p q =
    if length p.alternating_mono_patterns == length q.alternating_mono_patterns
    then first_two_identical p.alternating_mono_patterns q.alternating_mono_patterns
    else some false

-- The loop of `find_repetition_interval` over the earlier patterns, the nearest first.
unfoldable pub interval_from :
    RepeatingHitPatterns → ℕ → RepeatingHitPatterns → List RepeatingHitPatterns → Option ℕ
unfolding repeats
interval_from p interval other [] =
    if ltb interval max_repetition_interval
    then elim (repeats p other) [
      | none ↦ none
      | some true ↦ some (min interval max_repetition_interval)
      | some false ↦ some (max_repetition_interval + 1)
    ]
    else some (max_repetition_interval + 1)
interval_from p interval other (next ∷ more) =
    let rest = interval_from p (suc interval) next more in
    if ltb interval max_repetition_interval
    then elim (repeats p other) [
      | none ↦ none
      | some true ↦ some (min interval max_repetition_interval)
      | some false ↦ rest
    ]
    else some (max_repetition_interval + 1)

unfoldable pub find_repetition_interval :
    RepeatingHitPatterns → List RepeatingHitPatterns → Option ℕ
unfolding interval_from
find_repetition_interval p [] = some (max_repetition_interval + 1)
find_repetition_interval p (other ∷ earlier) = interval_from p 1 other earlier

-- `hit_patterns.iter_mut().for_each(find_repetition_interval)`: `prev` leads through the patterns
-- before, the nearest first.
unfoldable pub assign_intervals :
    List RepeatingHitPatterns → List RepeatingHitPatterns → Option (List RepeatingHitPatterns)
unfolding find_repetition_interval
assign_intervals earlier [] = some []
assign_intervals earlier (p ∷ ps) =
    let rest = assign_intervals (p ∷ earlier) ps in
    elim (find_repetition_interval p earlier) [
      | none ↦ none
      | some interval ↦ elim rest [
        | none ↦ none
        | some ps' ↦ some (record p { repetition_interval = interval } ∷ ps')
      ]
    ]

unfoldable pub encode_repeating_hit_patterns :
    ℕ → List AlternatingMonoPattern → Option (List RepeatingHitPatterns)
unfolding hit_patterns_from assign_intervals
encode_repeating_hit_patterns fuel data' = elim (hit_patterns_from fuel data') [
  | none ↦ none
  | some hit_patterns ↦ assign_intervals [] hit_patterns
]

abbrev pub streak_of : List TaikoDifficultyObject → MonoStreak
streak_of os = record { hit_objects = os }

abbrev pub pattern_of : List MonoStreak → AlternatingMonoPattern
pattern_of ss = record { mono_streaks = ss }

unfoldable pub encode : ℕ → TaikoDifficultyObjects → Option (List RepeatingHitPatterns)
unfolding encode_mono_streaks encode_alternating_mono_pattern encode_repeating_hit_patterns
encode fuel objects =
    encode_repeating_hit_patterns fuel (
      map pattern_of
        (encode_alternating_mono_pattern (map streak_of (encode_mono_streaks objects))))
