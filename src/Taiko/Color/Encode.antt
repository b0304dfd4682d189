-- ===== src/Taiko/Color/Encode.antt =====
-- src/taiko/difficulty/color/preprocessor.rs, `encode_mono_streaks` and
-- `encode_alternating_mono_pattern`: both cut their list into groups of linked neighbours.
use old_ccv3_pp.Base.{Bool, List, [], ◌∷◌, ◌++◌, ◌==◌, if◌then◌else◌, ◌≡◌, refl, ◌∙◌}
use old_ccv3_pp.Taiko.Objects.{TaikoDifficultyObject, TaikoDifficultyObjects}
use old_ccv3_pp.Taiko.Color.{
  MonoStreak, run_len, push_last, continues, streaks_from, encode_mono_streaks, patterns_from,
  encode_alternating_mono_pattern,
}
use old_ccv3_pp.Taiko.Color.Chunks.{
  IsChunking, groups, groups-IsChunking, chunk_from, chunk_from-groups,
}

-- An object continues the streak before it.
abbrev pub same_streak :
    TaikoDifficultyObjects → TaikoDifficultyObject → TaikoDifficultyObject → Bool
same_streak objects prev o = continues objects o

-- A streak continues the pattern before it.
abbrev pub same_run_len : MonoStreak → MonoStreak → Bool
same_run_len prev mono = run_len mono == run_len prev

streaks_from-chunk :
    (objects : TaikoDifficultyObjects) (x : TaikoDifficultyObject) (os : List TaikoDifficultyObject)
    (gs : List (List TaikoDifficultyObject))
    → streaks_from objects os gs ≡ chunk_from (same_streak objects) x os gs
unfolding streaks_from chunk_from
streaks_from-chunk objects x [] gs = refl
streaks_from-chunk objects x (o ∷ os) gs =
    streaks_from-chunk objects o os
      (push_last (if continues objects o then gs else gs ++ ([] ∷ [])) o)

patterns_from-chunk :
    (x : MonoStreak) (os : List MonoStreak) (gs : List (List MonoStreak))
    → patterns_from (run_len x) os gs ≡ chunk_from same_run_len x os gs
unfolding patterns_from chunk_from
patterns_from-chunk x [] gs = refl
patterns_from-chunk x (o ∷ os) gs =
    patterns_from-chunk o os (push_last (if run_len o == run_len x then gs else gs ++ ([] ∷ [])) o)

pub encode_mono_streaks-nil :
    (objects : TaikoDifficultyObjects) → objects.objects ≡ [] → encode_mono_streaks objects ≡ []
unfolding encode_mono_streaks
encode_mono_streaks-nil objects e = rw (e, encode_mono_streaks) refl

pub encode_mono_streaks-groups :
    (objects : TaikoDifficultyObjects) (o : TaikoDifficultyObject) (os : List TaikoDifficultyObject)
    → objects.objects ≡ o ∷ os
    → encode_mono_streaks objects ≡ groups (same_streak objects) o os
unfolding encode_mono_streaks push_last
encode_mono_streaks-groups objects o os e =
    rw (e, encode_mono_streaks)
      (streaks_from-chunk objects o os ((o ∷ []) ∷ [])
        ∙ chunk_from-groups (same_streak objects) o os)

-- `encode_mono_streaks` cuts the objects where `continues` says no, and nowhere else.
pub encode_mono_streaks-IsChunking :
    (objects : TaikoDifficultyObjects)
    → IsChunking (same_streak objects) objects.objects (encode_mono_streaks objects)
unfolding encode_mono_streaks push_last
encode_mono_streaks-IsChunking objects = go objects.objects
  where
    go :
        (os : List TaikoDifficultyObject)
        → IsChunking
            (same_streak objects)
            os
            (elim os [ [] ↦ [] | o ∷ rest ↦ streaks_from objects rest ((o ∷ []) ∷ []) ])
    go [] = (refl, tt, tt, tt)
    go (o ∷ os) =
        rw
          (
            streaks_from-chunk objects o os ((o ∷ []) ∷ []),
            chunk_from-groups (same_streak objects) o os,
          )
          (groups-IsChunking (same_streak objects) o os)

-- The encoder `encode_alternating_mono_pattern` cuts the streaks into non-empty patterns in their
-- order: within a pattern every streak is as long as the one before it, and the first of each
-- later pattern is not.
pub encode_alternating_mono_pattern-IsChunking :
    (data' : List MonoStreak)
    → IsChunking same_run_len data' (encode_alternating_mono_pattern data')
unfolding encode_alternating_mono_pattern push_last
encode_alternating_mono_pattern-IsChunking [] = (refl, tt, tt, tt)
encode_alternating_mono_pattern-IsChunking (o ∷ os) =
    rw (patterns_from-chunk o os ((o ∷ []) ∷ []), chunk_from-groups same_run_len o os)
      (groups-IsChunking same_run_len o os)
