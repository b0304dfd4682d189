-- ===== src/Examples/Color.antt =====
-- The objects of a short taiko map and their grouping by color.
use old_ccv3_pp.Base.{
  none, ℕ, Option, some, List, [], ◌∷◌, ◌≤◌, ◌≡◌, refl, arith, get_elem?, length, map,
}
use old_ccv3_pp.Base.Sort.{All}
use old_ccv3_pp.Taiko.Objects.{
  HitType, center, rim, non_hit, MonoIndex, TaikoDifficultyObject, TaikoDifficultyObjects,
  create_difficulty_objects, create_from, new, push, with_capacity, previous_note, next_note,
}
use old_ccv3_pp.Taiko.Objects.Indices.{
  IsIndexed, create_difficulty_objects-IsIndexed, next_note-previous_note,
}
use old_ccv3_pp.Taiko.Color.{
  MonoStreak, RepeatingHitPatterns, streak_of, pattern_of, encode_mono_streaks,
  encode_alternating_mono_pattern, find_repetition_interval, encode, streaks_from, push_last,
  continues, interval_from, repeats, first_two_identical, has_identical_mono_len,
}
use old_ccv3_pp.Taiko.Color.Streaks.{AllStreaks, encode_mono_streaks-AllStreaks}
use old_ccv3_pp.Taiko.Color.Chunks.{concat, IsChunking}
use old_ccv3_pp.Taiko.Color.Encode.{same_run_len, encode_alternating_mono_pattern-IsChunking}
use old_ccv3_pp.Taiko.Color.Intervals.{Nearest, interval_of, find_repetition_interval-Nearest}
use old_ccv3_pp.Taiko.Color.Whole.{IsInterval, objects_of, encode-objects_of}

-- Two objects without difficulty, then two centers, two rims, a drum roll, two centers and a rim.
abbrev hits : List HitType
hits = center ∷ rim ∷ center ∷ center ∷ rim ∷ rim ∷ non_hit ∷ center ∷ center ∷ rim ∷ []

abbrev map_objects : TaikoDifficultyObjects
map_objects = create_difficulty_objects hits

map_objects-len : length map_objects.objects ≡ 8
unfolding create_difficulty_objects create_from new push with_capacity
map_objects-len = refl

-- A drum roll stands alone, as it has another type than the note before it.
streaks_test : map length (encode_mono_streaks map_objects) ≡ 2 ∷ 2 ∷ 1 ∷ 2 ∷ 1 ∷ []
unfolding create_difficulty_objects create_from new push with_capacity encode_mono_streaks
    streaks_from push_last continues previous_note
streaks_test = refl

create_difficulty_objects-IsIndexed_example : IsIndexed map_objects
create_difficulty_objects-IsIndexed_example = create_difficulty_objects-IsIndexed hits

abbrev first_center : TaikoDifficultyObject
first_center = record {
  idx = 0;
  base_hit_type = center;
  mono_idx = MonoIndex.center 0;
  note_idx = 0;
}

abbrev first_rim : TaikoDifficultyObject
first_rim = record { idx = 2; base_hit_type = rim; mono_idx = MonoIndex.rim 0; note_idx = 2 }

rim_listed : get_elem? map_objects.note_objects 2 ≡ some first_rim
unfolding create_difficulty_objects create_from new push with_capacity
rim_listed = refl

two_before : previous_note map_objects first_rim 1 ≡ some first_center
unfolding previous_note create_difficulty_objects create_from new push with_capacity
two_before = refl

next_note-previous_note_example : next_note map_objects first_center 1 ≡ some first_rim
next_note-previous_note_example =
    next_note-previous_note map_objects first_rim first_center 1
      (create_difficulty_objects-IsIndexed hits) (omega arith) rim_listed two_before

encode_mono_streaks-AllStreaks_example :
    (concat (encode_mono_streaks map_objects) ≡ map_objects.objects)
    × AllStreaks none (encode_mono_streaks map_objects)
encode_mono_streaks-AllStreaks_example =
    encode_mono_streaks-AllStreaks map_objects (create_difficulty_objects-IsIndexed hits)

abbrev one : MonoStreak
one = streak_of (first_center ∷ [])

abbrev two : MonoStreak
two = streak_of (first_rim ∷ first_rim ∷ [])

encode_alternating_mono_pattern-IsChunking_example :
    IsChunking same_run_len
      (two ∷ two ∷ one ∷ [])
      (encode_alternating_mono_pattern (two ∷ two ∷ one ∷ []))
encode_alternating_mono_pattern-IsChunking_example =
    encode_alternating_mono_pattern-IsChunking (two ∷ two ∷ one ∷ [])

abbrev short : RepeatingHitPatterns
short = record { alternating_mono_patterns = pattern_of (one ∷ []) ∷ []; repetition_interval = 0 }

abbrev long : RepeatingHitPatterns
long = record { alternating_mono_patterns = pattern_of (two ∷ []) ∷ []; repetition_interval = 0 }

interval_test : find_repetition_interval short (long ∷ short ∷ []) ≡ some 2
unfolding find_repetition_interval interval_from repeats first_two_identical has_identical_mono_len
interval_test = refl

find_repetition_interval-Nearest_example :
    (r : Option ℕ) × (find_repetition_interval short (long ∷ short ∷ []) ≡ some (interval_of 1 r))
    × Nearest short (long ∷ short ∷ []) 15 r
find_repetition_interval-Nearest_example =
    find_repetition_interval-Nearest short (long ∷ short ∷ []) (tt, tt) ((tt, tt), ((tt, tt), tt))

eight_objects : length map_objects.objects ≤ 8
unfolding create_difficulty_objects create_from new push with_capacity
eight_objects = omega arith

encode-objects_of_example :
    (ps : List RepeatingHitPatterns) × (encode 8 map_objects ≡ some ps)
    × (objects_of ps ≡ map_objects.objects)
    × All (λ p. IsInterval p.repetition_interval) ps
encode-objects_of_example = encode-objects_of 8 map_objects eight_objects
