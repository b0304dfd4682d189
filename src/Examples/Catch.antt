-- ===== src/Examples/Catch.antt =====
-- A catch map, counted and calculated object by object.
use old_ccv3_pp.Base.{
  ℕ, ◌+◌, ◌-◌, ◌≡◌, ◌⊎◌, refl, some, none, List, [], ◌∷◌, true, false, arith, take, min,
}
use mathlib.Core.Option
use old_ccv3_pp.Catch.Performance.{CatchDifficultyAttributes}
use old_ccv3_pp.Catch.Counts.{
  GradualObjectCount, no_objects, new_regular, new_gradual, into_regular, into_gradual,
  set_object_count, record_fruit, record_droplet, record_tiny_droplets,
}
use old_ccv3_pp.Catch.Counts.Prefix.{
  Event, fruit, droplet, tiny, record_all, add_all, regular-prefix,
}
use old_ccv3_pp.Catch.Gradual.{Skill, CatchGradualDifficulty, next, nth, len}
use old_ccv3_pp.Catch.Gradual.Nth.{IsValid, next_times, nth-next_times, gradual_next-len}

abbrev attrs : CatchDifficultyAttributes ℕ
attrs = record {
  stars = 0;
  ar = 9;
  n_fruits = 0;
  n_droplets = 0;
  n_tiny_droplets = 0;
  is_convert = false;
}

-- A juice stream with a droplet, and a fruit.
abbrev events : List Event
events = fruit ∷ tiny 3 ∷ droplet ∷ tiny 2 ∷ fruit ∷ fruit ∷ []

abbrev counts : List GradualObjectCount
counts =
    record { fruit = true; tiny_droplets = 0 }
    ∷ record { fruit = false; tiny_droplets = 3 }
    ∷ record { fruit = true; tiny_droplets = 2 }
    ∷ record { fruit = true; tiny_droplets = 0 }
    ∷ []

counted : into_gradual (record_all new_gradual events) ≡ some counts
unfolding into_gradual new_gradual record_fruit record_droplet record_tiny_droplets
counted = refl

regular-prefix_example :
    Option.map (set_object_count attrs) (into_regular (record_all (new_regular 3) events))
    ≡ some (add_all (set_object_count attrs no_objects) (take 3 counts))
regular-prefix_example = regular-prefix attrs events counts 3 counted (omega arith)

abbrev skill : Skill ℕ
skill = record {
  CatchDifficultyObject = ℕ;
  Movement = ℕ;
  process = λ objects movement curr. movement + curr;
  eval = λ attrs movement. record attrs { stars = movement };
}

abbrev gradual : CatchGradualDifficulty skill
gradual = record {
  idx = 0;
  attrs = attrs;
  count = counts;
  diff_objects = 5 ∷ 7 ∷ 11 ∷ [];
  movement = 0;
}

gradual-IsValid : IsValid skill gradual
gradual-IsValid = record { counts = refl; reached = omega arith }

nth-next_times_example :
    nth skill gradual 2 ≡ next_times skill (min 2 (len skill gradual - 1)) gradual
nth-next_times_example = nth-next_times skill gradual 2 gradual-IsValid

gradual_next-len_example :
    ((a : CatchDifficultyAttributes ℕ) × (g : CatchGradualDifficulty skill) × (next skill gradual
        ≡ some (some a, g))
      × IsValid skill g
      × (len skill gradual ≡ len skill g + 1))
    ⊎ ((next skill gradual ≡ some (none, gradual)) × (len skill gradual ≡ 0))
gradual_next-len_example = gradual_next-len skill gradual gradual-IsValid

-- The calculator of a map with no objects: `len` is 1 but `next` gives none.
abbrev empty : CatchGradualDifficulty skill
empty = record { idx = 0; attrs = attrs; count = []; diff_objects = []; movement = 0 }

empty-len : len skill empty ≡ 1
unfolding len
empty-len = refl

empty-next : next skill empty ≡ some (none, empty)
unfolding next
empty-next = refl
