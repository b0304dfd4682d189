-- ===== src/Catch/Counts.antt =====
-- src/catch/attributes.rs: the object counts of a map, all at once or per palpable object.
pub mod Prefix
use old_ccv3_pp.Base.{
  ℕ, ◌-◌, Bool, true, false, Option, none, some, List, [], ◌∷◌, ◌++◌, ltb, if◌then◌else◌, add32,
}
use old_ccv3_pp.Catch.Performance.{CatchDifficultyAttributes}

pub record ObjectCount : Type 0 where
  pub fruits : ℕ
  pub droplets : ℕ
  pub tiny_droplets : ℕ

pub record GradualObjectCount : Type 0 where
  pub fruit : Bool
  pub tiny_droplets : ℕ

pub data ObjectCountBuilder : Type 0 where
  regular : ObjectCount → ℕ → ObjectCountBuilder
  gradual : GradualObjectCount → List GradualObjectCount → ObjectCountBuilder

-- the `Default` values
abbrev pub no_objects : ObjectCount
no_objects = record { fruits = 0; droplets = 0; tiny_droplets = 0 }

abbrev pub no_object : GradualObjectCount
no_object = record { fruit = false; tiny_droplets = 0 }

unfoldable pub new_regular : ℕ → ObjectCountBuilder
new_regular take = regular no_objects take

unfoldable pub new_gradual : ObjectCountBuilder
new_gradual = gradual no_object []

-- `none` is `unreachable!()`.
unfoldable pub into_regular : ObjectCountBuilder → Option ObjectCount
into_regular (regular count take) = some count
into_regular (gradual count all) = none

unfoldable pub into_gradual : ObjectCountBuilder → Option (List GradualObjectCount)
into_gradual (regular count take) = none
into_gradual (gradual count all) = some all

unfoldable pub record_fruit : ObjectCountBuilder → ObjectCountBuilder
record_fruit (regular count take) =
    if ltb 0 take
    then regular (record count { fruits = add32 count.fruits 1 }) (take - 1)
    else regular count take
record_fruit (gradual count all) = gradual no_object (all ++ (record count { fruit = true } ∷ []))

unfoldable pub record_droplet : ObjectCountBuilder → ObjectCountBuilder
record_droplet (regular count take) =
    if ltb 0 take
    then regular (record count { droplets = add32 count.droplets 1 }) (take - 1)
    else regular count take
record_droplet (gradual count all) = gradual no_object (all ++ (count ∷ []))

unfoldable pub record_tiny_droplets : ObjectCountBuilder → ℕ → ObjectCountBuilder
record_tiny_droplets (regular count take) n =
    if ltb 0 take
    then regular (record count { tiny_droplets = add32 count.tiny_droplets n }) take
    else regular count take
record_tiny_droplets (gradual count all) n =
    gradual (record count { tiny_droplets = add32 count.tiny_droplets n }) all

module _ {F64 : Type 0} where
  unfoldable pub set_object_count :
      CatchDifficultyAttributes F64 → ObjectCount → CatchDifficultyAttributes F64
  set_object_count attrs count = record attrs {
    n_fruits = count.fruits;
    n_droplets = count.droplets;
    n_tiny_droplets = count.tiny_droplets;
  }

  unfoldable pub add_object_count :
      CatchDifficultyAttributes F64 → GradualObjectCount → CatchDifficultyAttributes F64
  add_object_count attrs count = record attrs {
    n_fruits = if count.fruit then add32 attrs.n_fruits 1 else attrs.n_fruits;
    n_droplets = if count.fruit then attrs.n_droplets else add32 attrs.n_droplets 1;
    n_tiny_droplets = add32 attrs.n_tiny_droplets count.tiny_droplets;
  }
