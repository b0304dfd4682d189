-- ===== src/Taiko/Objects.antt =====
-- src/taiko/difficulty/object.rs and src/taiko/object.rs: the objects of a taiko map and the lists of
-- those that are hits. The fields that hold floats, and the color that is assigned later, are left out.
pub mod Indices
use old_ccv3_pp.Base.{
  ℕ, zero, suc, ◌+◌, Bool, true, false, Option, none, some, List, [], ◌∷◌, ◌++◌, length, get_elem?,
  ◌%◌, u64_mod,
}

pub data HitType : Type 0 where
  center rim non_hit : HitType

unfoldable pub is_hit : HitType → Bool
is_hit center = true
is_hit rim = true
is_hit non_hit = false

pub data MonoIndex : Type 0 where
  center rim : ℕ → MonoIndex
  no_mono : MonoIndex

pub record TaikoDifficultyObject : Type 0 where
  pub idx : ℕ
  pub base_hit_type : HitType
  pub mono_idx : MonoIndex
  pub note_idx : ℕ

-- A list holds the objects that its references point to.
pub record TaikoDifficultyObjects : Type 0 where
  pub objects : List TaikoDifficultyObject
  pub center_hit_objects : List TaikoDifficultyObject
  pub rim_hit_objects : List TaikoDifficultyObject
  pub note_objects : List TaikoDifficultyObject

unfoldable pub with_capacity : TaikoDifficultyObjects
with_capacity = record {
  objects = [];
  center_hit_objects = [];
  rim_hit_objects = [];
  note_objects = [];
}

-- `TaikoDifficultyObject::new`: hits are also added to the lists of hits.
unfoldable pub new :
    HitType → ℕ → TaikoDifficultyObjects → TaikoDifficultyObject × TaikoDifficultyObjects
new HitType.center idx objects =
    let this : TaikoDifficultyObject = record {
      idx = idx;
      base_hit_type = HitType.center;
      mono_idx = MonoIndex.center (length objects.center_hit_objects);
      note_idx = length objects.note_objects;
    } in
    (
      this,
      record objects {
        note_objects = objects.note_objects ++ (this ∷ []);
        center_hit_objects = objects.center_hit_objects ++ (this ∷ []);
      },
    )
new HitType.rim idx objects =
    let this : TaikoDifficultyObject = record {
      idx = idx;
      base_hit_type = HitType.rim;
      mono_idx = MonoIndex.rim (length objects.rim_hit_objects);
      note_idx = length objects.note_objects;
    } in
    (
      this,
      record objects {
        note_objects = objects.note_objects ++ (this ∷ []);
        rim_hit_objects = objects.rim_hit_objects ++ (this ∷ []);
      },
    )
new HitType.non_hit idx objects = (
  record { idx = idx; base_hit_type = HitType.non_hit; mono_idx = no_mono; note_idx = 0 },
  objects,
)

unfoldable pub push : TaikoDifficultyObjects → TaikoDifficultyObject → TaikoDifficultyObjects
push objects o = record objects { objects = objects.objects ++ (o ∷ []) }

-- The loop of `create_difficulty_objects`, from index `i` on.
unfoldable pub create_from : ℕ → List HitType → TaikoDifficultyObjects → TaikoDifficultyObjects
unfolding new push
create_from i [] objects = objects
create_from i (t ∷ ts) objects =
    let (o, objects') = new t i objects in create_from (suc i) ts (push objects' o)

-- `create_difficulty_objects`: the first two objects have no difficulty object.
unfoldable pub create_difficulty_objects : List HitType → TaikoDifficultyObjects
unfolding create_from with_capacity
create_difficulty_objects (t ∷ u ∷ ts) = create_from 0 ts with_capacity
create_difficulty_objects _ = with_capacity

-- `checked_sub`
abbrev pub checked_sub : ℕ → ℕ → Option ℕ
checked_sub n zero = some n
checked_sub zero (suc k) = none
checked_sub (suc n) (suc k) = checked_sub n k

abbrev pub get_from : List TaikoDifficultyObject → Option ℕ → Option TaikoDifficultyObject
get_from os none = none
get_from os (some i) = get_elem? os i

unfoldable pub previous_mono :
    TaikoDifficultyObjects → TaikoDifficultyObject → ℕ → Option TaikoDifficultyObject
previous_mono objects curr backwards_idx = elim curr.mono_idx [
  | center idx ↦
      get_from objects.center_hit_objects (checked_sub idx ((backwards_idx + 1) % u64_mod))
  | rim idx ↦ get_from objects.rim_hit_objects (checked_sub idx ((backwards_idx + 1) % u64_mod))
  | no_mono ↦ none
]

unfoldable pub previous_note :
    TaikoDifficultyObjects → TaikoDifficultyObject → ℕ → Option TaikoDifficultyObject
previous_note objects curr backwards_idx =
    get_from objects.note_objects (checked_sub curr.note_idx ((backwards_idx + 1) % u64_mod))

unfoldable pub next_note :
    TaikoDifficultyObjects → TaikoDifficultyObject → ℕ → Option TaikoDifficultyObject
next_note objects curr forwards_idx =
    get_elem? objects.note_objects ((curr.note_idx + (forwards_idx + 1) % u64_mod) % u64_mod)
