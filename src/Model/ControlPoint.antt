-- ===== src/Model/ControlPoint.antt =====
-- src/model/control_point/timing.rs, difficulty.rs and effect.rs: the control points of a map, and
-- which of them is active at a time.
pub mod Active
use old_ccv3_pp.Base.{
  ℕ, zero, suc, ◌-◌, ◌≤◌, ◌<◌, Bool, Option, none, some, List, map, get_elem?, length, ◌≡◌,
}

-- `Result<usize, usize>` of `binary_search_by`
pub data SearchResult : Type 0 where
  found : ℕ → SearchResult
  insert : ℕ → SearchResult

-- `slice::binary_search` on the keys by which `total_cmp` orders floats.
abbrev pub BinarySearch : Type 0
BinarySearch = List ℕ → ℕ → SearchResult

abbrev pub Ordered : List ℕ → Type 0
Ordered keys = (i j x y : ℕ) → i ≤ j → get_elem? keys i ≡ some x → get_elem? keys j ≡ some y → x ≤ y

-- Its documentation: in a sorted slice it finds an equal element, or where one could be inserted.
pub record BinarySearchLaws (search : BinarySearch) : Type 0 where
  pub found-equal : (keys : List ℕ) (t i : ℕ) → search keys t ≡ found i → get_elem? keys i ≡ some t
  pub insert-le : (keys : List ℕ) (t i : ℕ) → search keys t ≡ insert i → i ≤ length keys
  pub insert-before :
      (keys : List ℕ) (t i j x : ℕ)
      → Ordered keys
      → search keys t ≡ insert i
      → j < i
      → get_elem? keys j ≡ some x
      → x < t
  pub insert-after :
      (keys : List ℕ) (t i j x : ℕ)
      → Ordered keys
      → search keys t ≡ insert i
      → i ≤ j
      → get_elem? keys j ≡ some x
      → t < x

-- `i.checked_sub(1)`
abbrev pub checked_pred : ℕ → Option ℕ
checked_pred zero = none
checked_pred (suc i) = some i

-- `.map_or_else(|i| i.checked_sub(1), Some)`
unfoldable pub active_index : SearchResult → Option ℕ
active_index (found i) = some i
active_index (insert i) = checked_pred i

-- `.unwrap_or_else(|i| i.saturating_sub(1))`
unfoldable pub index_or_first : SearchResult → ℕ
index_or_first (found i) = i
index_or_first (insert i) = i - 1

-- `.map(|i| &points[i])`, where an index out of range panics: the outer `none`
abbrev pub at {ℓ} : {A : Type ℓ} → List A → Option ℕ → Option (Option A)
at points none = some none
at points (some i) = elim (get_elem? points i) [ none ↦ none | some p ↦ some (some p) ]

-- The points are generic in the type of floats; `key` maps a float to its place in `total_cmp`.
module _ (F64 : Type 0) where
  pub record TimingPoint : Type 0 where
    pub time : F64
    pub beat_len : F64

  pub record DifficultyPoint : Type 0 where
    pub time : F64
    pub slider_velocity : F64
    pub bpm_multiplier : F64
    pub generate_ticks : Bool

  pub record EffectPoint : Type 0 where
    pub time : F64
    pub kiai : Bool

  module _ (search : BinarySearch) (key : F64 → ℕ) where
    -- `points.get(i)` for the index found, or the one before the place of insertion, or 0
    unfoldable pub timing_point_at : List TimingPoint → F64 → Option TimingPoint
    unfolding index_or_first
    timing_point_at points time =
        get_elem? points
          (index_or_first (search (map (λ (p : TimingPoint). key p.time) points) (key time)))

    unfoldable pub difficulty_point_at :
        List DifficultyPoint → F64 → Option (Option DifficultyPoint)
    unfolding active_index
    difficulty_point_at points time =
        at points
          (active_index (search (map (λ (p : DifficultyPoint). key p.time) points) (key time)))

    unfoldable pub effect_point_at : List EffectPoint → F64 → Option (Option EffectPoint)
    unfolding active_index
    effect_point_at points time =
        at points (active_index (search (map (λ (p : EffectPoint). key p.time) points) (key time)))
