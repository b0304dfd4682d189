-- ===== src/Model/ControlPoint/Active.antt =====
-- Which control point src/model/control_point/*.rs find: the last one at or before a time.
use old_ccv3_pp.Base.{
  ℕ, zero, suc, ◌-◌, ◌≤◌, ◌<◌, Option, none, some, List, [], ◌∷◌, map, get_elem?, get_elem?_within,
  ◌≡◌, refl, arith, ◌⊎◌, inl, inr, dec_le,
}
use mathlib.Core.Option.{some-injective}
use old_ccv3_pp.Base.Sort.{All}
use old_ccv3_pp.Model.ControlPoint.{
  SearchResult, found, insert, BinarySearch, BinarySearchLaws, Ordered, checked_pred, at,
  TimingPoint, DifficultyPoint, EffectPoint, active_index, index_or_first, difficulty_point_at,
  effect_point_at, timing_point_at,
}

All-get_elem? :
    {P : ℕ → Type 0} (xs : List ℕ) → ((j x : ℕ) → get_elem? xs j ≡ some x → P x) → All P xs
All-get_elem? [] h = tt
All-get_elem? (x ∷ xs) h = (h 0 x refl, All-get_elem? xs (λ j y e. h (suc j) y e))

get_elem?-map :
    {A B : Type 0} (f : A → B) (xs : List A) (i : ℕ) (y : B)
    → get_elem? (map f xs) i ≡ some y
    → (x : A) × (get_elem? xs i ≡ some x) × (f x ≡ y)
get_elem?-map f [] i y e = cc
get_elem?-map f (x ∷ xs) zero y e = (x, refl, some-injective (f x) y e)
get_elem?-map f (x ∷ xs) (suc i) y e = get_elem?-map f xs i y e

le_or_gt : (x t : ℕ) → (x ≤ t) ⊎ (t < x)
le_or_gt x t = elim (dec_le x t) [ yes le ↦ inl le | no gt ↦ inr (omega arith) ]

module _ (search : BinarySearch) (laws : BinarySearchLaws search) (keys : List ℕ) (t : ℕ)
    (ordered : Ordered keys) where
  -- Where an index is found, its point is at or before the time, and no other comes between; where
  -- none is, every point is after the time.
  abbrev pub IsActive : Option ℕ → Type 0
  IsActive none = All (λ x. t < x) keys
  IsActive (some i) =
      (x : ℕ) × (get_elem? keys i ≡ some x) × (x ≤ t) × All (λ y. (y ≤ x) ⊎ (t < y)) keys

  IsActive-found : (i : ℕ) → search keys t ≡ found i → IsActive (some i)
  IsActive-found i e =
      (t, laws.found-equal keys t i e, omega arith, All-get_elem? keys (λ j y q. le_or_gt y t))

  IsActive-insert : (i : ℕ) → search keys t ≡ insert i → IsActive (checked_pred i)
  IsActive-insert zero e =
      All-get_elem? keys (λ j y q. laws.insert-after keys t 0 j y ordered e (omega arith) q)
  IsActive-insert (suc i) e =
      let (x, q) = get_elem?_within keys i (omega (arith, laws.insert-le keys t (suc i) e)) in
      let before = laws.insert-before keys t (suc i) i x ordered e (omega arith) q in
      (
        x,
        q,
        omega (arith, before),
        All-get_elem? keys (λ j y r. elim (dec_le j i) [
          | yes le ↦ inl (ordered j i y x le r q)
          | no gt ↦ inr (laws.insert-after keys t (suc i) j y ordered e (omega arith) r)
        ]),
      )

  active_index-IsActive : (r : SearchResult) → search keys t ≡ r → IsActive (active_index r)
  unfolding active_index
  active_index-IsActive (found i) e = IsActive-found i e
  active_index-IsActive (insert i) e = IsActive-insert i e

suc_minus : (i : ℕ) → suc i - 1 ≡ i
suc_minus i = omega arith

-- With a point that is at or before the time and that no other comes between, or, where all are
-- after the time, with `otherwise`.
abbrev pub Finds : {A R : Type 0} → (A → ℕ) → List A → ℕ → (A → R) → R → R → Type 0
Finds {A} k points t of_point otherwise result =
    ((result ≡ otherwise) × All (λ x. t < x) (map k points))
    ⊎ ((p : A) × (i : ℕ) × (result ≡ of_point p)
        × (get_elem? points i ≡ some p)
        × (k p ≤ t)
        × All (λ y. (y ≤ k p) ⊎ (t < y)) (map k points))

module _ (search : BinarySearch) (laws : BinarySearchLaws search) {A : Type 0} (k : A → ℕ)
    (points : List A) (t : ℕ) (ordered : Ordered (map k points)) where
  point_at :
      (o : Option ℕ)
      → IsActive search laws (map k points) t ordered o
      → Finds k points t (λ p. some (some p)) (some none) (at points o)
  point_at none a = inl (refl, a)
  point_at (some i) (x, e, le, all) =
      let (p, q, s) = get_elem?-map k points i x e in
      inr (p, i, rw (q, at) refl, q, rw s le, rw s all)

  get_at :
      (i : ℕ)
      → IsActive search laws (map k points) t ordered (some i)
      → Finds k points t some (get_elem? points 0) (get_elem? points i)
  get_at i (x, e, le, all) =
      let (p, q, s) = get_elem?-map k points i x e in inr (p, i, q, q, rw s le, rw s all)

  first_or :
      (r : SearchResult)
      → search (map k points) t ≡ r
      → Finds k points t some (get_elem? points 0) (get_elem? points (index_or_first r))
  unfolding index_or_first
  first_or (found i) e = get_at i (IsActive-found search laws (map k points) t ordered i e)
  first_or (insert zero) e = inl (refl, IsActive-insert search laws (map k points) t ordered 0 e)
  first_or (insert (suc i)) e =
      rw (suc_minus i) (get_at i (IsActive-insert search laws (map k points) t ordered (suc i) e))

module _ (F64 : Type 0) (search : BinarySearch) (laws : BinarySearchLaws search)
    (key : F64 → ℕ) where
  -- In points that are sorted by time, `difficulty_point_at` does not panic and finds a point at or
  -- before the time, with no point between the two, or none where every point is after the time.
  pub difficulty_point_at-Finds :
      (points : List (DifficultyPoint F64)) (time : F64)
      → Ordered (map (λ (p : DifficultyPoint F64). key p.time) points)
      → Finds
          (λ (p : DifficultyPoint F64). key p.time)
          points
          (key time)
          (λ p. some (some p))
          (some none)
          (difficulty_point_at F64 search key points time)
  unfolding difficulty_point_at
  difficulty_point_at-Finds points time ordered =
      let k = λ (p : DifficultyPoint F64). key p.time in
      point_at search laws k points (key time) ordered _
        (active_index-IsActive search laws (map k points) (key time) ordered _ refl)

  -- The same of `effect_point_at`.
  pub effect_point_at-Finds :
      (points : List (EffectPoint F64)) (time : F64)
      → Ordered (map (λ (p : EffectPoint F64). key p.time) points)
      → Finds
          (λ (p : EffectPoint F64). key p.time)
          points
          (key time)
          (λ p. some (some p))
          (some none)
          (effect_point_at F64 search key points time)
  unfolding effect_point_at
  effect_point_at-Finds points time ordered =
      let k = λ (p : EffectPoint F64). key p.time in
      point_at search laws k points (key time) ordered _
        (active_index-IsActive search laws (map k points) (key time) ordered _ refl)

  -- In points that are sorted by time, `timing_point_at` finds a point at or before the time, with no
  -- point between the two, or where every point is after the time the first point, if there is one.
  pub timing_point_at-Finds :
      (points : List (TimingPoint F64)) (time : F64)
      → Ordered (map (λ (p : TimingPoint F64). key p.time) points)
      → Finds
          (λ (p : TimingPoint F64). key p.time)
          points
          (key time)
          some
          (get_elem? points 0)
          (timing_point_at F64 search key points time)
  unfolding timing_point_at
  timing_point_at-Finds points time ordered =
      first_or search laws (λ (p : TimingPoint F64). key p.time) points (key time) ordered _ refl
