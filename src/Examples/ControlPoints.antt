-- ===== src/Examples/ControlPoints.antt =====
-- A binary search that meets its documentation, and control points on it.
use old_ccv3_pp.Base.{
  ℕ, zero, suc, ◌≤◌, ◌<◌, ◌≢◌, Option, some, none, true, false, List, [], ◌∷◌, ltb, ◌==◌,
  if◌then◌else◌, get_elem?, get_elem?_within, length, ◌≡◌, refl, sym, ap, ◌∙◌, arith, ltb→lt,
  Bool-cases, inl, inr,
}
use mathlib.Core.Option.{some-injective}
use old_ccv3_pp.Model.ControlPoint.{
  SearchResult, found, insert, BinarySearchLaws, Ordered, TimingPoint, DifficultyPoint,
  timing_point_at, difficulty_point_at,
}
use old_ccv3_pp.Model.ControlPoint.Active.{Finds, timing_point_at-Finds, difficulty_point_at-Finds}

below : List ℕ → ℕ → ℕ
below [] t = 0
below (x ∷ xs) t = let rest = below xs t in if ltb x t then suc rest else 0

below_le : (keys : List ℕ) (t : ℕ) → below keys t ≤ length keys
unfolding below
below_le [] t = omega arith
below_le (x ∷ xs) t = elim (Bool-cases (ltb x t)) [
  | inl e ↦ rw e (omega (arith, below_le xs t))
  | inr e ↦ rw e (omega arith)
]

below-suc : (y t : ℕ) (ys : List ℕ) → ltb y t ≡ true → below (y ∷ ys) t ≡ suc (below ys t)
unfolding below
below-suc y t ys l = rw l refl

below-none : (y t : ℕ) (ys : List ℕ) → ltb y t ≡ false → below (y ∷ ys) t ≡ 0
unfolding below
below-none y t ys l = rw l refl

below_before : (keys : List ℕ) (t j x : ℕ) → j < below keys t → get_elem? keys j ≡ some x → x < t
unfolding below
below_before [] t j x h e = absurd (omega arith)
below_before (y ∷ ys) t zero x h e = elim (Bool-cases (ltb y t)) [
  | inl l ↦ omega (arith, ltb→lt y t l, some-injective y x e)
  | inr l ↦ absurd (omega (arith, below-none y t ys l, h))
]
below_before (y ∷ ys) t (suc j) x h e = elim (Bool-cases (ltb y t)) [
  | inl l ↦ below_before ys t j x (omega (arith, below-suc y t ys l, h)) e
  | inr l ↦ absurd (omega (arith, below-none y t ys l, h))
]

below_at : (keys : List ℕ) (t x : ℕ) → get_elem? keys (below keys t) ≡ some x → t ≤ x
below_at [] t x e = cc
below_at (y ∷ ys) t x e = elim (Bool-cases (ltb y t)) [
  | inl l ↦ below_at ys t x (sym (ap (get_elem? (y ∷ ys)) (below-suc y t ys l)) ∙ e)
  | inr l ↦
      let same = some-injective y x (sym (ap (get_elem? (y ∷ ys)) (below-none y t ys l)) ∙ e) in
      ground arith
]

pick : Option ℕ → ℕ → ℕ → SearchResult
pick none n t = insert n
pick (some x) n t = if x == t then found n else insert n

search : List ℕ → ℕ → SearchResult
search keys t = pick (get_elem? keys (below keys t)) (below keys t) t

position : SearchResult → ℕ
position (found i) = i
position (insert i) = i

pick_same : (x n t : ℕ) → (x == t) ≡ true → pick (some x) n t ≡ found n
unfolding pick
pick_same x n t q = rw q refl

pick_other : (x n t : ℕ) → (x == t) ≡ false → pick (some x) n t ≡ insert n
unfolding pick
pick_other x n t q = rw q refl

pick-found : (o : Option ℕ) (n t i : ℕ) → pick o n t ≡ found i → (n ≡ i) × (o ≡ some t)
unfolding pick position
pick-found none n t i e = cc
pick-found (some x) n t i e = elim (Bool-cases (x == t)) [
  | inl q ↦ (ap position (sym (pick_same x n t q) ∙ e), ap some (ground arith))
  | inr q ↦ absurd (cc (pick_other x n t q, e))
]

pick-insert :
    (o : Option ℕ) (n t i : ℕ) → pick o n t ≡ insert i → (n ≡ i) × ((x : ℕ) → o ≡ some x → x ≢ t)
unfolding pick position
pick-insert none n t i e = (ap position e, λ x h. cc)
pick-insert (some x) n t i e = elim (Bool-cases (x == t)) [
  | inl q ↦ absurd (cc (pick_same x n t q, e))
  | inr q ↦ (
    ap position (sym (pick_other x n t q) ∙ e),
    λ y h z. absurd (ground (arith, some-injective x y h)),
  )
]

in_range : (keys : List ℕ) (j x : ℕ) → get_elem? keys j ≡ some x → j < length keys
in_range [] j x e = cc
in_range (y ∷ ys) zero x e = omega arith
in_range (y ∷ ys) (suc j) x e = omega (arith, in_range ys j x e)

search-found : (keys : List ℕ) (t i : ℕ) → search keys t ≡ found i → get_elem? keys i ≡ some t
unfolding search
search-found keys t i e =
    let (n, o) = pick-found (get_elem? keys (below keys t)) (below keys t) t i e in
    ap (get_elem? keys) (sym n) ∙ o

search_le : (keys : List ℕ) (t i : ℕ) → search keys t ≡ insert i → i ≤ length keys
unfolding search
search_le keys t i e =
    let (n, o) = pick-insert (get_elem? keys (below keys t)) (below keys t) t i e in
    omega (arith, n, below_le keys t)

search_before :
    (keys : List ℕ) (t i j x : ℕ)
    → Ordered keys
    → search keys t ≡ insert i
    → j < i
    → get_elem? keys j ≡ some x
    → x < t
unfolding search
search_before keys t i j x ordered e h q =
    let (n, o) = pick-insert (get_elem? keys (below keys t)) (below keys t) t i e in
    below_before keys t j x (omega (arith, n)) q

search_after :
    (keys : List ℕ) (t i j x : ℕ)
    → Ordered keys
    → search keys t ≡ insert i
    → i ≤ j
    → get_elem? keys j ≡ some x
    → t < x
unfolding search
search_after keys t i j x ordered e h q =
    let n = below keys t in
    let (same, o) = pick-insert (get_elem? keys n) n t i e in
    let (y, r) = get_elem?_within keys n (omega (arith, same, in_range keys j x q)) in
    let le = below_at keys t y r in
    let ne = o y r in let le' = ordered n j y x (omega (arith, same)) r q in ground arith

search_laws : BinarySearchLaws search
search_laws = record {
  found-equal = search-found;
  insert-le = search_le;
  insert-before = search_before;
  insert-after = search_after;
}

abbrev points : List (DifficultyPoint ℕ)
points =
    record { time = 10; slider_velocity = 1; bpm_multiplier = 1; generate_ticks = true }
    ∷ record { time = 25; slider_velocity = 2; bpm_multiplier = 1; generate_ticks = true }
    ∷ []

abbrev timing_points : List (TimingPoint ℕ)
timing_points = record { time = 10; beat_len = 300 } ∷ record { time = 25; beat_len = 400 } ∷ []

ordered : Ordered (10 ∷ 25 ∷ [])
ordered zero zero x y h p q = omega (arith, some-injective 10 x p, some-injective 10 y q)
ordered zero (suc zero) x y h p q = omega (arith, some-injective 10 x p, some-injective 25 y q)
ordered (suc i) zero x y h p q = absurd (omega arith)
ordered (suc zero) (suc zero) x y h p q =
    omega (arith, some-injective 25 x p, some-injective 25 y q)
ordered i (suc (suc j)) x y h p q = absurd cc
ordered (suc (suc i)) (suc zero) x y h p q = absurd (omega arith)

difficulty_point_at-Finds_example :
    Finds
      (λ (p : DifficultyPoint ℕ). p.time)
      points
      20
      (λ p. some (some p))
      (some none)
      (difficulty_point_at ℕ search (λ t. t) points 20)
difficulty_point_at-Finds_example =
    difficulty_point_at-Finds ℕ search search_laws (λ t. t) points 20 ordered

timing_point_at-Finds_example :
    Finds
      (λ (p : TimingPoint ℕ). p.time)
      timing_points
      5
      some
      (get_elem? timing_points 0)
      (timing_point_at ℕ search (λ t. t) timing_points 5)
timing_point_at-Finds_example =
    timing_point_at-Finds ℕ search search_laws (λ t. t) timing_points 5 ordered
