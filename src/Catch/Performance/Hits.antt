-- ===== src/Catch/Performance/Hits.antt =====
-- The counts that `generate_state` completes: fruits and droplets with the misses, and tiny droplets.
use old_ccv3_pp.Base.{
  ℕ, ◌+◌, ◌*◌, ◌≤◌, ◌<◌, true, Option, none, some, ◌==◌, add32, sub32, u32_mod, max, ◌≡◌, refl,
  arith, Bool-cases, inl, inr, ℕ_discrete,
}
use old_ccv3_pp.Base.Loops.{for_inclusive_first, for_inclusive_inv}
use old_ccv3_pp.Float.{Floats, FloatLaws}
use old_ccv3_pp.Any.Difficulty.Inspect.{OptAll}
use old_ccv3_pp.Catch.Performance.{
  CatchDifficultyAttributes, fruits_and_droplets, accuracy, Best, try_tiny_droplets,
  find_best_tiny_droplets, tiny_droplets,
}

-- Whatever was given, fruits, droplets and misses make up the map's fruits and droplets, and no
-- subtraction wraps.
pub fruits_and_droplets-sum :
    (o_fruits o_droplets : Option ℕ) (fruits droplets misses : ℕ)
    → fruits + droplets < 2 * 1000000000
    → OptAll (λ n. n < 1000000000) o_fruits
    → OptAll (λ n. n < 1000000000) o_droplets
    → misses ≤ fruits + droplets
    → let (n_fruits, n_droplets) = fruits_and_droplets o_fruits o_droplets fruits droplets misses in
      n_fruits + n_droplets + misses ≡ fruits + droplets
unfolding fruits_and_droplets
fruits_and_droplets-sum (some a) (some b) fruits droplets misses h ha hb le = omega arith
fruits_and_droplets-sum (some a) none fruits droplets misses h ha hb le = omega arith
fruits_and_droplets-sum none (some b) fruits droplets misses h ha hb le = omega arith
fruits_and_droplets-sum none none fruits droplets misses h ha hb le = omega arith

-- Counts that make up the map's are left as they are.
pub fruits_and_droplets_fixed :
    (a b fruits droplets misses : ℕ)
    → fruits + droplets < 2 * 1000000000
    → a + b + misses ≡ fruits + droplets
    → fruits_and_droplets (some a) (some b) fruits droplets misses ≡ (a, b)
unfolding fruits_and_droplets
fruits_and_droplets_fixed a b fruits droplets misses h e = λ i. (first i, second i)
  where
    first : (fruits_and_droplets (some a) (some b) fruits droplets misses).0 ≡ a
    first = omega arith

    second : (fruits_and_droplets (some a) (some b) fruits droplets misses).1 ≡ b
    second = omega arith

-- The tiny droplets and misses that were claimed, where both are given and no accuracy is.
abbrev pub claimed_tiny {ℓ} : {F64 : Type ℓ} → Option ℕ → Option ℕ → Option F64 → ℕ
claimed_tiny (some t) (some tm) none = t + tm
claimed_tiny _ _ _ = 0

module _ (f : Floats) (laws : FloatLaws f) where
  open f use {F64, abs, sub, lt, infinity, floor, ceil, to_u32}

  accuracy-InUnit :
      (a b t tm misses : ℕ)
      → a + b + t + tm + misses < u32_mod
      → 0 < a + b + t + tm + misses
      → laws.InUnit (accuracy f a b t tm misses)
  unfolding accuracy
  accuracy-InUnit a b t tm misses h p =
      laws.div-InUnit _ _ (omega arith) (omega arith) (omega arith)

  module _ (a b misses : ℕ) (attrs : CatchDifficultyAttributes F64)
      (small : a + b + misses + attrs.n_tiny_droplets < u32_mod) where
    abbrev Sums : Best f → Type 0
    Sums (d, t, tm) = t + tm ≡ attrs.n_tiny_droplets

    try_keeps :
        (acc : F64) (j : ℕ) (best : Best f)
        → j ≤ attrs.n_tiny_droplets
        → Sums best
        → Sums (try_tiny_droplets f a b misses attrs acc j best)
    unfolding try_tiny_droplets
    try_keeps acc j (d, t, tm) h s =
        elim (Bool-cases
          (lt (abs (sub acc (accuracy f a b j (sub32 attrs.n_tiny_droplets j) misses))) d)) [
            | inl e ↦ rw e (omega arith)
            | inr e ↦ rw e s
          ]

    try_first :
        (acc : F64) (j t tm : ℕ)
        → laws.InUnit acc
        → 0 < attrs.n_tiny_droplets
        → j ≤ attrs.n_tiny_droplets
        → Sums (try_tiny_droplets f a b misses attrs acc j (infinity, t, tm))
    unfolding try_tiny_droplets
    try_first acc j t tm u p h =
        let closer =
          laws.dist-lt-infinity acc (accuracy f a b j (sub32 attrs.n_tiny_droplets j) misses) u (
            accuracy-InUnit a b j (sub32 attrs.n_tiny_droplets j) misses (omega arith)
              (omega arith)) in
        rw closer (omega arith)

    -- The search gives tiny droplets and misses that make up the map's.
    find_best-sum :
        (acc : F64)
        → laws.InUnit acc
        → let (t, tm) = find_best_tiny_droplets f a b misses attrs acc in
          t + tm ≡ attrs.n_tiny_droplets
    unfolding find_best_tiny_droplets
    find_best-sum acc u = elim (ℕ_discrete attrs.n_tiny_droplets 0) [
      | yes z ↦
          for_inclusive_inv Sums (try_tiny_droplets f a b misses attrs acc) _ _ (infinity, 0, 0)
            (λ j t lo hi s. try_keeps acc j t (omega arith) s) (omega (arith, laws.floor-le-ceil))
            (omega arith)
      | no p ↦
          for_inclusive_first Sums (try_tiny_droplets f a b misses attrs acc) _ _ (infinity, 0, 0)
            (λ j t lo hi s. try_keeps acc j t (omega arith) s) (omega (arith, laws.floor-le-ceil))
            (try_first acc _ 0 0 u (omega arith) (omega arith))
    ]

    pub tiny_droplets-sum :
        (ot otm : Option ℕ) (acc : Option F64)
        → OptAll (λ n. n < 1000000000) ot
        → OptAll (λ n. n < 1000000000) otm
        → OptAll (laws.InUnit) acc
        → let (t, tm) = tiny_droplets f a b misses attrs ot otm acc in
          t + tm ≡ max attrs.n_tiny_droplets (claimed_tiny ot otm acc)
    unfolding tiny_droplets
    tiny_droplets-sum (some t) (some tm) (some acc) ht htm u =
        elim (Bool-cases (add32 t tm == attrs.n_tiny_droplets)) [
          | inl e ↦ rw e (ground arith)
          | inr e ↦ rw e (omega (arith, find_best-sum acc u))
        ]
    tiny_droplets-sum (some t) (some tm) none ht htm u = omega arith
    tiny_droplets-sum (some t) none none ht htm u = omega arith
    tiny_droplets-sum (some t) none (some acc) ht htm u = omega arith
    tiny_droplets-sum none (some tm) none ht htm u = omega arith
    tiny_droplets-sum none (some tm) (some acc) ht htm u = omega arith
    tiny_droplets-sum none none (some acc) ht htm u = omega (arith, find_best-sum acc u)
    tiny_droplets-sum none none none ht htm u = omega arith

    -- Counts that make up the map's, or more where there is no accuracy, are left as they are.
    pub tiny_droplets_fixed :
        (t tm : ℕ) (acc : Option F64)
        → attrs.n_tiny_droplets ≤ t + tm
        → t + tm < 2 * 1000000000
        → OptAll (λ _. t + tm ≡ attrs.n_tiny_droplets) acc
        → tiny_droplets f a b misses attrs (some t) (some tm) acc ≡ (t, tm)
    unfolding tiny_droplets
    tiny_droplets_fixed t tm none le h e = ground arith
    tiny_droplets_fixed t tm (some acc) le h e =
        let same : (add32 t tm == attrs.n_tiny_droplets) ≡ true = ground arith in rw same refl
