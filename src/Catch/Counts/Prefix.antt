-- ===== src/Catch/Counts/Prefix.antt =====
-- The counts of a prefix of the objects (src/catch/attributes.rs): the builder that stops after some
-- objects and the builder that counts per object agree.
use old_ccv3_pp.Base.{
  ℕ, zero, suc, ◌+◌, ◌-◌, ◌≤◌, ◌<◌, true, false, some, List, [], ◌∷◌, ◌++◌, ltb, if◌then◌else◌,
  add32, ◌≡◌, refl, sym, ap, ◌∙◌, arith, length, length-append, take, take_all, lt→ltb, dec_lt,
}
use mathlib.Core.Option
use mathlib.Core.Option.{some-injective}
use old_ccv3_pp.Catch.Performance.{CatchDifficultyAttributes}
use old_ccv3_pp.Catch.Counts.{
  ObjectCount, GradualObjectCount, ObjectCountBuilder, regular, gradual, no_objects, no_object,
  new_regular, new_gradual, into_regular, into_gradual, record_fruit, record_droplet,
  record_tiny_droplets, set_object_count, add_object_count,
}

-- What the conversion of a map records, in order.
pub data Event : Type 0 where
  fruit droplet : Event
  tiny : ℕ → Event

abbrev pub step : ObjectCountBuilder → Event → ObjectCountBuilder
step b fruit = record_fruit b
step b droplet = record_droplet b
step b (tiny n) = record_tiny_droplets b n

abbrev pub record_all : ObjectCountBuilder → List Event → ObjectCountBuilder
record_all b [] = b
record_all b (e ∷ es) = record_all (step b e) es

-- The sum of counts per object.
abbrev plus : ObjectCount → GradualObjectCount → ObjectCount
plus c g = record {
  fruits = if g.fruit then add32 c.fruits 1 else c.fruits;
  droplets = if g.fruit then c.droplets else add32 c.droplets 1;
  tiny_droplets = add32 c.tiny_droplets g.tiny_droplets;
}

abbrev total_from : ObjectCount → List GradualObjectCount → ObjectCount
total_from c [] = c
total_from c (g ∷ gs) = total_from (plus c g) gs

total_from-snoc :
    (c : ObjectCount) (gs : List GradualObjectCount) (g : GradualObjectCount)
    → total_from c (gs ++ (g ∷ [])) ≡ plus (total_from c gs) g
total_from-snoc c [] g = refl
total_from-snoc c (h ∷ gs) g = total_from-snoc (plus c h) gs g

take-append_le :
    {A : Type 0} (n : ℕ) (xs ys : List A) → n ≤ length xs → take n (xs ++ ys) ≡ take n xs
take-append_le zero xs ys h = refl
take-append_le (suc n) [] ys h = absurd (omega arith)
take-append_le (suc n) (x ∷ xs) ys h = rw (take-append_le n xs ys (omega arith)) refl

ltb-false : (a b : ℕ) → b ≤ a → ltb a b ≡ false
ltb-false a b h = ground arith

-- The builder that stops after `k` objects, where the other one has come to `count` and `all`.
abbrev expected : ℕ → GradualObjectCount → List GradualObjectCount → ObjectCountBuilder
expected k count all =
    let c = total_from no_objects all in
    if ltb (length all) k
    then regular (record c { tiny_droplets = add32 c.tiny_droplets count.tiny_droplets })
        (k - length all)
    else regular (total_from no_objects (take k all)) 0

expected_past :
    (k : ℕ) (count : GradualObjectCount) (all : List GradualObjectCount)
    → k ≤ length all
    → expected k count all ≡ regular (total_from no_objects (take k all)) 0
expected_past k count all h = rw (ltb-false (length all) k h) refl

expected_before :
    (k : ℕ) (count : GradualObjectCount) (all : List GradualObjectCount)
    → length all < k
    → let c = total_from no_objects all in
      expected k count all
      ≡ regular
          (record c { tiny_droplets = add32 c.tiny_droplets count.tiny_droplets })
          (k - length all)
expected_before k count all h = rw (lt→ltb (length all) k h) refl

length-snoc :
    (all : List GradualObjectCount) (g : GradualObjectCount)
    → length (all ++ (g ∷ [])) ≡ length all + 1
length-snoc all g = length-append all (g ∷ [])

add32_zero : (a b : ℕ) → add32 (add32 a b) 0 ≡ add32 a b
add32_zero a b = omega arith

-- An object that ends the count `g` is one more object for the other builder.
expected_next :
    (k : ℕ) (g : GradualObjectCount) (all : List GradualObjectCount)
    → length all < k
    → expected k no_object (all ++ (g ∷ []))
      ≡ regular (plus (total_from no_objects all) g) (k - length all - 1)
expected_next k g all h = elim (dec_lt (suc (length all)) k) [
  | yes lt ↦
      let c = plus (total_from no_objects all) g in
      let sum = total_from-snoc no_objects all g in
      let zero_tiny = add32_zero (total_from no_objects all).tiny_droplets g.tiny_droplets in
      let left : k - length (all ++ (g ∷ [])) ≡ k - length all - 1 =
        omega (arith, length-snoc all g) in
      expected_before k no_object (all ++ (g ∷ [])) (omega (arith, length-snoc all g))
      ∙ (λ i. regular (record (sum i) { tiny_droplets = add32 (sum i).tiny_droplets 0 }) (left i))
      ∙ (λ i. regular (record c { tiny_droplets = zero_tiny i }) (k - length all - 1))
  | no ge ↦
      let whole = take_all k (all ++ (g ∷ [])) (omega (arith, length-snoc all g)) in
      let none_left : 0 ≡ k - length all - 1 = omega arith in
      expected_past k no_object (all ++ (g ∷ [])) (omega (arith, length-snoc all g))
      ∙ (λ i. regular (total_from no_objects (whole i)) (none_left i))
      ∙ (λ i. regular (total_from-snoc no_objects all g i) (k - length all - 1))
]

-- Once `k` objects are there, one more changes nothing.
expected_after :
    (k : ℕ) (count g : GradualObjectCount) (all : List GradualObjectCount)
    → k ≤ length all
    → expected k no_object (all ++ (g ∷ [])) ≡ expected k count all
expected_after k count g all h =
    expected_past k no_object (all ++ (g ∷ [])) (omega (arith, length-snoc all g))
    ∙ (λ i. regular (total_from no_objects (take-append_le k all (g ∷ []) h i)) 0)
    ∙ sym (expected_past k count all h)

-- The builder that `gradual count all` stands for, if it stops after `k` objects.
abbrev regular_of : ℕ → ObjectCountBuilder → ObjectCountBuilder
regular_of k (regular count take) = regular count take
regular_of k (gradual count all) = expected k count all

positive : (k n : ℕ) → n < k → ltb 0 (k - n) ≡ true
positive k n h = ground arith

add32_assoc : (a b c : ℕ) → add32 (add32 a b) c ≡ add32 a (add32 b c)
add32_assoc a b c = omega arith

droplet_counts :
    (c : ObjectCount) (g : GradualObjectCount) (n : ℕ)
    → g.fruit ≡ false
    → regular
        (record c {
          droplets = add32 c.droplets 1;
          tiny_droplets = add32 c.tiny_droplets g.tiny_droplets;
        })
        n
      ≡ regular (plus c g) n
droplet_counts c g n z = rw z refl

step_before :
    (k : ℕ) (count : GradualObjectCount) (all : List GradualObjectCount) (e : Event)
    → count.fruit ≡ false
    → length all < k
    → step (expected k count all) e ≡ regular_of k (step (gradual count all) e)
unfolding record_fruit record_droplet record_tiny_droplets
step_before k count all fruit z h =
    rw (expected_before k count all h, positive k (length all) h)
      (sym (expected_next k (record count { fruit = true }) all h))
step_before k count all droplet z h =
    rw (expected_before k count all h, positive k (length all) h)
      (droplet_counts (total_from no_objects all) count (k - length all - 1) z
        ∙ sym (expected_next k count all h))
step_before k count all (tiny n) z h =
    rw (expected_before k count all h, positive k (length all) h)
      ((λ i.
          regular
            (record (total_from no_objects all) {
              tiny_droplets =
                  add32_assoc (total_from no_objects all).tiny_droplets count.tiny_droplets n i;
            })
            (k - length all))
        ∙ sym (
            expected_before k (record count { tiny_droplets = add32 count.tiny_droplets n }) all h))

step_after :
    (k : ℕ) (count : GradualObjectCount) (all : List GradualObjectCount) (e : Event)
    → k ≤ length all
    → step (expected k count all) e ≡ regular_of k (step (gradual count all) e)
unfolding record_fruit record_droplet record_tiny_droplets
step_after k count all fruit h = rw (expected_past k count all h) (
    sym
      (expected_after k count (record count { fruit = true }) all h ∙ expected_past k count all h))
step_after k count all droplet h =
    rw (expected_past k count all h)
      (sym (expected_after k count count all h ∙ expected_past k count all h))
step_after k count all (tiny n) h =
    rw (expected_past k count all h)
      (sym (expected_past k (record count { tiny_droplets = add32 count.tiny_droplets n }) all h))

step-expected :
    (k : ℕ) (count : GradualObjectCount) (all : List GradualObjectCount) (e : Event)
    → count.fruit ≡ false
    → step (expected k count all) e ≡ regular_of k (step (gradual count all) e)
step-expected k count all e z = elim (dec_lt (length all) k) [
  | yes lt ↦ step_before k count all e z lt
  | no ge ↦ step_after k count all e (omega arith)
]

record_all-expected :
    (k : ℕ) (count : GradualObjectCount) (all : List GradualObjectCount) (es : List Event)
    → count.fruit ≡ false
    → (count' : GradualObjectCount) × (all' : List GradualObjectCount) × (record_all
          (gradual count all)
          es
        ≡ gradual count' all')
      × (record_all (expected k count all) es ≡ expected k count' all')
unfolding record_fruit record_droplet record_tiny_droplets
record_all-expected k count all [] z = (count, all, refl, refl)
record_all-expected k count all (fruit ∷ es) z =
    rw (step-expected k count all fruit z) (record_all-expected k no_object _ es refl)
record_all-expected k count all (droplet ∷ es) z =
    rw (step-expected k count all droplet z) (record_all-expected k no_object _ es refl)
record_all-expected k count all (tiny n ∷ es) z =
    rw (step-expected k count all (tiny n) z) (record_all-expected k _ all es z)

minus_zero : (k : ℕ) → k - 0 ≡ k
minus_zero k = omega arith

expected_start : (k : ℕ) → expected k no_object [] ≡ regular no_objects k
expected_start zero = refl
expected_start (suc k) =
    expected_before (suc k) no_object [] (omega arith)
    ∙ (λ i. regular no_objects (minus_zero (suc k) i))

module _ {F64 : Type 0} where
  -- `add_object_count` for each of the objects
  abbrev pub add_all :
      CatchDifficultyAttributes F64 → List GradualObjectCount → CatchDifficultyAttributes F64
  add_all attrs [] = attrs
  add_all attrs (g ∷ gs) = add_all (add_object_count attrs g) gs

  add_all-total :
      (attrs : CatchDifficultyAttributes F64) (c : ObjectCount) (gs : List GradualObjectCount)
      → add_all (set_object_count attrs c) gs ≡ set_object_count attrs (total_from c gs)
  unfolding set_object_count add_object_count
  add_all-total attrs c [] = refl
  add_all-total attrs c (g ∷ gs) = add_all-total attrs (plus c g) gs

  -- Whatever a map records, where the builder per object has counted at least `k` objects, the builder
  -- that stops after `k` objects sets the attributes that adding the first `k` counts gives.
  pub regular-prefix :
      (attrs : CatchDifficultyAttributes F64) (es : List Event) (all : List GradualObjectCount)
      (k : ℕ)
      → into_gradual (record_all new_gradual es) ≡ some all
      → k ≤ length all
      → Option.map (set_object_count attrs) (into_regular (record_all (new_regular k) es))
        ≡ some (add_all (set_object_count attrs no_objects) (take k all))
  unfolding new_gradual new_regular into_gradual into_regular
  regular-prefix attrs es all k h b =
      let (count', all', e, r) = record_all-expected k no_object [] es refl in
      let same : all' ≡ all = some-injective all' all (ap into_gradual (sym e) ∙ h) in
      let stopped : record_all (regular no_objects k) es
          ≡ regular (total_from no_objects (take k all)) 0 =
        ap (λ b. record_all b es) (sym (expected_start k))
        ∙ r
        ∙ expected_past k count' all' (rw same b)
        ∙ ap (λ (gs : List GradualObjectCount). regular (total_from no_objects (take k gs)) 0)
            same in
      ap (λ b. Option.map (set_object_count attrs) (into_regular b)) stopped
      ∙ ap some (sym (add_all-total attrs no_objects (take k all)))
