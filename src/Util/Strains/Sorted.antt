-- ===== src/Util/Strains/Sorted.antt =====
-- What removing the zeros and sorting leave, and the sum.
use mathlib.Core.List.{Perm}
use old_ccv3_pp.Base.{
  ℕ, zero, suc, ◌%◌, ◌≤◌, true, false, List, [], ◌∷◌, ltb, leb, ◌++◌, if◌then◌else◌, ◌≡◌, refl, sym,
  ap, ◌∙◌, arith, replicate, Bool-cases, inl, inr, map,
}
use old_ccv3_pp.Base.Sort.{All, All-append, IsSorted, sort_by-perm, sort_by-IsSorted}
use old_ccv3_pp.Util.Strains.Entry
use old_ccv3_pp.Util.Strains.Entry.{StrainsEntry, sign_bit}
use old_ccv3_pp.Util.Strains.{StrainsVec, retain_values, desc, sorted_non_zero_iter, sum, sum_from}
use old_ccv3_pp.Util.Strains.Refine.{expand, expand_entry, IsEntry, IsWellFormed}

-- The floats that are not zero.
pub positives : List ℕ → List ℕ
positives [] = []
positives (v ∷ vs) = let rest = positives vs in if ltb 0 v then v ∷ rest else rest

positives-zeros : (n : ℕ) (vs : List ℕ) → positives (replicate n 0 ++ vs) ≡ positives vs
unfolding positives
positives-zeros zero vs = refl
positives-zeros (suc n) vs = positives-zeros n vs

-- Retaining the values keeps exactly the floats that are not zero.
retain_values-expand :
    (es : List StrainsEntry) → All IsEntry es → retain_values es ≡ positives (expand es)
unfolding retain_values positives
retain_values-expand [] h = refl
retain_values-expand (e ∷ es) h = elim (Bool-cases (leb sign_bit e)) [
  | inl z ↦ rw z (retain_values-expand es h.1 ∙ sym (positives-zeros (e % sign_bit) (expand es)))
  | inr z ↦
      let p : ltb 0 e ≡ true = ground arith in
      rw (z, p) (ap (λ r. e ∷ r) (retain_values-expand es h.1))
]

map-value : (es : List StrainsEntry) → map Entry.value es ≡ es
unfolding Entry.value
map-value [] = refl
map-value (e ∷ es) = ap (λ r. e ∷ r) (map-value es)

desc_asym : (a b : ℕ) → desc a b ≡ true → desc b a ≡ false
unfolding desc Entry.value
desc_asym a b h = ground arith

desc_trans : (a b c : ℕ) → desc b a ≡ false → desc c b ≡ false → desc c a ≡ false
unfolding desc Entry.value
desc_trans a b c h k = ground arith

-- Of a well-formed vector, `sorted_non_zero_iter` gives exactly the floats that are not zero, from
-- the largest to the smallest.
pub sorted_non_zero_iter_lem :
    (s : StrainsVec)
    → IsWellFormed s
    → IsSorted desc (sorted_non_zero_iter s).1
      × Perm (sorted_non_zero_iter s).1 (positives (expand s.inner))
unfolding sorted_non_zero_iter
sorted_non_zero_iter_lem s v =
    rw (map-value, ← retain_values-expand s.inner v.entries)
      (
        sort_by-IsSorted desc desc_asym desc_trans (retain_values s.inner),
        sort_by-perm desc (retain_values s.inner),
      )

-- The bit pattern of the infinity of `f64`; those of the numbers from +0.0 on are below.
abbrev pub infinity : ℕ
infinity = 0x7FF0000000000000

-- What IEEE 754 says of adding floats that are +0.0 or more and not NaN, by their bit patterns.
pub record IsFloatAdd (add : ℕ → ℕ → ℕ) : Type 0 where
  pub add-zero : (x : ℕ) → x ≤ infinity → add x 0 ≡ x
  pub closed : (x y : ℕ) → x ≤ infinity → y ≤ infinity → add x y ≤ infinity

-- The pattern of a float that is +0.0 or more and not NaN
abbrev pub IsNonnegative : ℕ → Type 0
IsNonnegative v = v ≤ infinity

module _ (add : ℕ → ℕ → ℕ) where
  pub fold_add : ℕ → List ℕ → ℕ
  fold_add acc [] = acc
  fold_add acc (v ∷ vs) = fold_add (add acc v) vs

  module _ (law : IsFloatAdd add) where
    fold_add-zeros :
        (acc n : ℕ) (vs : List ℕ)
        → IsNonnegative acc
        → fold_add acc (replicate n 0 ++ vs) ≡ fold_add acc vs
    unfolding fold_add
    fold_add-zeros acc zero vs h = refl
    fold_add-zeros acc (suc n) vs h =
        ap (λ a. fold_add a (replicate n 0 ++ vs)) (law.add-zero acc h) ∙ fold_add-zeros acc n vs h

    sum_from-expand :
        (acc : ℕ) (es : List StrainsEntry)
        → IsNonnegative acc
        → All IsNonnegative (expand es)
        → sum_from add acc es ≡ fold_add acc (expand es)
    unfolding fold_add sum_from Entry.value
    sum_from-expand acc [] h k = refl
    sum_from-expand acc (e ∷ es) h k = elim (Bool-cases (leb sign_bit e)) [
      | inl z ↦ rw z (
          sum_from-expand acc es h (All-append IsNonnegative (expand_entry e) (expand es) k).1
          ∙ sym (fold_add-zeros acc (e % sign_bit) (expand es) h))
      | inr z ↦
          let k' : IsNonnegative e × All IsNonnegative (expand es) = rw z at k in
          rw z (sum_from-expand (add acc e) es (law.closed acc e h k'.0) k'.1)
    ]

    -- Where no float of the vector is negative or NaN, `sum` is the sum of the whole list from the
    -- left, although it leaves the zeros out. Of the addition it asks that adding +0.0 to a float
    -- that is +0.0 or more changes nothing, and that the sum of two such floats is one
    -- (`IsFloatAdd`).
    pub sum_lem :
        (s : StrainsVec)
        → All IsNonnegative (expand s.inner)
        → sum add s ≡ fold_add 0 (expand s.inner)
    unfolding sum
    sum_lem s h = sum_from-expand 0 s.inner (omega arith) h
