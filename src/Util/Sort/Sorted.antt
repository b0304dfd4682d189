-- ===== src/Util/Sort/Sorted.antt =====
-- src/util/sort/mod.rs, the second loop of `heap_sort`: it takes the greatest element from the heap and
-- puts it before those that it took already.
use mathlib.Core.Path.{subst}
use native.Mathlib.Decide.{dec_le}
use old_ccv3_pp.Base.{
  ℕ, ◌+◌, ◌-◌, ◌/◌, ◌<◌, ◌≤◌, Option, List, length, get_elem?, ◌≡◌, refl, sym, ap, ◌∙◌, inl, inr,
  arith, ℕ_discrete,
}
use old_ccv3_pp.Util.Sort.{Ordering}
use old_ccv3_pp.Util.Sort.Swap.{Kept}
use old_ccv3_pp.Util.Sort.Order
use old_ccv3_pp.Util.Sort.Trade
use old_ccv3_pp.Util.Sort.Sift

module _ {A : Type 0} (cmp : A → A → Ordering) (order : Order.IsTotalOrder cmp) (lo : ℕ) where
  abbrev pub at : List A → ℕ → Option A
  at keys i = get_elem? keys (lo + i - 1)

  abbrev pub Ge : List A → ℕ → ℕ → Type 0
  Ge keys i j = Order.NotLess cmp (at keys i) (at keys j)

  abbrev pub Heap : List A → ℕ → Type 0
  Heap keys n = Order.HeapFrom cmp order lo keys 1 n

  -- After place `k` nothing is less than what stands before it.
  abbrev pub SortedFrom : List A → ℕ → ℕ → Type 0
  SortedFrom keys k n = (c d : ℕ) → 1 ≤ c → c < d → k < d → d ≤ n → Ge keys d c

  -- The root and place `k + 2` have traded: the rest is a heap but at the place of the root.
  pub HeapBut-traded :
      (keys keys' : List A) (k : ℕ)
      → ((i : ℕ) → 1 ≤ i → Trade.TradedAt cmp order lo keys keys' 1 (k + 2) i)
      → Heap keys (k + 2)
      → Order.HeapBut cmp order lo keys' 1 1 (k + 1)
  HeapBut-traded keys keys' k all heap = (
    λ c cn kc ne.
        Trade.Ge-moved cmp order lo keys keys' (c / 2) c (c / 2) c
          (same (c / 2) (omega arith) (omega arith)) (same c (omega arith) (omega arith))
          (heap c (omega arith) kc),
    λ c cn e h. absurd (omega (arith, h)),
  )
    where
      same : (j : ℕ) → 2 ≤ j → j ≤ k + 1 → at keys' j ≡ at keys j
      same j p q = elim (all j (omega arith)) [
        | inl (e, f) ↦ absurd (omega (arith, e, q))
        | inr (inl (e, ne, f)) ↦ absurd (omega (arith, e, p))
        | inr (inr (ne, ne', f)) ↦ f
      ]

  -- The root and place `k + 2` have traded, and the first `k + 1` places have moved.
  module _ (keys keys' keys'' : List A) (k n : ℕ) (fits : lo + n ≤ length keys) (kn : k + 2 ≤ n)
      (all : (j : ℕ) → 1 ≤ j → Trade.TradedAt cmp order lo keys keys' 1 (k + 2) j)
      (kept : Kept keys' lo (k + 1) keys'') (heap : Heap keys (k + 2))
      (tail : SortedFrom keys (k + 2) n) where
    outside_at : (d : ℕ) → k + 1 < d → at keys'' d ≡ at keys' d
    outside_at d h = kept.outside (lo + d - 1) (inr (omega arith))

    taken_at : at keys'' (k + 2) ≡ at keys 1
    taken_at = elim (all (k + 2) (omega arith)) [
      | inl (e, f) ↦ outside_at (k + 2) (omega arith) ∙ f
      | inr (inl (e, ne, f)) ↦ absurd (ne refl)
      | inr (inr (ne, ne', f)) ↦ absurd (ne' refl)
    ]

    tail_at : (d : ℕ) → k + 2 < d → at keys'' d ≡ at keys d
    tail_at d h = elim (all d (omega arith)) [
      | inl (e, f) ↦ absurd (omega (arith, e, h))
      | inr (inl (e, ne, f)) ↦ absurd (omega (arith, e, h))
      | inr (inr (ne, ne', f)) ↦ outside_at d (omega arith) ∙ f
    ]

    -- What stands at `c` in the end stood in the heap before.
    abbrev Origin : ℕ → Type 0
    Origin c = (j : ℕ) × (1 ≤ j) × (j ≤ k + 2) × (at keys'' c ≡ at keys j)

    traded-Origin : (c i : ℕ) → 1 ≤ i → i ≤ k + 2 → at keys'' c ≡ at keys' i → Origin c
    traded-Origin c i p q e = elim (all i p) [
      | inl (e', f) ↦ (1, omega arith, omega arith, e ∙ f)
      | inr (inl (e', ne, f)) ↦ (k + 2, omega arith, omega arith, e ∙ f)
      | inr (inr (ne, ne', f)) ↦ (i, p, q, e ∙ f)
    ]

    heap-Origin : (c : ℕ) → 1 ≤ c → c ≤ k + 2 → Origin c
    heap-Origin c p q = elim (ℕ_discrete c (k + 2)) [
      | yes e ↦ (1, omega arith, omega arith, ap (λ d. at keys'' d) e ∙ taken_at)
      | no ne ↦
          let (j, l, u, f) = kept.inside (lo + c - 1) (omega arith) (omega arith) in
          let place : j ≡ lo + (j - lo + 1) - 1 = omega arith in
          traded-Origin c (j - lo + 1) (omega arith) (omega arith)
            (f ∙ ap (λ d. get_elem? keys' d) place)
    ]

    Ge-moved :
        (c d i j : ℕ)
        → at keys'' d ≡ at keys i
        → at keys'' c ≡ at keys j
        → Ge keys i j
        → Ge keys'' d c
    Ge-moved c d i j e f g =
        subst (λ a. Order.NotLess cmp a (at keys'' c)) (sym e)
          (subst (λ b. Order.NotLess cmp (at keys i) b) (sym f) g)

    pub SortedFrom-taken : SortedFrom keys'' (k + 1) n
    SortedFrom-taken c d p cd kd dn = elim (ℕ_discrete d (k + 2)) [
      | yes e ↦
          let (j, pj, uj, f) = heap-Origin c p (omega arith) in
          Ge-moved c d 1 j (ap (λ l. at keys'' l) e ∙ taken_at) f (
            Sift.root_greatest cmp order lo j keys (k + 2) j (omega arith) heap pj uj (omega arith))
      | no ne ↦ elim (dec_le c (k + 2)) [
        | yes le ↦
            let (j, pj, uj, f) = heap-Origin c p le in
            Ge-moved c d d j (tail_at d (omega arith)) f
              (tail j d pj (omega arith) (omega arith) dn)
        | no gt ↦
            Ge-moved c d d c (tail_at d (omega arith)) (tail_at c (omega arith))
              (tail c d p cd (omega arith) dn)
      ]
    ]
