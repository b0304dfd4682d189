-- ===== src/Util/Sort/Trade.antt =====
-- src/util/sort/mod.rs, `down_heap`: an element that trades places with its greater child.
use old_ccv3_pp.Base.{ℕ, ◌+◌, ◌-◌, ◌/◌, ◌≤◌, List, ◌≡◌, refl, sym, ◌⊎◌, inl, inr, arith, ℕ_discrete}
use mathlib.Core.Logic.{◌≢◌}
use mathlib.Core.Path.{subst}
use old_ccv3_pp.Util.Sort.{Ordering}
use old_ccv3_pp.Util.Sort.Swap.{Traded}
use old_ccv3_pp.Util.Sort.Order.{IsTotalOrder, NotLess, at, Ge, HeapBut}

module _ {A : Type 0} (cmp : A → A → Ordering) (order : IsTotalOrder cmp) (lo : ℕ) where
  -- Where a place of the heap has its element from, once `i` and `m` have traded
  abbrev pub TradedAt : List A → List A → ℕ → ℕ → ℕ → Type 0
  TradedAt keys keys' i m k =
      ((k ≡ m) × (at cmp order lo keys' k ≡ at cmp order lo keys i))
      ⊎ ((k ≡ i) × (k ≢ m) × (at cmp order lo keys' k ≡ at cmp order lo keys m))
      ⊎ ((k ≢ i) × (k ≢ m) × (at cmp order lo keys' k ≡ at cmp order lo keys k))

  pub traded :
      (keys keys' : List A) (i m k : ℕ)
      → 1 ≤ i
      → 1 ≤ m
      → 1 ≤ k
      → Traded keys keys' (lo + i - 1) (lo + m - 1) (lo + k - 1)
      → TradedAt keys keys' i m k
  traded keys keys' i m k p q r t = elim t [
    | inl (e, f) ↦ inl (omega (arith, e), f)
    | inr (inl (e, ne, f)) ↦ inr (inl (omega (arith, e), λ g. ne (omega (arith, g)), f))
    | inr (inr (ne, ne', f)) ↦
        inr (inr (λ g. ne (omega (arith, g)), λ g. ne' (omega (arith, g)), f))
  ]

  pub Ge-moved :
      (keys keys' : List A) (i j i' j' : ℕ)
      → at cmp order lo keys' i' ≡ at cmp order lo keys i
      → at cmp order lo keys' j' ≡ at cmp order lo keys j
      → Ge cmp order lo keys i j
      → Ge cmp order lo keys' i' j'
  Ge-moved keys keys' i j i' j' e f g =
      subst (λ a. NotLess cmp a (at cmp order lo keys' j')) (sym e)
        (subst (λ b. NotLess cmp (at cmp order lo keys i) b) (sym f) g)

  module _ (keys keys' : List A) (k i m n : ℕ) (p : 1 ≤ k) (q : k ≤ i) (mi : m / 2 ≡ i) (mn : m ≤ n)
      (all : (j : ℕ) → 1 ≤ j → TradedAt keys keys' i m j) (but : HeapBut cmp order lo keys k i n)
      (greatest : (c : ℕ) → c ≤ n → c / 2 ≡ i → Ge cmp order lo keys m c)
      (up : Ge cmp order lo keys m i) where
    at_m : at cmp order lo keys' m ≡ at cmp order lo keys i
    at_m = elim (all m (omega arith)) [
      | inl (e, f) ↦ f
      | inr (inl (e, ne, f)) ↦ absurd (ne refl)
      | inr (inr (ne, ne', f)) ↦ absurd (ne' refl)
    ]

    at_i : at cmp order lo keys' i ≡ at cmp order lo keys m
    at_i = elim (all i (omega arith)) [
      | inl (e, f) ↦ absurd (omega (arith, e, mi, p, q))
      | inr (inl (e, ne, f)) ↦ f
      | inr (inr (ne, ne', f)) ↦ absurd (ne refl)
    ]

    at_other : (j : ℕ) → 1 ≤ j → j ≢ i → j ≢ m → at cmp order lo keys' j ≡ at cmp order lo keys j
    at_other j o ni nm = elim (all j o) [
      | inl (e, f) ↦ absurd (nm e)
      | inr (inl (e, ne, f)) ↦ absurd (ni e)
      | inr (inr (ne, ne', f)) ↦ f
    ]

    -- The parents other than `m` are in order after the trade.
    parents : (c : ℕ) → c ≤ n → k ≤ c / 2 → c / 2 ≢ m → Ge cmp order lo keys' (c / 2) c
    parents c cn kc nm = elim (ℕ_discrete (c / 2) i) [
      | yes ci ↦ elim (ℕ_discrete c m) [
        | yes cm ↦
            Ge-moved keys keys' m i (c / 2) c
              (subst (λ d. at cmp order lo keys' d ≡ at cmp order lo keys m) (sym ci) at_i)
              (subst (λ d. at cmp order lo keys' d ≡ at cmp order lo keys i) (sym cm) at_m) up
        | no ncm ↦
            Ge-moved keys keys' m c (c / 2) c
              (subst (λ d. at cmp order lo keys' d ≡ at cmp order lo keys m) (sym ci) at_i)
              (at_other c (omega arith) (λ e. omega arith) ncm) (greatest c cn ci)
      ]
      | no nci ↦ elim (ℕ_discrete c i) [
        | yes ci ↦
            Ge-moved keys keys' (c / 2) m (c / 2) c (at_other (c / 2) (omega arith) nci nm)
              (subst (λ d. at cmp order lo keys' d ≡ at cmp order lo keys m) (sym ci) at_i)
              (subst (λ d. Ge cmp order lo keys (d / 2) m) (sym ci)
                (but.1 m mn mi (omega (arith, ci, kc))))
        | no nc ↦
            Ge-moved keys keys' (c / 2) c (c / 2) c (at_other (c / 2) (omega arith) nci nm)
              (at_other c (omega arith) nc (λ e. nci (omega (arith, e, mi)))) (but.0 c cn kc nci)
      ]
    ]

    grandchildren : (c : ℕ) → c ≤ n → c / 2 ≡ m → k ≤ m / 2 → Ge cmp order lo keys' (m / 2) c
    grandchildren c cn cm km =
        Ge-moved keys keys' m c (m / 2) c
          (subst (λ d. at cmp order lo keys' d ≡ at cmp order lo keys m) (sym mi) at_i)
          (at_other c (omega arith) (λ e. omega arith) (λ e. omega arith))
          (subst (λ d. Ge cmp order lo keys d c) cm (but.0 c cn (omega arith) (λ e. omega arith)))

    pub HeapBut-traded : HeapBut cmp order lo keys' k m n
    HeapBut-traded = (parents, grandchildren)
