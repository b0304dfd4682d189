-- ===== src/Util/Sort/Order.antt =====
-- src/util/sort/mod.rs: the order of a heap within a slice.
use old_ccv3_pp.Base.{
  ℕ, ◌+◌, ◌-◌, ◌*◌, ◌/◌, ◌<◌, ◌≤◌, true, false, Option, none, some, List, ltb, length, get_elem?,
  ◌≡◌, refl, sym, ap, ◌∙◌, inl, inr, arith, Bool-cases, ℕ_discrete,
}
use mathlib.Core.Logic.{◌≢◌}
use mathlib.Core.Path.{subst}
use mathlib.Core.Option.{some-injective}
use old_ccv3_pp.Util.Sort.{Ordering, is_lt, is_ge, compare_at, greater_child}
use old_ccv3_pp.Util.Sort.Swap.{get_elem?-some}

-- What `Ord` asks of a comparison, as far as the sort needs it
pub record IsTotalOrder {A : Type 0} (cmp : A → A → Ordering) : Type 0 where
  pub ge_refl : (a : A) → is_ge (cmp a a) ≡ true
  pub ge_trans :
      (a b c : A) → is_ge (cmp a b) ≡ true → is_ge (cmp b c) ≡ true → is_ge (cmp a c) ≡ true
  pub lt_ge : (a b : A) → is_ge (cmp a b) ≡ false → is_ge (cmp b a) ≡ true

is_lt-is_ge : (o : Ordering) → is_lt o ≡ true → is_ge o ≡ false
is_lt-is_ge Ordering.less e = refl
is_lt-is_ge Ordering.equal e = ground (arith, e)
is_lt-is_ge Ordering.greater e = ground (arith, e)

not_lt-is_ge : (o : Ordering) → is_lt o ≡ false → is_ge o ≡ true
not_lt-is_ge Ordering.less e = ground (arith, e)
not_lt-is_ge Ordering.equal e = refl
not_lt-is_ge Ordering.greater e = refl

module _ {A : Type 0} (cmp : A → A → Ordering) where
  -- Both are there, and the first is not less.
  abbrev pub NotLess : Option A → Option A → Type 0
  NotLess none b = ⊥
  NotLess (some a) none = ⊥
  NotLess (some a) (some b) = is_ge (cmp a b) ≡ true

  module _ (order : IsTotalOrder cmp) where
    pub NotLess-trans : (a b c : Option A) → NotLess a b → NotLess b c → NotLess a c
    NotLess-trans none b c h k = h
    NotLess-trans (some a) none c h k = absurd h
    NotLess-trans (some a) (some b) none h k = k
    NotLess-trans (some a) (some b) (some c) h k = order.ge_trans a b c h k

    pub compare_at-ge :
        (keys : List A) (i j : ℕ) (o : Ordering)
        → compare_at cmp keys i j ≡ some o
        → is_ge o ≡ true
        → NotLess (get_elem? keys i) (get_elem? keys j)
    compare_at-ge keys i j o e h = go (get_elem? keys i) (get_elem? keys j) e
      where
        go :
            (a b : Option A)
            → elim a [ none ↦ none | some x ↦ elim b [ none ↦ none | some y ↦ some (cmp x y) ] ]
              ≡ some o
            → NotLess a b
        go none b e = ground (arith, e)
        go (some a) none e = ground (arith, e)
        go (some a) (some b) e = ap is_ge (some-injective (cmp a b) o e) ∙ h

    pub compare_at-lt :
        (keys : List A) (i j : ℕ) (o : Ordering)
        → compare_at cmp keys i j ≡ some o
        → is_ge o ≡ false
        → NotLess (get_elem? keys j) (get_elem? keys i)
    compare_at-lt keys i j o e h = go (get_elem? keys i) (get_elem? keys j) e
      where
        go :
            (a b : Option A)
            → elim a [ none ↦ none | some x ↦ elim b [ none ↦ none | some y ↦ some (cmp x y) ] ]
              ≡ some o
            → NotLess b a
        go none b e = ground (arith, e)
        go (some a) none e = ground (arith, e)
        go (some a) (some b) e = order.lt_ge a b (ap is_ge (some-injective (cmp a b) o e) ∙ h)

    module _ (lo : ℕ) where
      -- The element at place `i` of the heap, from 1 on
      abbrev pub at : List A → ℕ → Option A
      at keys i = get_elem? keys (lo + i - 1)

      abbrev pub Ge : List A → ℕ → ℕ → Type 0
      Ge keys i j = NotLess (at keys i) (at keys j)

      -- From place `k` on, a parent is not less than its child.
      abbrev pub HeapFrom : List A → ℕ → ℕ → Type 0
      HeapFrom keys k n = (c : ℕ) → c ≤ n → k ≤ c / 2 → Ge keys (c / 2) c

      -- The same but at `i`, whose children are at least not greater than its parent.
      abbrev pub HeapBut : List A → ℕ → ℕ → ℕ → Type 0
      HeapBut keys k i n =
          ((c : ℕ) → c ≤ n → k ≤ c / 2 → c / 2 ≢ i → Ge keys (c / 2) c)
          × ((c : ℕ) → c ≤ n → c / 2 ≡ i → k ≤ i / 2 → Ge keys (i / 2) c)

      pub Ge-refl : (keys : List A) (i : ℕ) → lo + i - 1 < length keys → Ge keys i i
      Ge-refl keys i h =
          let (a, e) = get_elem?-some keys (lo + i - 1) h in
          subst (λ x. NotLess x x) (sym e) (order.ge_refl a)

      of_two :
          (keys : List A) (i m : ℕ)
          → Ge keys m (2 * i)
          → Ge keys m (2 * i + 1)
          → (c : ℕ) → c / 2 ≡ i
          → Ge keys m c
      of_two keys i m g g' c e = elim (ℕ_discrete c (2 * i)) [
        | yes eq ↦ subst (λ d. Ge keys m d) (sym eq) g
        | no ne ↦ let eq : 2 * i + 1 ≡ c = omega arith in subst (λ d. Ge keys m d) eq g'
      ]

      -- The greater child is not less than any child.
      pub greater_child-greatest :
          (keys : List A) (i n : ℕ)
          → lo + n ≤ length keys
          → 1 ≤ i
          → i ≤ n / 2
          → (m : ℕ) × (greater_child cmp keys i n lo ≡ some m)
            × (m / 2 ≡ i)
            × (m ≤ n)
            × ((c : ℕ) → c ≤ n → c / 2 ≡ i → Ge keys m c)
      unfolding greater_child
      greater_child-greatest keys i n l p h = elim (Bool-cases (ltb (2 * i) n)) [
        | inr e ↦
            let last : n ≤ 2 * i = ground (arith, e) in
            (
              2 * i,
              rw (e, greater_child) refl,
              omega arith,
              omega arith,
              λ c cn ci.
                  let same : 2 * i ≡ c = omega (arith, last, cn, ci) in
                  subst (λ c'. Ge keys (2 * i) c') same (Ge-refl keys (2 * i) (omega arith)),
            )
        | inl e ↦
            let two : 2 * i < n = ground (arith, e) in
            let (a, ea) = get_elem?-some keys (lo + 2 * i - 1) (omega arith) in
            let (b, eb) = get_elem?-some keys (lo + 2 * i) (omega arith) in
            let eo : compare_at cmp keys (lo + 2 * i - 1) (lo + 2 * i) ≡ some (cmp a b) =
              rw (ea, eb, compare_at) refl in
            let right : lo + (2 * i + 1) - 1 ≡ lo + 2 * i = omega arith in
            elim (Bool-cases (is_lt (cmp a b))) [
              | inl lt ↦ (
                2 * i + 1,
                rw (e, eo, lt, greater_child) refl,
                omega arith,
                omega arith,
                λ c cn ci.
                    of_two keys i (2 * i + 1)
                      (subst (λ d. NotLess (get_elem? keys d) (at keys (2 * i))) (sym right)
                        (compare_at-lt keys (lo + 2 * i - 1) (lo + 2 * i) (cmp a b) eo
                          (is_lt-is_ge (cmp a b) lt)))
                      (Ge-refl keys (2 * i + 1) (omega arith)) c ci,
              )
              | inr ge ↦ (
                2 * i,
                rw (e, eo, ge, greater_child) refl,
                omega arith,
                omega arith,
                λ c cn ci.
                    of_two keys i (2 * i) (Ge-refl keys (2 * i) (omega arith))
                      (subst (λ d. NotLess (at keys (2 * i)) (get_elem? keys d)) (sym right)
                        (compare_at-ge keys (lo + 2 * i - 1) (lo + 2 * i) (cmp a b) eo
                          (not_lt-is_ge (cmp a b) ge)))
                      c ci,
              )
            ]
      ]
