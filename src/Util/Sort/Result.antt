-- ===== src/Util/Sort/Result.antt =====
-- src/util/sort/mod.rs, `heap_sort`: the part of the slice is sorted when it ends.
use mathlib.Core.Path.{subst}
use old_ccv3_pp.Base.{
  ℕ, zero, suc, ◌+◌, ◌-◌, ◌/◌, ◌<◌, ◌≤◌, false, Option, some, List, ltb, ◌==◌, length, get_elem?,
  ◌≡◌, refl, ◌∙◌, arith,
}
use old_ccv3_pp.Util.Sort.{Ordering, swap, swap_keys, take_greatest, heap_sort}
use old_ccv3_pp.Util.Sort.Swap.{
  Kept, Kept-refl, Kept-trans, Kept-widen, swap_keys-Keeps, Traded, swap_keys-Traded,
}
use old_ccv3_pp.Util.Sort.Trade
use old_ccv3_pp.Util.Sort.Sift
use old_ccv3_pp.Util.Sort.Order.{IsTotalOrder, NotLess}
use old_ccv3_pp.Util.Sort.Sorted

swap-keys : {A : Type 0} → (keys : List A) (i j : ℕ) → i < j → swap keys i j ≡ swap_keys keys i j
unfolding swap
swap-keys keys i j h = let e : (i == j) ≡ false = ground (arith, h) in rw (e, swap) refl

module _ {A : Type 0} (cmp : A → A → Ordering) (order : IsTotalOrder cmp) (lo : ℕ) where
  abbrev SortedBy : List A → ℕ → ℕ → Option (List A) → Type 0
  SortedBy keys k n result =
      (keys' : List A) × (result ≡ some keys')
      × Kept keys lo k keys'
      × Sorted.SortedFrom cmp order lo keys' 1 n

  take_greatest-SortedBy :
      (k : ℕ) (keys : List A) (n : ℕ)
      → lo + n ≤ length keys
      → k + 1 ≤ n
      → Sorted.Heap cmp order lo keys (k + 1)
      → Sorted.SortedFrom cmp order lo keys (k + 1) n
      → SortedBy keys (k + 1) n (take_greatest cmp k keys lo)
  unfolding take_greatest
  take_greatest-SortedBy zero keys n l kn heap tail = (keys, refl, Kept-refl keys lo 1, tail)
  take_greatest-SortedBy (suc k) keys n l kn heap tail =
      let (keys', e, kept) =
        swap_keys-Keeps keys lo (suc k + 1) lo (lo + (k + 2) - 1) (omega (arith, l, kn))
          (omega arith) (omega arith) (omega arith) (omega arith) in
      let root : lo ≡ lo + 1 - 1 = omega arith in
      let all : (j : ℕ) → 1 ≤ j → Trade.TradedAt cmp order lo keys keys' 1 (k + 2) j = λ j p.
        Trade.traded cmp order lo keys keys' 1 (k + 2) j (omega arith) (omega arith) p (
          subst (λ i. Traded keys keys' i (lo + (k + 2) - 1) (lo + j - 1)) root
            (swap_keys-Traded keys keys' lo (lo + (k + 2) - 1) (lo + j - 1) (omega (arith, l, kn))
              (omega (arith, l, kn)) e)) in
      let heap' : Sorted.Heap cmp order lo keys (k + 2) =
        λ c cn kc. heap c (omega (arith, cn)) kc in
      let tail' : Sorted.SortedFrom cmp order lo keys (k + 2) n =
        λ c d p q r s. tail c d p q (omega (arith, r)) s in
      let (keys'', ed, kept', heap'') =
        Sift.down_heap-Sifted cmp order lo (k + 1) keys' 1 1 (k + 1)
          (omega (arith, kept.len, l, kn)) (omega arith) (omega arith) (omega arith)
          (Sorted.HeapBut-traded cmp order lo keys keys' k all heap') in
      let (keys3, et, kept3, sorted) =
        take_greatest-SortedBy k keys'' n (omega (arith, kept.len, kept'.len, l))
          (omega (arith, kn)) heap''
          (Sorted.SortedFrom-taken cmp order lo keys keys' keys'' k n l (omega (arith, kn)) all
            kept' heap' tail') in
      let es : swap keys lo (lo + (k + 2) - 1) ≡ some keys' =
        swap-keys keys lo (lo + (k + 2) - 1) (omega arith) ∙ e in
      (
        keys3,
        rw (es, ed, take_greatest) et,
        Kept-trans {keys' = keys'} {keys'' = keys3} kept (
            Kept-widen {keys = keys'} {keys' = keys3} (omega arith)
              (Kept-trans {keys' = keys''} {keys'' = keys3} kept' kept3)),
        sorted,
      )

  -- Of two places in the part the later one is not less.
  abbrev pub IsSortedPart : List A → ℕ → Type 0
  IsSortedPart keys hi =
      (i j : ℕ) → lo ≤ i → i < j → j ≤ hi → NotLess cmp (get_elem? keys j) (get_elem? keys i)

  -- For bounds `lo <= hi` within the slice and a comparison that is a total order, `heap_sort`
  -- ends without a panic and leaves the slice with the same elements, those of `lo..=hi` sorted
  -- and those outside where they were.
  pub heap_sort-IsSortedPart :
      (keys : List A) (hi : ℕ)
      → lo ≤ hi
      → hi < length keys
      → (keys' : List A) × (heap_sort cmp keys lo hi ≡ some keys')
        × Kept keys lo (hi - lo + 1) keys'
        × IsSortedPart keys' hi
  unfolding heap_sort
  heap_sort-IsSortedPart keys hi le lt =
      let e : ltb hi lo ≡ false = ground (arith, le) in
      let (keys', eb, kept, heap) =
        Sift.build_heap-Sifted cmp order lo ((hi - lo + 1) / 2) keys (hi - lo + 1)
          (omega (arith, le, lt)) (λ c cn kc. absurd (omega (arith, cn, kc))) in
      let (keys'', et, kept', sorted) =
        take_greatest-SortedBy (hi - lo) keys' (hi - lo + 1) (omega (arith, kept.len, le, lt))
          (omega arith) heap (λ c d p q r s. absurd (omega (arith, r, s))) in
      (
        keys'',
        rw (e, eb, heap_sort) et,
        Kept-trans {keys' = keys'} {keys'' = keys''} kept kept',
        λ i j li ij jh.
            let ei : lo + (i - lo + 1) - 1 ≡ i = omega (arith, li) in
            let ej : lo + (j - lo + 1) - 1 ≡ j = omega (arith, li, ij) in
            subst (λ p. NotLess cmp (get_elem? keys'' j) (get_elem? keys'' p)) ei
              (subst
                (λ p. NotLess cmp (get_elem? keys'' p) (get_elem? keys'' (lo + (i - lo + 1) - 1)))
                ej
                (sorted (i - lo + 1) (j - lo + 1) (omega arith) (omega (arith, li, ij))
                  (omega (arith, li, ij)) (omega (arith, li, ij, jh)))),
      )
