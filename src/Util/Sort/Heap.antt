-- ===== src/Util/Sort/Heap.antt =====
-- src/util/sort/mod.rs, `heap_sort`: it ends, stays within its part of the slice and only moves elements.
use old_ccv3_pp.Base.{
  ℕ, zero, suc, ◌+◌, ◌-◌, ◌*◌, ◌/◌, ◌<◌, ◌≤◌, false, some, List, ltb, leb, length, ◌≡◌, refl, inl,
  inr, arith, Bool-cases,
}
use old_ccv3_pp.Util.Sort.{
  Ordering, is_lt, is_ge, compare_at, greater_child, down_heap, build_heap, take_greatest,
  heap_sort,
}
use old_ccv3_pp.Util.Sort.Swap.{
  get_elem?-some, Kept-refl, Kept-trans, Kept-widen, Keeps, swap_keys-Keeps, swap-Keeps,
}

module _ {A : Type 0} (cmp : A → A → Ordering) where
  pub compare_at-some :
      (keys : List A) (i j : ℕ)
      → i < length keys
      → j < length keys
      → (o : Ordering) × (compare_at cmp keys i j ≡ some o)
  compare_at-some keys i j hi hj =
      let (a, ea) = get_elem?-some keys i hi in
      let (b, eb) = get_elem?-some keys j hj in (cmp a b, rw (ea, eb, compare_at) refl)

  -- A child of `i` within the heap
  greater_child-some :
      (keys : List A) (i n lo : ℕ)
      → lo + n ≤ length keys
      → 1 ≤ i
      → i ≤ n / 2
      → (c : ℕ) × (greater_child cmp keys i n lo ≡ some c) × (2 * i ≤ c) × (c ≤ n)
  unfolding greater_child
  greater_child-some keys i n lo l p h = elim (Bool-cases (ltb (2 * i) n)) [
    | inl e ↦
        let lt : 2 * i < n = ground (arith, e) in
        let (o, eo) =
          compare_at-some keys (lo + 2 * i - 1) (lo + 2 * i) (omega arith) (omega arith) in
        elim (Bool-cases (is_lt o)) [
          | inl eb ↦ (2 * i + 1, rw (e, eo, eb, greater_child) refl, omega arith, omega arith)
          | inr eb ↦ (2 * i, rw (e, eo, eb, greater_child) refl, omega arith, omega arith)
        ]
    | inr e ↦ (2 * i, rw (e, greater_child) refl, omega arith, omega arith)
  ]

  -- Where the loop is at `i`, `n - i` rounds are enough.
  down_heap-Keeps :
      (fuel : ℕ) (keys : List A) (i n lo : ℕ)
      → lo + n ≤ length keys
      → 1 ≤ i
      → n ≤ fuel + i
      → Keeps keys lo n (down_heap cmp fuel keys i n lo)
  unfolding down_heap
  down_heap-Keeps zero keys i n lo l p f =
      let e : leb i (n / 2) ≡ false = ground (arith, f, p) in
      (keys, rw (e, down_heap) refl, Kept-refl keys lo n)
  down_heap-Keeps (suc fuel) keys i n lo l p f = elim (Bool-cases (leb i (n / 2))) [
    | inr e ↦ (keys, rw (e, down_heap) refl, Kept-refl keys lo n)
    | inl e ↦
        let le : i ≤ n / 2 = ground (arith, e) in
        let (c, ec, two, cn) = greater_child-some keys i n lo l p le in
        let (o, eo) = compare_at-some keys (lo + i - 1) (lo + c - 1) (omega arith) (omega arith) in
        elim (Bool-cases (is_ge o)) [
          | inl eb ↦ (keys, rw (e, ec, eo, eb, down_heap) refl, Kept-refl keys lo n)
          | inr eb ↦
              let (keys', es, k) =
                swap_keys-Keeps keys lo n (lo + i - 1) (lo + c - 1) l (omega arith) (omega arith)
                  (omega arith) (omega arith) in
              let (keys'', ed, k') =
                down_heap-Keeps fuel keys' c n lo (omega (arith, k.len, l)) (omega arith)
                  (omega arith) in
              (
                keys'',
                rw (e, ec, eo, eb, es, down_heap) ed,
                Kept-trans {keys' = keys'} {keys'' = keys''} k k',
              )
        ]
  ]

  build_heap-Keeps :
      (k : ℕ) (keys : List A) (n lo : ℕ)
      → lo + n ≤ length keys
      → Keeps keys lo n (build_heap cmp k keys n lo)
  unfolding build_heap
  build_heap-Keeps zero keys n lo l = (keys, refl, Kept-refl keys lo n)
  build_heap-Keeps (suc k) keys n lo l =
      let (keys', e, h) = down_heap-Keeps n keys (suc k) n lo l (omega arith) (omega arith) in
      let (keys'', e', h') = build_heap-Keeps k keys' n lo (omega (arith, h.len, l)) in
      (keys'', rw (e, build_heap) e', Kept-trans h h')

  take_greatest-Keeps :
      (k : ℕ) (keys : List A) (lo : ℕ)
      → lo + (k + 1) ≤ length keys
      → Keeps keys lo (k + 1) (take_greatest cmp k keys lo)
  unfolding take_greatest
  take_greatest-Keeps zero keys lo l = (keys, refl, Kept-refl keys lo 1)
  take_greatest-Keeps (suc k) keys lo l =
      let (keys', e, h) =
        swap-Keeps keys lo (suc k + 1) lo (lo + (k + 2) - 1) l (omega arith) (omega arith)
          (omega arith) (omega arith) in
      let (keys'', e', h') =
        down_heap-Keeps (k + 1) keys' 1 (k + 1) lo (omega (arith, h.len, l)) (omega arith)
          (omega arith) in
      let (keys3, e'', h'') = take_greatest-Keeps k keys'' lo (omega (arith, h.len, h'.len, l)) in
      (
        keys3,
        rw (e, e', take_greatest) e'',
        Kept-trans h (Kept-widen (omega arith) (Kept-trans h' h'')),
      )

  -- For bounds `lo <= hi` within the slice and any comparison, `heap_sort` ends without a panic.
  -- The elements of the result are those of the slice in some order, and those outside of
  -- `lo..=hi` are where they were.
  pub heap_sort-Keeps :
      (keys : List A) (lo hi : ℕ)
      → lo ≤ hi
      → hi < length keys
      → Keeps keys lo (hi - lo + 1) (heap_sort cmp keys lo hi)
  unfolding heap_sort
  heap_sort-Keeps keys lo hi le lt =
      let e : ltb hi lo ≡ false = ground (arith, le) in
      let (keys', e', h) =
        build_heap-Keeps ((hi - lo + 1) / 2) keys (hi - lo + 1) lo (omega (arith, le, lt)) in
      let (keys'', e'', h') =
        take_greatest-Keeps (hi - lo) keys' lo (omega (arith, h.len, le, lt)) in
      (keys'', rw (e, e', heap_sort) e'', Kept-trans h h')
