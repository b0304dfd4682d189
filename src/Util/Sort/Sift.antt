-- ===== src/Util/Sort/Sift.antt =====
-- src/util/sort/mod.rs, `down_heap` and the first loop of `heap_sort`: they make a heap.
use old_ccv3_pp.Base.{
  ℕ, zero, suc, ◌+◌, ◌-◌, ◌/◌, ◌<◌, ◌≤◌, false, Option, some, List, leb, length, ◌≡◌, refl, sym,
  inl, inr, arith, Bool-cases, ℕ_discrete,
}
use mathlib.Core.Path.{subst}
use old_ccv3_pp.Util.Sort.{Ordering, is_ge, down_heap, build_heap}
use old_ccv3_pp.Util.Sort.Heap.{compare_at-some}
use old_ccv3_pp.Util.Sort.Swap.{Kept, Kept-refl, Kept-trans, swap_keys-Keeps, swap_keys-Traded}
use old_ccv3_pp.Util.Sort.Order.{
  IsTotalOrder, NotLess-trans, compare_at-ge, compare_at-lt, at, Ge, HeapFrom, HeapBut, Ge-refl,
  greater_child-greatest,
}
use old_ccv3_pp.Util.Sort.Trade.{TradedAt, traded, HeapBut-traded}

module _ {A : Type 0} (cmp : A → A → Ordering) (order : IsTotalOrder cmp) (lo : ℕ) where
  -- The loop leaves a heap.
  abbrev pub Sifted : List A → ℕ → ℕ → Option (List A) → Type 0
  Sifted keys k n result =
      (keys' : List A) × (result ≡ some keys')
      × Kept keys lo n keys'
      × HeapFrom cmp order lo keys' k n

  pub down_heap-Sifted :
      (fuel : ℕ) (keys : List A) (k i n : ℕ)
      → lo + n ≤ length keys
      → 1 ≤ k
      → k ≤ i
      → n ≤ fuel + i
      → HeapBut cmp order lo keys k i n
      → Sifted keys k n (down_heap cmp fuel keys i n lo)
  unfolding down_heap
  down_heap-Sifted zero keys k i n l p q f h =
      let e : leb i (n / 2) ≡ false = ground (arith, f, p, q) in
      (
        keys,
        rw (e, down_heap) refl,
        Kept-refl keys lo n,
        λ c cn kc. h.0 c cn kc (λ ci. omega (arith, ci, cn, f, p, q)),
      )
  down_heap-Sifted (suc fuel) keys k i n l p q f h = elim (Bool-cases (leb i (n / 2))) [
    | inr e ↦
        let past : n / 2 < i = ground (arith, e) in
        (
          keys,
          rw (e, down_heap) refl,
          Kept-refl keys lo n,
          λ c cn kc. h.0 c cn kc (λ ci. omega (arith, ci, cn, past)),
        )
    | inl e ↦
        let le : i ≤ n / 2 = ground (arith, e) in
        let (m, em, mi, mn, greatest) =
          greater_child-greatest cmp order lo keys i n l (omega (arith, p, q)) le in
        let (o, eo) =
          compare_at-some cmp keys (lo + i - 1) (lo + m - 1) (omega arith) (omega arith) in
        elim (Bool-cases (is_ge o)) [
          | inl eb ↦
              let top : Ge cmp order lo keys i m =
                compare_at-ge cmp order keys (lo + i - 1) (lo + m - 1) o eo eb in
              (
                keys,
                rw (e, em, eo, eb, down_heap) refl,
                Kept-refl keys lo n,
                λ c cn kc. elim (ℕ_discrete (c / 2) i) [
                  | yes ci ↦
                      subst (λ d. Ge cmp order lo keys d c) (sym ci)
                        (NotLess-trans cmp order (at cmp order lo keys i) (at cmp order lo keys m)
                          (at cmp order lo keys c) top (greatest c cn ci))
                  | no ne ↦ h.0 c cn kc ne
                ],
              )
          | inr eb ↦
              let up : Ge cmp order lo keys m i =
                compare_at-lt cmp order keys (lo + i - 1) (lo + m - 1) o eo eb in
              let (keys', es, kept) =
                swap_keys-Keeps keys lo n (lo + i - 1) (lo + m - 1) l (omega arith) (omega arith)
                  (omega arith) (omega arith) in
              let all : (j : ℕ) → 1 ≤ j → TradedAt cmp order lo keys keys' i m j = λ j o'.
                traded cmp order lo keys keys' i m j (omega arith) (omega arith) o' (
                  swap_keys-Traded keys keys' (lo + i - 1) (lo + m - 1) (lo + j - 1) (omega arith)
                    (omega arith) es) in
              let (keys'', ed, kept', heap) =
                down_heap-Sifted fuel keys' k m n (omega (arith, kept.len, l)) p (omega arith)
                  (omega arith)
                  (HeapBut-traded cmp order lo keys keys' k i m n p q mi mn all h greatest up) in
              (
                keys'',
                rw (e, em, eo, eb, es, down_heap) ed,
                Kept-trans {keys' = keys'} {keys'' = keys''} kept kept',
                heap,
              )
        ]
  ]

  pub build_heap-Sifted :
      (k : ℕ) (keys : List A) (n : ℕ)
      → lo + n ≤ length keys
      → HeapFrom cmp order lo keys (suc k) n
      → Sifted keys 1 n (build_heap cmp k keys n lo)
  unfolding build_heap
  build_heap-Sifted zero keys n l h = (keys, refl, Kept-refl keys lo n, h)
  build_heap-Sifted (suc k) keys n l h =
      let (keys', e, kept, heap) =
        down_heap-Sifted n keys (suc k) (suc k) n l (omega arith) (omega arith) (omega arith)
          (λ c cn kc ne. h c cn (omega arith), λ c cn ci kk. absurd (omega (arith, kk))) in
      let (keys'', e', kept', heap') =
        build_heap-Sifted k keys' n (omega (arith, kept.len, l)) heap in
      (
        keys'',
        rw (e, build_heap) e',
        Kept-trans {keys' = keys'} {keys'' = keys''} kept kept',
        heap',
      )

  -- The root is not less than any place of the heap: up the parents, with fuel.
  pub root_greatest :
      (fuel : ℕ) (keys : List A) (n c : ℕ)
      → lo + n ≤ length keys
      → HeapFrom cmp order lo keys 1 n
      → 1 ≤ c
      → c ≤ n
      → c ≤ fuel
      → Ge cmp order lo keys 1 c
  root_greatest zero keys n c l h p cn f = absurd (omega (arith, p, f))
  root_greatest (suc fuel) keys n c l h p cn f = elim (ℕ_discrete c 1) [
    | yes e ↦
        subst (λ d. Ge cmp order lo keys 1 d) (sym e) (Ge-refl cmp order lo keys 1 (omega arith))
    | no ne ↦
        NotLess-trans cmp order (at cmp order lo keys 1) (at cmp order lo keys (c / 2))
          (at cmp order lo keys c)
          (root_greatest fuel keys n (c / 2) l h (omega arith) (omega arith) (omega arith))
          (h c cn (omega arith))
  ]
