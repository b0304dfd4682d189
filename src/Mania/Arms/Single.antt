-- ===== src/Mania/Arms/Single.antt =====
-- The searches with one loop of src/mania/performance/mod.rs: one of n200, n100 and n50 is missing.
use old_ccv3_pp.Base.Loops.{for_inclusive}
use old_ccv3_pp.Base.{
  ◌≡◌, ℕ, ◌+◌, ◌-◌, ◌*◌, ◌≤◌, ◌<◌, Option, none, some, add32, u32_mod, min, inl, inr, dec_lt, arith,
}
use old_ccv3_pp.Float.{Floats, FloatLaws}
use old_ccv3_pp.Any.Mode.{clip, clip-le}
use old_ccv3_pp.Mania.Search.{Hits, keep_closer, exact_range}
use old_ccv3_pp.Mania.Search.Rounds.{keep_closer_keeps, keep_closer_first, search-P}
use old_ccv3_pp.Mania.Arms.{search_n200, search_n100, search_n50}
use old_ccv3_pp.Mania.Arms.Fits.{given, exact_base, cap_of, cap_of-le, Fits, exact_range-within}

module _ (f : Floats) (laws : FloatLaws f) (acc : f.F64) (unit : laws.InUnit acc)
    (n_objects misses : ℕ) (within : misses ≤ n_objects) (small : 36 * n_objects < u32_mod)
    (o320 o300 : Option ℕ) where
  abbrev r : ℕ
  r = n_objects - misses

  -- A loop over the range, whose rounds fill up what `n3x0` leaves beside `fixed`.
  abbrev P : ℕ → Hits → Type 0
  P fixed =
      Fits r (exact_base o320 o300 r) (cap_of o320 o300 (exact_base o320 o300 r) (r - fixed)) fixed

  one_loop :
      (fixed lo hi : ℕ) (mk : ℕ → Hits) (h₀ : Hits)
      → fixed ≤ 3 * r
      → lo ≤ hi
      → hi ≤ r - fixed
      → ((j : ℕ)
          → exact_base o320 o300 r ≤ j
          → j ≤ cap_of o320 o300 (exact_base o320 o300 r) (r - fixed)
          → P fixed (mk j))
      → (n_objects ≡ 0 → P fixed h₀)
      → let (lo', hi') = exact_range o320 o300 (clip o320 r) (clip o300 r) lo hi in
        P fixed (for_inclusive lo' hi' (λ j. keep_closer f acc misses (mk j)) (f.infinity, h₀)).1
  one_loop fixed lo hi mk h₀ three le top rounds empty =
      let (lo', hi') = exact_range o320 o300 (clip o320 r) (clip o300 r) lo hi in
      let w = exact_range-within o320 o300 r lo hi (r - fixed) le top (omega arith) in
      let cap = cap_of-le o320 o300 (exact_base o320 o300 r) (r - fixed) in
      search-P f laws acc unit misses (P fixed) (λ j. keep_closer f acc misses (mk j)) lo' hi' h₀
        (λ j b l u q.
          keep_closer_keeps f laws acc unit misses (P fixed) (mk j) b
            (rounds j (omega (arith, w.0)) (omega (arith, w.2))) q)
        (elim (dec_lt 0 n_objects) [
          | yes p ↦
              let first = rounds lo' w.0 (omega (arith, w.1, w.2)) in
              inr (
                w.1,
                keep_closer_first f laws acc unit misses (P fixed) (mk lo') h₀
                    (omega (arith, first, p))
                    (omega (arith, first, cap, clip-le o320 r, clip-le o300 r)) first,
              )
          | no z ↦ inl (empty (omega arith))
        ])

  empty_fits :
      (fixed n200 n100 n50 : ℕ) (n : ℕ)
      → n_objects ≡ 0
      → n200 + n100 + n50 ≡ fixed
      → n ≤ n_objects
      → fixed ≤ 3 * r
      → P fixed (n, n200, n100, n50)
  empty_fits fixed n200 n100 n50 n z e le three =
      omega (arith, clip-le o320 r, clip-le o300 r, z, e, le, three)

  small_base : exact_base o320 o300 r ≤ 2 * r
  small_base = omega (arith, clip-le o320 r, clip-le o300 r)

  -- The search for n200.
  pub search_n200-Fits :
      (b c : ℕ)
      → let fixed = min b r + min c r in
        P fixed (search_n200 f acc n_objects r misses (given o320 o300 none (some b) (some c) r)).1
  unfolding search_n200
  search_n200-Fits b c =
      let fixed = min b r + min c r in
      let cap = cap_of-le o320 o300 (exact_base o320 o300 r) (r - fixed) in
      one_loop fixed _ _ (λ j. (j, r - add32 (add32 j (min b r)) (min c r), min b r, min c r)) _
        (omega arith) (omega (arith, laws.floor-le-ceil)) (omega arith)
        (λ j l u. omega (arith, l, u, cap, small_base))
        (λ z. empty_fits fixed _ _ _ _ z (omega arith) (omega arith) (omega arith))

  -- The search for n100.
  pub search_n100-Fits :
      (b c : ℕ)
      → let fixed = min b r + min c r in
        P fixed (search_n100 f acc n_objects r misses (given o320 o300 (some b) none (some c) r)).1
  unfolding search_n100
  search_n100-Fits b c =
      let fixed = min b r + min c r in
      let cap = cap_of-le o320 o300 (exact_base o320 o300 r) (r - fixed) in
      one_loop fixed _ _ (λ j. (j, min b r, r - add32 (add32 j (min b r)) (min c r), min c r)) _
        (omega arith) (omega (arith, laws.floor-le-ceil)) (omega arith)
        (λ j l u. omega (arith, l, u, cap, small_base))
        (λ z. empty_fits fixed _ _ _ _ z (omega arith) (omega arith) (omega arith))

  -- The search for n50.
  pub search_n50-Fits :
      (b c : ℕ)
      → let fixed = min b r + min c r in
        P fixed (search_n50 f acc n_objects r misses (given o320 o300 (some b) (some c) none r)).1
  unfolding search_n50
  search_n50-Fits b c =
      let fixed = min b r + min c r in
      let cap = cap_of-le o320 o300 (exact_base o320 o300 r) (r - fixed) in
      one_loop fixed _ _ (λ j. (j, min b r, min c r, r - add32 (add32 j (min b r)) (min c r))) _
        (omega arith) (omega (arith, laws.floor-le-ceil)) (omega arith)
        (λ j l u. omega (arith, l, u, cap, small_base))
        (λ z. empty_fits fixed _ _ _ _ z (omega arith) (omega arith) (omega arith))
