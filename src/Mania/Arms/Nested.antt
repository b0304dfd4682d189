-- ===== src/Mania/Arms/Nested.antt =====
-- The searches with nested loops of src/mania/performance/mod.rs: at most one of n200, n100 and n50 is
-- given.
use old_ccv3_pp.Base.{
  ℕ, ◌-◌, ◌*◌, ◌≤◌, ◌<◌, ◌≡◌, Option, none, some, add32, sub32, u32_mod, min, inl, inr, dec_lt,
  arith,
}
use old_ccv3_pp.Base.Loops.{for_inclusive, for_inclusive_keeps, for_inclusive_first}
use old_ccv3_pp.Float.{Floats, FloatLaws}
use old_ccv3_pp.Any.Mode.{clip, clip-le}
use old_ccv3_pp.Mania.Search.{Hits, Best, keep_closer, capped_range}
use old_ccv3_pp.Mania.Search.Rounds.{hits_of, keep_closer_keeps, keep_closer_first, search-P}
use old_ccv3_pp.Mania.Arms.{
  try_n100_n50, search_n100_n50, try_n200_n50, search_n200_n50, try_n200_n100, search_n200_n100,
  try_n100_of_all, try_n200_of_all, search_all,
}
use old_ccv3_pp.Mania.Arms.Fits.{
  given, capped_base, capped_base_le, cap_of, cap_of-le, Fits, Free, capped_range-within,
}
use old_ccv3_pp.Mania.Arms.Ranges.{RangeLaws}

module _ (f : Floats) (laws : FloatLaws f) (acc : f.F64) (unit : laws.InUnit acc)
    (n_objects misses : ℕ) (within : misses ≤ n_objects) (small : 36 * n_objects < u32_mod)
    (o320 o300 : Option ℕ) where
  abbrev r : ℕ
  r = n_objects - misses

  abbrev base : ℕ
  base = capped_base o320 o300 r

  abbrev P : ℕ → Hits → Type 0
  P fixed = Fits r base (cap_of o320 o300 base (r - fixed)) fixed

  -- What a round of an inner loop needs to be kept.
  abbrev Rounds : (Hits → Type 0) → ℕ → ℕ → (Best f → Best f) → Type 0
  Rounds Q fixed j inner =
      ((b : Best f) → Q b.1 → Q (inner b).1)
      × ((h₀ : Hits) → 0 < n_objects → Q (inner (f.infinity, h₀)).1)

  -- A loop over the range of `n3x0`, around an inner loop.
  outer_loop :
      (Q : Hits → Type 0) (fixed lo hi : ℕ) (body : ℕ → Best f → Best f) (h₀ : Hits)
      → lo ≤ hi
      → hi ≤ r - fixed
      → ((j : ℕ) → base ≤ j → j ≤ cap_of o320 o300 base (r - fixed) → Rounds Q fixed j (body j))
      → (n_objects ≡ 0 → Q h₀)
      → let (lo', hi') = capped_range r o320 o300 (clip o320 r) (clip o300 r) lo hi in
        Q (for_inclusive lo' hi' body (f.infinity, h₀)).1
  outer_loop Q fixed lo hi body h₀ le top rounds empty =
      let (lo', hi') = capped_range r o320 o300 (clip o320 r) (clip o300 r) lo hi in
      let w = capped_range-within o320 o300 r lo hi (r - fixed) le top (omega arith) in
      search-P f laws acc unit misses Q body lo' hi' h₀
        (λ j b l u q. (rounds j (omega (arith, w.0)) (omega (arith, w.2))).0 b q)
        (elim (dec_lt 0 n_objects) [
          | yes p ↦ inr (w.1, (rounds lo' w.0 (omega (arith, w.1, w.2))).1 h₀ p)
          | no z ↦ inl (empty (omega arith))
        ])

  -- The innermost loop keeps what each of its rounds gives.
  inner_loop :
      (Q : Hits → Type 0) (fixed j lo hi : ℕ) (mk : ℕ → Hits)
      → lo ≤ hi
      → ((k : ℕ) → k ≤ hi → Q (mk k) × (hits_of (mk k) ≤ 5 * r) × (r ≤ hits_of (mk k)))
      → Rounds Q fixed j (for_inclusive lo hi (λ k. keep_closer f acc misses (mk k)))
  inner_loop Q fixed j lo hi mk le rounds = (
    λ b q.
        for_inclusive_keeps (λ (b : Best f). Q b.1) _ lo hi b
          (λ k t l u s. keep_closer_keeps f laws acc unit misses Q (mk k) t (rounds k u).0 s) q,
    λ h₀ p.
        let first = rounds lo le in
        for_inclusive_first (λ (b : Best f). Q b.1) _ lo hi (f.infinity, h₀)
          (λ k t l u s. keep_closer_keeps f laws acc unit misses Q (mk k) t (rounds k u).0 s) le
          (keep_closer_first f laws acc unit misses Q (mk lo) h₀ (omega (arith, first.2))
            (omega (arith, first.1)) first.0),
  )

  facts : base ≤ r
  facts = capped_base_le o320 o300 r

  module _ (range_laws : RangeLaws f laws) where
    -- The search for n100 and n50.
    pub search_n100_n50-Fits :
        (b : ℕ)
        → P
            (min b r)
            (search_n100_n50 f acc n_objects r misses (given o320 o300 (some b) none none r)).1
    unfolding search_n100_n50 try_n100_n50
    search_n100_n50-Fits b =
        let fixed = min b r in
        let cap = cap_of-le o320 o300 base (r - fixed) in
        outer_loop (P fixed) fixed _ _ _ _
          (range_laws.n200 acc n_objects r fixed unit small (omega arith) (omega arith))
          (omega arith)
          (λ j l u.
            inner_loop (P fixed) fixed j _ _ (λ k. (j, fixed, k, r - add32 (add32 j fixed) k))
              (omega (arith, laws.floor-le-ceil)) (λ k h. omega (arith, l, u, cap, facts, h)))
          (λ z. omega (arith, z, facts, clip-le o320 r, clip-le o300 r))

    -- The search for n200 and n50.
    pub search_n200_n50-Fits :
        (b : ℕ)
        → P
            (min b r)
            (search_n200_n50 f acc n_objects r misses (given o320 o300 none (some b) none r)).1
    unfolding search_n200_n50 try_n200_n50
    search_n200_n50-Fits b =
        let fixed = min b r in
        let cap = cap_of-le o320 o300 base (r - fixed) in
        outer_loop (P fixed) fixed _ _ _ _
          (range_laws.n100 acc n_objects r fixed unit small (omega arith) (omega arith))
          (omega arith)
          (λ j l u.
            inner_loop (P fixed) fixed j _ _ (λ k. (j, k, fixed, r - add32 (add32 j k) fixed))
              (omega (arith, laws.floor-le-ceil)) (λ k h. omega (arith, l, u, cap, facts, h)))
          (λ z. omega (arith, z, facts, clip-le o320 r, clip-le o300 r))

    -- The search for n200 and n100.
    pub search_n200_n100-Fits :
        (b : ℕ)
        → let h =
            (search_n200_n100 f acc n_objects r misses (given o320 o300 none none (some b) r)).1 in
          P (min b r) h × Free r (min b r) h
    unfolding search_n200_n100 try_n200_n100
    search_n200_n100-Fits b =
        let fixed = min b r in
        let cap = cap_of-le o320 o300 base (r - fixed) in
        let Q : Hits → Type 0 = λ h. P fixed h × Free r fixed h in
        outer_loop Q fixed _ _ _ _
          (range_laws.n50 acc n_objects r fixed unit small (omega arith) (omega arith))
          (omega arith)
          (λ j l u.
            inner_loop Q fixed j _ _ (λ k. (j, k, r - add32 (add32 j k) fixed, fixed))
              (omega (arith, laws.floor-le-ceil)) (λ k h. omega (arith, l, u, cap, facts, h)))
          (λ z. omega (arith, z, facts, clip-le o320 r, clip-le o300 r))

    middle_loop :
        (Q : Hits → Type 0) (j lo hi : ℕ) (body : ℕ → Best f → Best f)
        → lo ≤ hi
        → ((k : ℕ) → k ≤ hi → Rounds Q 0 j (body k))
        → Rounds Q 0 j (for_inclusive lo hi body)
    middle_loop Q j lo hi body le rounds = (
      λ b q.
          for_inclusive_keeps (λ (b : Best f). Q b.1) body lo hi b (λ k t l u s. (rounds k u).0 t s)
            q,
      λ h₀ p.
          for_inclusive_first (λ (b : Best f). Q b.1) body lo hi (f.infinity, h₀)
            (λ k t l u s. (rounds k u).0 t s) le ((rounds lo le).1 h₀ p),
    )

    -- The search for all three.
    pub search_all-Fits :
        let h = (search_all f acc n_objects r misses (given o320 o300 none none none r)).1 in
        P 0 h × Free r 0 h
    unfolding search_all try_n200_of_all try_n100_of_all
    search_all-Fits =
        let cap = cap_of-le o320 o300 base (r - 0) in
        let Q : Hits → Type 0 = λ h. P 0 h × Free r 0 h in
        outer_loop Q 0 _ _ _ _ (range_laws.all acc n_objects r unit small (omega arith))
          (omega arith)
          (λ j l u.
            let top : j ≤ r = omega (arith, l, u, cap, facts) in
            middle_loop Q j _ _ _
              (range_laws.all-n200 acc n_objects r j unit small (omega arith) top)
              (λ k m.
                inner_loop Q 0 j _ _ (λ i. (j, k, i, sub32 (sub32 (sub32 r j) k) i))
                  (omega (arith, laws.floor-le-ceil))
                  (λ i h. omega (arith, l, u, cap, facts, m, h))))
          (λ z. omega (arith, z, facts, clip-le o320 r, clip-le o300 r))
