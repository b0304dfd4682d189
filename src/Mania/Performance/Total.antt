-- ===== src/Mania/Performance/Total.antt =====
-- What `generate_state` of src/mania/performance/mod.rs promises: the hit results make up the objects,
-- and completing a completed state changes nothing.
use old_ccv3_pp.Base.{
  ℕ, ◌+◌, ◌-◌, ◌*◌, ◌≤◌, ◌<◌, Option, none, some, sub32, u32_mod, ◌≡◌, refl, ◌∙◌, arith, Bool-cases,
  inl, inr,
}
use old_ccv3_pp.Float.{Floats, FloatLaws}
use old_ccv3_pp.Any.Mode.{Result, ok, again_of_fixed, clip, clip-le}
use old_ccv3_pp.Any.Difficulty.{Mods, Difficulty, get_lazer}
use old_ccv3_pp.Any.Difficulty.Inspect.{OptAll}
use old_ccv3_pp.Any.Score.{ManiaScoreState}
use old_ccv3_pp.Util.MapOrAttrs.{MapOrAttrs, resolve, resolve-again}
use old_ccv3_pp.Mania.Search.{HitResults}
use old_ccv3_pp.Mania.Arms.Fits.{MakesUp}
use old_ccv3_pp.Mania.Arms.Ranges.{RangeLaws}
use old_ccv3_pp.Mania.Completion.Completed.{
  claimed, Complete, with_acc-MakesUp, with_acc_fixed, without_acc-MakesUp, without_acc_fixed,
}
use old_ccv3_pp.Mania.Performance.{
  ManiaDifficultyAttributes, ManiaPerformance, set_state, passed_objects, n_objects, clipped,
  hitresults, state_for, generate_state,
}

module _ (f : Floats) (m : Mods (f.F64)) (Map : Type 0) (laws : FloatLaws f)
    (range_laws : RangeLaws f laws) where
  open f use {F64}

  module _ (total misses : ℕ) (within : misses ≤ total) (small : 36 * total < u32_mod) where
    sub32_lem : sub32 total misses ≡ total - misses
    sub32_lem = omega arith

    hitresults-MakesUp :
        (p : ManiaPerformance f m Map) (acc : Option F64)
        → p.acc ≡ acc
        → OptAll (laws.InUnit) acc
        → MakesUp total misses
            (claimed p.n320 p.n300 p.n200 p.n100 p.n50 (total - misses))
            (hitresults f m Map p total misses)
    unfolding hitresults clipped
    hitresults-MakesUp p (some acc) e u =
        rw (e, sub32_lem)
          (with_acc-MakesUp f laws range_laws acc u total misses within small p.hitresult_priority
            p.n320 p.n300 p.n200 p.n100 p.n50)
    hitresults-MakesUp p none e u =
        rw (e, sub32_lem)
          (without_acc-MakesUp total misses within small p.hitresult_priority p.n320 p.n300 p.n200
            p.n100 p.n50)

    -- Results that make up the objects are left as they are.
    hitresults_fixed :
        (p : ManiaPerformance f m Map) (acc : Option F64) (h : HitResults)
        → p.acc ≡ acc
        → OptAll (laws.InUnit) acc
        → p.n320 ≡ some h.0
        → p.n300 ≡ some h.1
        → p.n200 ≡ some h.2
        → p.n100 ≡ some h.3
        → p.n50 ≡ some h.4
        → Complete total misses h
        → hitresults f m Map p total misses ≡ h
    unfolding hitresults clipped
    hitresults_fixed p (some acc) h e u ea eb ec ed ee c =
        rw (e, ea, eb, ec, ed, ee, sub32_lem)
          (with_acc_fixed f laws range_laws acc u total misses within small p.hitresult_priority h
            c)
    hitresults_fixed p none h e u ea eb ec ed ee c =
        rw (e, ea, eb, ec, ed, ee, sub32_lem)
          (without_acc_fixed total misses within small p.hitresult_priority h c)

  module _ (p : ManiaPerformance f m Map) (attrs : ManiaDifficultyAttributes F64)
      (small : 36 * (attrs.n_objects + attrs.n_hold_notes) < u32_mod)
      (unit : OptAll (laws.InUnit) p.acc) where
    passed_le : passed_objects f m Map p attrs ≤ attrs.n_objects
    unfolding passed_objects
    passed_le = omega arith

    total : ℕ
    total = n_objects f m Map p attrs

    total_bounds : (passed_objects f m Map p attrs ≤ total) × (36 * total < u32_mod)
    unfolding total n_objects
    total_bounds = elim (Bool-cases (get_lazer f m p.difficulty)) [
      | inl e ↦ rw e (omega (arith, passed_le))
      | inr e ↦ rw e (omega (arith, passed_le))
    ]

    state_misses : ℕ
    state_misses = clip p.misses (passed_objects f m Map p attrs)

    misses_le : state_misses ≤ total
    unfolding state_misses
    misses_le = omega (arith, clip-le p.misses (passed_objects f m Map p attrs), total_bounds)

    state_Completed :
        let s = state_for f m Map p attrs in
        (s.misses ≤ passed_objects f m Map p attrs)
        × MakesUp total s.misses
            (claimed p.n320 p.n300 p.n200 p.n100 p.n50 (total - s.misses))
            (s.n320, s.n300, s.n200, s.n100, s.n50)
    unfolding state_for total state_misses
    state_Completed = (
      clip-le p.misses (passed_objects f m Map p attrs),
      hitresults-MakesUp total state_misses misses_le total_bounds.1 p p.acc refl unit,
    )

    again : MapOrAttrs Map (ManiaDifficultyAttributes F64) → ManiaPerformance f m Map
    again mo = set_state f m Map (record p { map_or_attrs = mo }) (state_for f m Map p attrs)

    module _ (mo : MapOrAttrs Map (ManiaDifficultyAttributes F64)) where
      passed-again : passed_objects f m Map (again mo) attrs ≡ passed_objects f m Map p attrs
      unfolding again set_state passed_objects
      passed-again = refl

      total-again : n_objects f m Map (again mo) attrs ≡ total
      unfolding again set_state n_objects passed_objects total
      total-again = refl

      misses-again :
          (state_for f m Map (again mo) attrs).misses ≡ (state_for f m Map p attrs).misses
      unfolding again set_state state_for
      misses-again = omega (arith, passed-again, clip-le p.misses (passed_objects f m Map p attrs))

      hits_of_state :
          (q : ManiaPerformance f m Map) (t k : ℕ)
          → n_objects f m Map q attrs ≡ t
          → (state_for f m Map q attrs).misses ≡ k
          → let s = state_for f m Map q attrs in
            ◌≡◌ {A = HitResults} (s.n320, s.n300, s.n200, s.n100, s.n50) (hitresults f m Map q t k)
      unfolding state_for
      hits_of_state q t k et ek = λ i. hitresults f m Map q (et i) (ek i)

      hits-again :
          let s = state_for f m Map p attrs in
          ◌≡◌ {A = HitResults}
            (hitresults f m Map (again mo) total s.misses)
            (s.n320, s.n300, s.n200, s.n100, s.n50)
      unfolding again set_state
      hits-again =
          let s = state_for f m Map p attrs in
          let c = state_Completed in
          hitresults_fixed total s.misses (omega (arith, c.0, total_bounds)) total_bounds.1
            (again mo) p.acc (s.n320, s.n300, s.n200, s.n100, s.n50) refl unit refl refl refl refl
            refl (omega (arith, c.1))

      state_again : state_for f m Map (again mo) attrs ≡ state_for f m Map p attrs
      state_again =
          let hits = hits_of_state (again mo) _ _ total-again misses-again ∙ hits-again in
          λ i. record {
            n320 = (hits i).0;
            n300 = (hits i).1;
            n200 = (hits i).2;
            n100 = (hits i).3;
            n50 = (hits i).4;
            misses = misses-again i;
          }

  module _ (calculate_for_mode : Difficulty f m → Map → Result (ManiaDifficultyAttributes F64))
      (p : ManiaPerformance f m Map) where
    generate_state_for :
        (mo : _) (attrs : ManiaDifficultyAttributes F64)
        → resolve (calculate_for_mode p.difficulty) p.map_or_attrs ≡ ok (mo, attrs)
        → let s = state_for f m Map p attrs in
          generate_state f m Map calculate_for_mode p
          ≡ ok (s, set_state f m Map (record p { map_or_attrs = mo }) s)
    unfolding generate_state
    generate_state_for mo attrs e = rw e refl

  module _ (calculate_for_mode : Difficulty f m → Map → Result (ManiaDifficultyAttributes F64))
      (p : ManiaPerformance f m Map) (mo : MapOrAttrs Map (ManiaDifficultyAttributes F64))
      (attrs : ManiaDifficultyAttributes F64)
      (found : resolve (calculate_for_mode p.difficulty) p.map_or_attrs ≡ ok (mo, attrs))
      (small : 36 * (attrs.n_objects + attrs.n_hold_notes) < u32_mod)
      (unit : OptAll (laws.InUnit) p.acc) where
    -- Where the attributes are known or can be calculated, 36 times the map's objects and hold
    -- notes fit a `u32`, a given accuracy lies between 0 and 1 and the ranges of the nested
    -- searches are not empty (`RangeLaws`), mania's `generate_state` gives a state, which the
    -- calculator keeps with the attributes. Its misses are at most the passed objects; its hit
    -- results and misses add up to the passed objects, with the hold notes on lazer, or, if more
    -- was claimed, to what was claimed; and each hit result is within what the misses leave.
    pub mania_generate_state-MakesUp :
        let t = n_objects f m Map p attrs in
        (s : ManiaScoreState) × (generate_state f m Map calculate_for_mode p
          ≡ ok (s, set_state f m Map (record p { map_or_attrs = mo }) s))
        × (s.misses ≤ passed_objects f m Map p attrs)
        × MakesUp t s.misses
            (claimed p.n320 p.n300 p.n200 p.n100 p.n50 (t - s.misses))
            (s.n320, s.n300, s.n200, s.n100, s.n50)
    mania_generate_state-MakesUp =
        let c = state_Completed p attrs small unit in
        (
          state_for f m Map p attrs,
          generate_state_for calculate_for_mode p mo attrs found,
          c.0,
          unfold total in c.1,
        )

    -- Under the conditions of `mania_generate_state-MakesUp`, generating the state of the
    -- calculator that mania's `generate_state` leaves gives the same state and leaves the same
    -- calculator.
    pub mania_generate_state-again :
        (s : ManiaScoreState) (p' : ManiaPerformance f m Map)
        → generate_state f m Map calculate_for_mode p ≡ ok (s, p')
        → generate_state f m Map calculate_for_mode p' ≡ ok (s, p')
    mania_generate_state-again s p' e =
        again_of_fixed (generate_state f m Map calculate_for_mode) p (again p attrs small unit mo)
          (state_for f m Map p attrs)
          (unfold again in generate_state_for calculate_for_mode p mo attrs found) fixed s p' e
      where
        fixed :
            generate_state f m Map calculate_for_mode (again p attrs small unit mo)
            ≡ ok (state_for f m Map p attrs, again p attrs small unit mo)
        fixed =
            generate_state_for calculate_for_mode (again p attrs small unit mo) mo attrs (
              unfold again set_state in
              resolve-again (calculate_for_mode p.difficulty) (calculate_for_mode p.difficulty)
                p.map_or_attrs mo attrs found)
            ∙ rw (state_again p attrs small unit mo) (unfold again set_state in refl)
