-- ===== src/Taiko/Performance/Total.antt =====
-- What `generate_state` promises: the hit results add up to the passed objects, within the map's
-- combo, and completing a completed state changes nothing.
use old_ccv3_pp.Base.{
  ℕ, ◌+◌, ◌-◌, ◌*◌, ◌≤◌, ◌<◌, Option, none, some, add32, sub32, u32_mod, max, ◌≡◌, refl, ◌∙◌, arith,
  Bool-cases, inl, inr,
}
use old_ccv3_pp.Base.Loops.{for_inclusive_first}
use old_ccv3_pp.Float.{Floats, FloatLaws}
use old_ccv3_pp.Any.Mode.{
  Result, ok, again_of_fixed, HitResultPriority, best_case, worst_case, clip, clip-le,
}
use old_ccv3_pp.Any.Difficulty.{Mods, Difficulty}
use old_ccv3_pp.Any.Difficulty.Inspect.{OptAll}
use old_ccv3_pp.Any.Score.{TaikoScoreState}
use old_ccv3_pp.Any.Score.Accuracy.{guarded-InUnit}
use old_ccv3_pp.Util.MapOrAttrs.{MapOrAttrs, resolve, resolve-again}
use old_ccv3_pp.Taiko.Performance.{
  TaikoDifficultyAttributes, TaikoPerformance, set_state, accuracy, Best, try_n300, search_n300,
  with_acc, without_acc, hitresults, total_result_count, state_for, generate_state,
}

module _ (f : Floats) (m : Mods (f.F64)) (Map : Type 0) (laws : FloatLaws f) where
  open f use {F64, abs, sub, lt, max_value, floor, ceil, to_u32}

  accuracy-InUnit :
      (n300 n100 misses : ℕ)
      → 2 * (n300 + n100 + misses) < u32_mod
      → laws.InUnit (accuracy f m Map n300 n100 misses)
  unfolding accuracy
  accuracy-InUnit n300 n100 misses h =
      guarded-InUnit f laws _ _ _ (λ p. omega arith) (omega arith) (omega arith)

  module _ (acc : F64) (unit : laws.InUnit acc) (n_remaining misses : ℕ)
      (small : 2 * (n_remaining + misses) < u32_mod) where
    abbrev Sums : Best f m Map → Type 0
    Sums (d, n300, n100) = n300 + n100 ≡ n_remaining

    try_n300_keeps :
        (j : ℕ) (b : Best f m Map)
        → j ≤ n_remaining
        → Sums b
        → Sums (try_n300 f m Map acc n_remaining misses j b)
    unfolding try_n300
    try_n300_keeps j (d, n300, n100) h s =
        elim (Bool-cases (lt (abs (sub acc (accuracy f m Map j (sub32 n_remaining j) misses))) d)) [
          | inl e ↦ rw e (omega arith)
          | inr e ↦ rw e s
        ]

    try_n300_first :
        (j n300 n100 : ℕ)
        → j ≤ n_remaining
        → Sums (try_n300 f m Map acc n_remaining misses j (max_value, n300, n100))
    unfolding try_n300
    try_n300_first j n300 n100 h =
        let closer =
          laws.dist-lt-max_value acc (accuracy f m Map j (sub32 n_remaining j) misses) unit
            (accuracy-InUnit j (sub32 n_remaining j) misses (omega arith)) in
        rw closer (omega arith)

    search_n300-Sums :
        (total n300 n100 : ℕ) → Sums (search_n300 f m Map acc total n_remaining misses n300 n100)
    unfolding search_n300
    search_n300-Sums total n300 n100 =
        for_inclusive_first Sums (try_n300 f m Map acc n_remaining misses) _ _
          (max_value, n300, n100) (λ j t lo hi s. try_n300_keeps j t (omega arith) s)
          (omega (arith, laws.floor-le-ceil)) (try_n300_first _ n300 n100 (omega arith))

  -- What the hit results that were given claim.
  abbrev pub claimed : Option ℕ → Option ℕ → ℕ → ℕ → ℕ
  claimed o300 o100 n_remaining misses = clip o300 n_remaining + clip o100 n_remaining + misses

  -- The completed results make up the total, unless more was claimed, and fit what misses leave.
  abbrev pub Completed : ℕ → ℕ → Option ℕ → Option ℕ → ℕ → ℕ → Type 0
  Completed total misses o300 o100 n300 n100 =
      (n300 + n100 + misses ≡ max total (claimed o300 o100 (total - misses) misses))
      × (n300 ≤ total - misses)
      × (n100 ≤ total - misses)

  module _ (total misses : ℕ) (within : misses ≤ total) (small : 2 * total < u32_mod) where
    with_acc-Completed :
        (priority : HitResultPriority) (acc : F64) (o300 o100 : Option ℕ)
        → laws.InUnit acc
        → let (n300, n100) =
            with_acc f m Map priority acc total misses o300 o100
              (clip o300 (total - misses))
              (clip o100 (total - misses)) in
          Completed total misses o300 o100 n300 n100
    unfolding with_acc
    with_acc-Completed best_case acc (some a) (some b) u = omega arith
    with_acc-Completed worst_case acc (some a) (some b) u = omega arith
    with_acc-Completed best_case acc (some a) none u = omega arith
    with_acc-Completed worst_case acc (some a) none u = omega arith
    with_acc-Completed best_case acc none (some b) u = omega arith
    with_acc-Completed worst_case acc none (some b) u = omega arith
    with_acc-Completed best_case acc none none u =
        omega (arith, search_n300-Sums acc u (sub32 total misses) misses (omega arith) total 0 0)
    with_acc-Completed worst_case acc none none u =
        omega (arith, search_n300-Sums acc u (sub32 total misses) misses (omega arith) total 0 0)

    without_acc-Completed :
        (priority : HitResultPriority) (o300 o100 : Option ℕ)
        → let a = clip o300 (total - misses) in
          let b = clip o100 (total - misses) in
          let (n300, n100) =
            without_acc f m Map priority (total - add32 (add32 a b) misses) o300 o100 a b in
          Completed total misses o300 o100 n300 n100
    unfolding without_acc
    without_acc-Completed best_case none none = omega arith
    without_acc-Completed best_case none (some b) = omega arith
    without_acc-Completed best_case (some a) none = omega arith
    without_acc-Completed best_case (some a) (some b) = omega arith
    without_acc-Completed worst_case none none = omega arith
    without_acc-Completed worst_case none (some b) = omega arith
    without_acc-Completed worst_case (some a) none = omega arith
    without_acc-Completed worst_case (some a) (some b) = omega arith

    sub32_lem : sub32 total misses ≡ total - misses
    sub32_lem = omega arith

    hitresults-Completed :
        (p : TaikoPerformance f m Map) (acc : Option F64)
        → p.acc ≡ acc
        → OptAll (laws.InUnit) acc
        → let (n300, n100) = hitresults f m Map p total misses in
          Completed total misses p.n300 p.n100 n300 n100
    unfolding hitresults
    hitresults-Completed p (some acc) e u =
        rw (e, sub32_lem) (with_acc-Completed p.hitresult_priority acc p.n300 p.n100 u)
    hitresults-Completed p none e u =
        rw (e, sub32_lem) (without_acc-Completed p.hitresult_priority p.n300 p.n100)

    -- Results that make up the total are left as they are.
    hitresults_fixed :
        (p : TaikoPerformance f m Map) (acc : Option F64) (priority : HitResultPriority) (a b : ℕ)
        → p.acc ≡ acc
        → p.hitresult_priority ≡ priority
        → p.n300 ≡ some a
        → p.n100 ≡ some b
        → a ≤ total - misses
        → b ≤ total - misses
        → total ≤ a + b + misses
        → hitresults f m Map p total misses ≡ (a, b)
    unfolding hitresults with_acc without_acc
    hitresults_fixed p (some acc) best_case a b e q ea eb la lb le =
        rw (e, q, ea, eb, sub32_lem) (ground arith)
    hitresults_fixed p (some acc) worst_case a b e q ea eb la lb le =
        rw (e, q, ea, eb, sub32_lem) (ground arith)
    hitresults_fixed p none best_case a b e q ea eb la lb le =
        rw (e, q, ea, eb, sub32_lem) (ground arith)
    hitresults_fixed p none worst_case a b e q ea eb la lb le =
        rw (e, q, ea, eb, sub32_lem) (ground arith)

  module _ (p : TaikoPerformance f m Map) (attrs : TaikoDifficultyAttributes F64)
      (small : 2 * attrs.max_combo < u32_mod) (unit : OptAll (laws.InUnit) p.acc) where
    total : ℕ
    total = total_result_count f m Map p attrs

    total_le : total ≤ attrs.max_combo
    unfolding total total_result_count
    total_le = omega arith

    state_misses : ℕ
    state_misses = clip p.misses total

    state_Completed :
        let s = state_for f m Map p attrs in
        (s.misses ≤ total) × Completed total s.misses p.n300 p.n100 s.n300 s.n100
    unfolding state_for total state_misses
    state_Completed = (
      clip-le p.misses total,
      hitresults-Completed total state_misses (clip-le p.misses total) (omega (arith, total_le)) p
          p.acc refl unit,
    )

    combo_le :
        (o : Option ℕ) (q : TaikoPerformance f m Map)
        → q.combo ≡ o
        → (state_for f m Map q attrs).max_combo
          ≤ attrs.max_combo - (state_for f m Map q attrs).misses
    unfolding state_for
    combo_le none q e = rw e (omega arith)
    combo_le (some c) q e = rw e (omega arith)

    combo_fixed :
        (q : TaikoPerformance f m Map) (c : ℕ)
        → q.combo ≡ some c
        → c ≤ attrs.max_combo - (state_for f m Map q attrs).misses
        → (state_for f m Map q attrs).max_combo ≡ c
    unfolding state_for
    combo_fixed q c e h = rw e (omega arith)

  module _ (calculate_for_mode : Difficulty f m → Map → Result (TaikoDifficultyAttributes F64))
      (p : TaikoPerformance f m Map) where
    generate_state_for :
        (mo : _) (attrs : TaikoDifficultyAttributes F64)
        → resolve (calculate_for_mode p.difficulty) p.map_or_attrs ≡ ok (mo, attrs)
        → let s = state_for f m Map p attrs in
          generate_state f m Map calculate_for_mode p
          ≡ ok (s, set_state f m Map (record p { map_or_attrs = mo }) s)
    unfolding generate_state
    generate_state_for mo attrs e = rw e refl

  module _ (p : TaikoPerformance f m Map) (attrs : TaikoDifficultyAttributes F64)
      (small : 2 * attrs.max_combo < u32_mod) (unit : OptAll (laws.InUnit) p.acc) where
    again : MapOrAttrs Map (TaikoDifficultyAttributes F64) → TaikoPerformance f m Map
    again mo = set_state f m Map (record p { map_or_attrs = mo }) (state_for f m Map p attrs)

    module _ (mo : MapOrAttrs Map (TaikoDifficultyAttributes F64)) where
      total-again : total_result_count f m Map (again mo) attrs ≡ total p attrs small unit
      unfolding again set_state total_result_count total
      total-again = refl

      misses_again :
          (state_for f m Map (again mo) attrs).misses ≡ (state_for f m Map p attrs).misses
      unfolding again set_state state_for
      misses_again = omega (
        arith,
        total-again,
        clip-le p.misses (total_result_count f m Map p attrs),
        (state_Completed p attrs small unit).0,
      )

      hits_of_state :
          (q : TaikoPerformance f m Map) (t k : ℕ)
          → total_result_count f m Map q attrs ≡ t
          → (state_for f m Map q attrs).misses ≡ k
          → let s = state_for f m Map q attrs in
            ◌≡◌ {A = ℕ × ℕ} (s.n300, s.n100) (hitresults f m Map q t k)
      unfolding state_for
      hits_of_state q t k et ek = λ i. hitresults f m Map q (et i) (ek i)

      hits_again :
          let s = state_for f m Map p attrs in
          hitresults f m Map (again mo) (total p attrs small unit) s.misses ≡ (s.n300, s.n100)
      unfolding again set_state
      hits_again =
          let s = state_for f m Map p attrs in
          let c = state_Completed p attrs small unit in
          hitresults_fixed (total p attrs small unit) s.misses c.0
            (omega (arith, total_le p attrs small unit)) (again mo) p.acc p.hitresult_priority
            s.n300 s.n100 refl refl refl refl (c.1.1) (c.1.2) (omega arith)

      combo_again :
          (state_for f m Map (again mo) attrs).max_combo ≡ (state_for f m Map p attrs).max_combo
      combo_again =
          combo_fixed p attrs small unit (again mo) (state_for f m Map p attrs).max_combo
            (unfold again set_state in refl)
            (rw misses_again (combo_le p attrs small unit p.combo p refl))

      state_again : state_for f m Map (again mo) attrs ≡ state_for f m Map p attrs
      state_again =
          let hits = hits_of_state (again mo) _ _ total-again misses_again ∙ hits_again in
          λ i. record {
            max_combo = combo_again i;
            n300 = (hits i).0;
            n100 = (hits i).1;
            misses = misses_again i;
          }

  module _ (calculate_for_mode : Difficulty f m → Map → Result (TaikoDifficultyAttributes F64))
      (p : TaikoPerformance f m Map) (mo : MapOrAttrs Map (TaikoDifficultyAttributes F64))
      (attrs : TaikoDifficultyAttributes F64)
      (found : resolve (calculate_for_mode p.difficulty) p.map_or_attrs ≡ ok (mo, attrs))
      (small : 2 * attrs.max_combo < u32_mod) (unit : OptAll (laws.InUnit) p.acc) where
    -- Where the attributes are known or can be calculated, twice the map's combo fits a `u32` and
    -- a given accuracy lies between 0 and 1, taiko's `generate_state` gives a state, which the
    -- calculator keeps with the attributes. Its misses are at most the passed objects, its hit
    -- results and misses add up to the passed objects or, if more was claimed, to what was
    -- claimed, and its combo is at most the map's without the misses.
    pub generate_state-Completed :
        let t = total_result_count f m Map p attrs in
        (s : TaikoScoreState) × (generate_state f m Map calculate_for_mode p
          ≡ ok (s, set_state f m Map (record p { map_or_attrs = mo }) s))
        × (s.misses ≤ t)
        × Completed t s.misses p.n300 p.n100 s.n300 s.n100
        × (s.max_combo ≤ attrs.max_combo - s.misses)
    generate_state-Completed =
        let c = state_Completed p attrs small unit in
        (
          state_for f m Map p attrs,
          generate_state_for calculate_for_mode p mo attrs found,
          unfold total in c.0,
          unfold total in c.1,
          combo_le p attrs small unit p.combo p refl,
        )

    -- Under the conditions of `generate_state-Completed`, generating the state of the calculator
    -- that taiko's `generate_state` leaves gives the same state and leaves the same calculator.
    pub taiko_generate_state-again :
        (s : TaikoScoreState) (p' : TaikoPerformance f m Map)
        → generate_state f m Map calculate_for_mode p ≡ ok (s, p')
        → generate_state f m Map calculate_for_mode p' ≡ ok (s, p')
    taiko_generate_state-again s p' e =
        again_of_fixed (generate_state f m Map calculate_for_mode) p (again p attrs small unit mo)
          (state_for f m Map p attrs)
          (unfold again in generate_state_for calculate_for_mode p mo attrs found) fixed s p' e
      where
        fixed :
            generate_state f m Map calculate_for_mode (again p attrs small unit mo)
            ≡ ok (state_for f m Map p attrs, again p attrs small unit mo)
        fixed =
            generate_state_for calculate_for_mode (again p attrs small unit mo) mo attrs (
              unfold again set_state in
              resolve-again (calculate_for_mode p.difficulty) (calculate_for_mode p.difficulty)
                p.map_or_attrs mo attrs found)
            ∙ rw (state_again p attrs small unit mo) (unfold again set_state in refl)
