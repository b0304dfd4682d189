-- ===== src/Osu/Performance/Total.antt =====
-- What `generate_state` of src/osu/performance/mod.rs promises: the hit results make up the
-- objects, slider hits and combo stay within the map's, and completing a completed state changes
-- nothing.
use old_ccv3_pp.Base.{
  ℕ, ◌+◌, ◌-◌, ◌*◌, ◌≤◌, ◌<◌, Bool, true, false, Option, none, some, add32, sub32, u32_mod, min,
  ◌≡◌, refl, ◌∙◌, arith,
}
use old_ccv3_pp.Float.{Floats, FloatLaws}
use old_ccv3_pp.Any.Mode.{Result, ok, again_of_fixed, clip, clip-le}
use old_ccv3_pp.Any.Difficulty.{Mods, Difficulty}
use old_ccv3_pp.Any.Difficulty.Inspect.{OptAll}
use old_ccv3_pp.Any.Score.{OsuScoreState}
use old_ccv3_pp.Any.Score.Accuracy.{max_slider_part}
use old_ccv3_pp.Util.MapOrAttrs.{MapOrAttrs, resolve, resolve-again}
use old_ccv3_pp.Osu.Search.{HitResults}
use old_ccv3_pp.Osu.Search.Completed.{
  Completed, Complete, with_acc-Completed, with_acc_fixed, without_acc-Completed, without_acc_fixed,
}
use old_ccv3_pp.Osu.Performance.{
  OsuDifficultyAttributes, OsuPerformance, SliderHits, all_or, n_objects, slider_hits, set_state,
  passed_objects, sliders, hitresults, state_for, generate_state,
}

all_or-le : (o : Option ℕ) (n : ℕ) → all_or o n ≤ n
all_or-le none n = omega arith
all_or-le (some k) n = omega arith

all_or-again : (o : Option ℕ) (n : ℕ) → min (all_or o n) n ≡ all_or o n
all_or-again none n = omega arith
all_or-again (some k) n = omega arith

-- Slider hits that are within the map's are read back as they are.
pub slider_hits-again :
    {F64 : Type 0} (attrs : OsuDifficultyAttributes F64) (lazer classic : Bool)
    (ends ticks : Option ℕ)
    → let s = slider_hits attrs lazer classic ends ticks in
      slider_hits attrs lazer classic (some s.slider_end_hits) (some s.large_tick_hits) ≡ s
unfolding slider_hits
slider_hits-again attrs false classic ends ticks = refl
slider_hits-again attrs true false ends ticks =
    cc (all_or-again ends attrs.n_sliders, all_or-again ticks attrs.n_large_ticks)
slider_hits-again attrs true true ends ticks = cc (
  all_or-again ends attrs.n_sliders,
  all_or-again ticks (add32 attrs.n_sliders attrs.n_large_ticks),
)

-- The slider hits are within what the map has.
slider_hits_le :
    {F64 : Type 0} (attrs : OsuDifficultyAttributes F64) (lazer classic : Bool)
    (ends ticks : Option ℕ)
    → let s = slider_hits attrs lazer classic ends ticks in
      (s.slider_end_hits ≤ attrs.n_sliders)
      × (s.large_tick_hits ≤ attrs.n_sliders + attrs.n_large_ticks)
unfolding slider_hits
slider_hits_le attrs false classic ends ticks = omega arith
slider_hits_le attrs true false ends ticks =
    omega (arith, all_or-le ends attrs.n_sliders, all_or-le ticks attrs.n_large_ticks)
slider_hits_le attrs true true ends ticks = omega (
  arith,
  all_or-le ends attrs.n_sliders,
  all_or-le ticks (add32 attrs.n_sliders attrs.n_large_ticks),
)

module _ (f : Floats) (m : Mods (f.F64)) (Map : Type 0) (laws : FloatLaws f) where
  open f use {F64}

  module _ (total misses : ℕ) (within : misses ≤ total) (s : SliderHits)
      (small : 300 * total + max_slider_part f laws s.origin < u32_mod) where
    sub32_lem : sub32 total misses ≡ total - misses
    sub32_lem = omega arith

    hitresults-Completed :
        (p : OsuPerformance f m Map) (acc : Option F64)
        → p.acc ≡ acc
        → OptAll (laws.InUnit) acc
        → Completed total misses p.n300 p.n100 p.n50 (hitresults f m Map p s total misses)
    unfolding hitresults
    hitresults-Completed p (some acc) e u =
        rw (e, sub32_lem)
          (with_acc-Completed f laws acc s.origin total misses s.slider_end_hits s.large_tick_hits
            within small _ _ p.hitresult_priority p.n300 p.n100 p.n50 u)
    hitresults-Completed p none e u =
        rw (e, sub32_lem)
          (without_acc-Completed total misses within (omega arith) p.hitresult_priority p.n300
            p.n100 p.n50)

    -- Results that make up the objects are left as they are.
    hitresults_fixed :
        (p : OsuPerformance f m Map) (acc : Option F64) (a b c : ℕ)
        → p.acc ≡ acc
        → p.n300 ≡ some a
        → p.n100 ≡ some b
        → p.n50 ≡ some c
        → Complete total misses within (omega arith) (a, b, c)
        → hitresults f m Map p s total misses ≡ (a, b, c)
    unfolding hitresults
    hitresults_fixed p (some acc) a b c e ea eb ec h =
        rw (e, ea, eb, ec, sub32_lem)
          (with_acc_fixed f laws acc s.origin total misses s.slider_end_hits s.large_tick_hits
            within small _ _ p.hitresult_priority a b c h)
    hitresults_fixed p none a b c e ea eb ec h =
        rw (e, ea, eb, ec, sub32_lem)
          (without_acc_fixed total misses within (omega arith) p.hitresult_priority a b c h)

  module _ (p : OsuPerformance f m Map) (attrs : OsuDifficultyAttributes F64)
      (small : 300 * n_objects attrs + max_slider_part f laws (sliders f m Map p attrs).origin
        < u32_mod)
      (unit : OptAll (laws.InUnit) p.acc) where
    total : ℕ
    total = passed_objects f m Map p attrs

    total_le : total ≤ n_objects attrs
    unfolding total passed_objects
    total_le = omega arith

    state_misses : ℕ
    state_misses = clip p.misses total

    state_Completed :
        let s = state_for f m Map p attrs in
        (s.misses ≤ total) × Completed total s.misses p.n300 p.n100 p.n50 (s.n300, s.n100, s.n50)
    unfolding state_for total state_misses
    state_Completed = (
      clip-le p.misses total,
      hitresults-Completed total state_misses (clip-le p.misses total) (sliders f m Map p attrs)
          (omega (arith, total_le)) p p.acc refl unit,
    )

    state_sliders :
        let s = state_for f m Map p attrs in
        (s.slider_end_hits ≤ attrs.n_sliders)
        × (s.large_tick_hits ≤ attrs.n_sliders + attrs.n_large_ticks)
    unfolding state_for sliders
    state_sliders = slider_hits_le attrs _ _ p.slider_end_hits p.large_tick_hits

    combo_le :
        (state_for f m Map p attrs).max_combo ≤ attrs.max_combo - (state_for f m Map p attrs).misses
    unfolding state_for
    combo_le = all_or-le p.combo _

  module _ (calculate_for_mode : Difficulty f m → Map → Result (OsuDifficultyAttributes F64))
      (p : OsuPerformance f m Map) where
    generate_state_for :
        (mo : _) (attrs : OsuDifficultyAttributes F64)
        → resolve (calculate_for_mode p.difficulty) p.map_or_attrs ≡ ok (mo, attrs)
        → let s = state_for f m Map p attrs in
          generate_state f m Map calculate_for_mode p
          ≡ ok (s, set_state f m Map (record p { map_or_attrs = mo }) s)
    unfolding generate_state
    generate_state_for mo attrs e = rw e refl

  module _ (p : OsuPerformance f m Map) (attrs : OsuDifficultyAttributes F64)
      (small : 300 * n_objects attrs + max_slider_part f laws (sliders f m Map p attrs).origin
        < u32_mod)
      (unit : OptAll (laws.InUnit) p.acc) where
    again : MapOrAttrs Map (OsuDifficultyAttributes F64) → OsuPerformance f m Map
    again mo = set_state f m Map (record p { map_or_attrs = mo }) (state_for f m Map p attrs)

    module _ (mo : MapOrAttrs Map (OsuDifficultyAttributes F64)) where
      total-again : passed_objects f m Map (again mo) attrs ≡ total p attrs small unit
      unfolding again set_state passed_objects total
      total-again = refl

      misses-again :
          (state_for f m Map (again mo) attrs).misses ≡ (state_for f m Map p attrs).misses
      unfolding again set_state state_for
      misses-again = omega (
        arith,
        total-again,
        clip-le p.misses (passed_objects f m Map p attrs),
        (state_Completed p attrs small unit).0,
      )

      sliders-again : sliders f m Map (again mo) attrs ≡ sliders f m Map p attrs
      unfolding again set_state state_for sliders
      sliders-again = slider_hits-again attrs _ _ p.slider_end_hits p.large_tick_hits

      hits_of_state :
          (q : OsuPerformance f m Map) (s : SliderHits) (t k : ℕ)
          → sliders f m Map q attrs ≡ s
          → passed_objects f m Map q attrs ≡ t
          → (state_for f m Map q attrs).misses ≡ k
          → let r = state_for f m Map q attrs in
            ◌≡◌ {A = HitResults} (r.n300, r.n100, r.n50) (hitresults f m Map q s t k)
      unfolding state_for
      hits_of_state q s t k es et ek = λ i. hitresults f m Map q (es i) (et i) (ek i)

      hits-again :
          let s = state_for f m Map p attrs in
          ◌≡◌ {A = HitResults}
            (hitresults f m Map
              (again mo)
              (sliders f m Map p attrs)
              (total p attrs small unit)
              s.misses)
            (s.n300, s.n100, s.n50)
      unfolding again set_state
      hits-again =
          let s = state_for f m Map p attrs in
          let c = state_Completed p attrs small unit in
          hitresults_fixed (total p attrs small unit) s.misses c.0 (sliders f m Map p attrs)
            (omega (arith, total_le p attrs small unit)) (again mo) p.acc s.n300 s.n100 s.n50 refl
            refl refl refl (c.1.1, c.1.2, c.1.3, omega arith)

      combo_of :
          (q : OsuPerformance f m Map) (c : ℕ)
          → q.combo ≡ some c
          → c ≤ attrs.max_combo - (state_for f m Map q attrs).misses
          → (state_for f m Map q attrs).max_combo ≡ c
      unfolding state_for
      combo_of q c e h = rw e (omega arith)

      combo-again :
          (state_for f m Map (again mo) attrs).max_combo ≡ (state_for f m Map p attrs).max_combo
      combo-again =
          combo_of (again mo) (state_for f m Map p attrs).max_combo (unfold again set_state in refl)
            (rw misses-again (combo_le p attrs small unit))

      ticks-again :
          (q : OsuPerformance f m Map)
          → sliders f m Map q attrs ≡ sliders f m Map p attrs
          → (◌≡◌ {A = ℕ × ℕ}
              (
                (state_for f m Map q attrs).slider_end_hits,
                (state_for f m Map q attrs).large_tick_hits,
              )
              (
                (state_for f m Map p attrs).slider_end_hits,
                (state_for f m Map p attrs).large_tick_hits,
              ))
      unfolding state_for
      ticks-again q e = λ i. ((e i).slider_end_hits, (e i).large_tick_hits)

      state_again : state_for f m Map (again mo) attrs ≡ state_for f m Map p attrs
      state_again =
          let hits =
            hits_of_state (again mo) _ _ _ sliders-again total-again misses-again ∙ hits-again in
          let ticks = ticks-again (again mo) sliders-again in
          λ i. record {
            max_combo = combo-again i;
            large_tick_hits = (ticks i).1;
            slider_end_hits = (ticks i).0;
            n300 = (hits i).0;
            n100 = (hits i).1;
            n50 = (hits i).2;
            misses = misses-again i;
          }

  module _ (calculate_for_mode : Difficulty f m → Map → Result (OsuDifficultyAttributes F64))
      (p : OsuPerformance f m Map) (mo : MapOrAttrs Map (OsuDifficultyAttributes F64))
      (attrs : OsuDifficultyAttributes F64)
      (found : resolve (calculate_for_mode p.difficulty) p.map_or_attrs ≡ ok (mo, attrs))
      (small : 300 * n_objects attrs + max_slider_part f laws (sliders f m Map p attrs).origin
        < u32_mod)
      (unit : OptAll (laws.InUnit) p.acc) where
    -- osu!'s `generate_state` gives a state whenever the attributes are known or can be
    -- calculated, if the largest denominator of an accuracy fits a `u32` and a given accuracy lies
    -- between 0 and 1; its hit results and misses add up to the passed objects (or to the larger
    -- number that was claimed), its slider hits are within the map's and its combo is at most the
    -- map's without the misses.
    pub osu_generate_state-Completed :
        let t = passed_objects f m Map p attrs in
        (s : OsuScoreState) × (generate_state f m Map calculate_for_mode p
          ≡ ok (s, set_state f m Map (record p { map_or_attrs = mo }) s))
        × (s.misses ≤ t)
        × Completed t s.misses p.n300 p.n100 p.n50 (s.n300, s.n100, s.n50)
        × (s.slider_end_hits ≤ attrs.n_sliders)
        × (s.large_tick_hits ≤ attrs.n_sliders + attrs.n_large_ticks)
        × (s.max_combo ≤ attrs.max_combo - s.misses)
    osu_generate_state-Completed =
        let c = state_Completed p attrs small unit in
        let l = state_sliders p attrs small unit in
        (
          state_for f m Map p attrs,
          generate_state_for calculate_for_mode p mo attrs found,
          unfold total in c.0,
          unfold total in c.1,
          l.0,
          l.1,
          combo_le p attrs small unit,
        )

    -- Under the conditions of `osu_generate_state-Completed`, generating the state of the
    -- calculator that osu!'s `generate_state` leaves gives the same state and leaves the same
    -- calculator.
    pub osu_generate_state-again :
        (s : OsuScoreState) (p' : OsuPerformance f m Map)
        → generate_state f m Map calculate_for_mode p ≡ ok (s, p')
        → generate_state f m Map calculate_for_mode p' ≡ ok (s, p')
    osu_generate_state-again s p' e =
        again_of_fixed (generate_state f m Map calculate_for_mode) p (again p attrs small unit mo)
          (state_for f m Map p attrs)
          (unfold again in generate_state_for calculate_for_mode p mo attrs found) fixed s p' e
      where
        fixed :
            generate_state f m Map calculate_for_mode (again p attrs small unit mo)
            ≡ ok (state_for f m Map p attrs, again p attrs small unit mo)
        fixed =
            generate_state_for calculate_for_mode (again p attrs small unit mo) mo attrs (
              unfold again set_state in
              resolve-again (calculate_for_mode p.difficulty) (calculate_for_mode p.difficulty)
                p.map_or_attrs mo attrs found)
            ∙ rw (state_again p attrs small unit mo) (unfold again set_state in refl)
