-- ===== src/Catch/Performance/Total.antt =====
-- What `generate_state` promises: the counts make up the map's, and completing a completed state
-- changes nothing.

use old_ccv3_pp.Base.{
  ℕ, ◌+◌, ◌*◌, ◌≤◌, ◌<◌, Option, none, some, add32, sub32, u32_mod, min, max, ◌≡◌, refl, ◌∙◌, arith,
}
use old_ccv3_pp.Float.{Floats, FloatLaws}
use old_ccv3_pp.Any.Mode.{Result, ok, again_of_fixed}
use old_ccv3_pp.Any.Difficulty.{Mods, Difficulty, unwrap_or}
use old_ccv3_pp.Any.Difficulty.Inspect.{OptAll}
use old_ccv3_pp.Any.Score.{CatchScoreState}
use old_ccv3_pp.Util.MapOrAttrs.{MapOrAttrs, resolve, resolve-again}
use old_ccv3_pp.Catch.Performance.{
  clip, CatchDifficultyAttributes, CatchPerformance, fruits_and_droplets, tiny_droplets, set_state,
  state_for, generate_state,
}
use old_ccv3_pp.Catch.Performance.Hits.{
  fruits_and_droplets-sum, fruits_and_droplets_fixed, tiny_droplets-sum, tiny_droplets_fixed,
  claimed_tiny,
}

clip-le : (o : Option ℕ) (n : ℕ) → clip o n ≤ n
clip-le none n = omega arith
clip-le (some k) n = omega arith

abbrev pub IsCount : ℕ → Type 0
IsCount n = n < 1000000000

module _ (f : Floats) (m : Mods (f.F64)) (Map : Type 0) (laws : FloatLaws f) where
  open f use {F64}

  -- The counts that were given and the map's stay below a billion, so that no sum wraps; an accuracy
  -- lies between 0 and 1.
  pub record IsSmall (p : CatchPerformance f m Map) (attrs : CatchDifficultyAttributes F64)
      : Type 0 where
    pub map : IsCount (attrs.n_fruits + attrs.n_droplets + attrs.n_tiny_droplets)
    pub fruits : OptAll IsCount p.fruits
    pub droplets : OptAll IsCount p.droplets
    pub tiny_droplets : OptAll IsCount p.tiny_droplets
    pub tiny_droplet_misses : OptAll IsCount p.tiny_droplet_misses
    pub acc : OptAll (laws.InUnit) p.acc

  -- Fruits, droplets and misses make up the map's; tiny droplets and their misses make up the map's
  -- or, if both were given with no accuracy and are more, what was given.
  pub record IsComplete (p : CatchPerformance f m Map) (attrs : CatchDifficultyAttributes F64)
      (s : CatchScoreState) : Type 0 where
    pub sum : s.fruits + s.droplets + s.misses ≡ attrs.n_fruits + attrs.n_droplets
    pub tiny_sum :
        s.tiny_droplets + s.tiny_droplet_misses
        ≡ max attrs.n_tiny_droplets (claimed_tiny p.tiny_droplets p.tiny_droplet_misses p.acc)

  claimed_small :
      (ot otm : Option ℕ) (acc : Option F64)
      → OptAll IsCount ot
      → OptAll IsCount otm
      → claimed_tiny ot otm acc < 2 * 1000000000
  claimed_small (some t) (some tm) none ht htm = omega arith
  claimed_small (some t) (some tm) (some acc) ht htm = omega arith
  claimed_small (some t) none acc ht htm = omega arith
  claimed_small none otm acc ht htm = omega arith

  claimed_acc :
      (ot otm : Option ℕ) (acc : Option F64) (n k : ℕ)
      → k ≡ max n (claimed_tiny ot otm acc)
      → OptAll (λ _. k ≡ n) acc
  claimed_acc ot otm none n k e = tt
  claimed_acc (some t) (some tm) (some acc) n k e = omega arith
  claimed_acc (some t) none (some acc) n k e = omega arith
  claimed_acc none otm (some acc) n k e = omega arith

  module _ (p : CatchPerformance f m Map) (attrs : CatchDifficultyAttributes F64)
      (small : IsSmall p attrs) where
    misses : ℕ
    misses = clip p.misses (add32 attrs.n_fruits attrs.n_droplets)

    counts : ℕ × ℕ
    counts = fruits_and_droplets p.fruits p.droplets attrs.n_fruits attrs.n_droplets misses

    counts-sum : counts.0 + counts.1 + misses ≡ attrs.n_fruits + attrs.n_droplets
    unfolding counts
    counts-sum =
        fruits_and_droplets-sum p.fruits p.droplets attrs.n_fruits attrs.n_droplets misses
          (omega (arith, small.map)) small.fruits small.droplets
          (unfold misses in
            omega (arith, small.map, clip-le p.misses (add32 attrs.n_fruits attrs.n_droplets)))

    room : counts.0 + counts.1 + misses + attrs.n_tiny_droplets < u32_mod
    room = omega (arith, counts-sum, small.map)

    tiny-sum :
        let (t, tm) =
          tiny_droplets f counts.0 counts.1 misses attrs p.tiny_droplets p.tiny_droplet_misses
            p.acc in
        t + tm
        ≡ max attrs.n_tiny_droplets (claimed_tiny p.tiny_droplets p.tiny_droplet_misses p.acc)
    tiny-sum =
        tiny_droplets-sum f laws counts.0 counts.1 misses attrs room p.tiny_droplets
          p.tiny_droplet_misses p.acc small.tiny_droplets small.tiny_droplet_misses small.acc

    state-IsComplete : IsComplete p attrs (state_for f m Map p attrs)
    unfolding state_for misses counts
    state-IsComplete = record { sum = counts-sum; tiny_sum = tiny-sum }

    again : MapOrAttrs Map (CatchDifficultyAttributes F64) → CatchPerformance f m Map
    again mo = set_state f m Map (record p { map_or_attrs = mo }) (state_for f m Map p attrs)

    module _ (mo : MapOrAttrs Map (CatchDifficultyAttributes F64)) where
      build : ℕ → ℕ × ℕ → ℕ × ℕ → Option ℕ → CatchScoreState
      build k c t combo = record {
        max_combo = unwrap_or combo (sub32 (add32 attrs.n_fruits attrs.n_droplets) k);
        fruits = c.0;
        droplets = c.1;
        tiny_droplets = t.0;
        tiny_droplet_misses = t.1;
        misses = k;
      }

      again_misses : ℕ
      again_misses = min (state_for f m Map p attrs).misses (add32 attrs.n_fruits attrs.n_droplets)

      again_misses_lem : again_misses ≡ (state_for f m Map p attrs).misses
      unfolding again_misses state_for
      again_misses_lem = omega (arith, clip-le p.misses (add32 attrs.n_fruits attrs.n_droplets))

      counts_fixed :
          let s = state_for f m Map p attrs in
          fruits_and_droplets
            (some s.fruits)
            (some s.droplets)
            attrs.n_fruits
            attrs.n_droplets
            again_misses
          ≡ (s.fruits, s.droplets)
      counts_fixed =
          fruits_and_droplets_fixed _ _ _ _ again_misses (omega (arith, small.map))
            (omega (arith, state-IsComplete.sum, again_misses_lem))

      tiny_fixed :
          let s = state_for f m Map p attrs in
          tiny_droplets f s.fruits s.droplets s.misses attrs
            (some s.tiny_droplets)
            (some s.tiny_droplet_misses)
            p.acc
          ≡ (s.tiny_droplets, s.tiny_droplet_misses)
      tiny_fixed =
          let s = state_for f m Map p attrs in
          let c = state-IsComplete in
          tiny_droplets_fixed f laws s.fruits s.droplets s.misses attrs
            (omega (arith, c.sum, small.map)) s.tiny_droplets s.tiny_droplet_misses p.acc
            (omega (arith, c.tiny_sum))
            (omega (
              arith,
              c.tiny_sum,
              small.map,
              claimed_small p.tiny_droplets p.tiny_droplet_misses p.acc small.tiny_droplets
                  small.tiny_droplet_misses,
            ))
            (claimed_acc p.tiny_droplets p.tiny_droplet_misses p.acc attrs.n_tiny_droplets
              (s.tiny_droplets + s.tiny_droplet_misses) c.tiny_sum)

      state_again : state_for f m Map (again mo) attrs ≡ state_for f m Map p attrs
      state_again =
          let s = state_for f m Map p attrs in
          let ek = again_misses_lem in
          let ec = counts_fixed in
          let first : state_for f m Map (again mo) attrs
              ≡ build s.misses (s.fruits, s.droplets)
                  (tiny_droplets f s.fruits s.droplets s.misses attrs (some s.tiny_droplets)
                    (some s.tiny_droplet_misses) p.acc)
                  (some s.max_combo) =
            unfold again set_state state_for build again_misses in
            λ i.
              build (ek i) (ec i)
                (tiny_droplets f (ec i).0 (ec i).1 (ek i) attrs (some s.tiny_droplets)
                  (some s.tiny_droplet_misses) p.acc)
                (some s.max_combo) in
          first
          ∙ unfold build in
            λ i. build s.misses (s.fruits, s.droplets) (tiny_fixed i) (some s.max_combo)

  module _ (calculate_for_mode : Difficulty f m → Map → Result (CatchDifficultyAttributes F64))
      (p : CatchPerformance f m Map) (mo : MapOrAttrs Map (CatchDifficultyAttributes F64))
      (attrs : CatchDifficultyAttributes F64)
      (found : resolve (calculate_for_mode p.difficulty) p.map_or_attrs ≡ ok (mo, attrs))
      (small : IsSmall p attrs) where
    generate_state_for :
        (q : CatchPerformance f m Map) (mo : MapOrAttrs Map (CatchDifficultyAttributes F64))
        → resolve (calculate_for_mode q.difficulty) q.map_or_attrs ≡ ok (mo, attrs)
        → let s = state_for f m Map q attrs in
          generate_state f m Map calculate_for_mode q
          ≡ ok (s, set_state f m Map (record q { map_or_attrs = mo }) s)
    unfolding generate_state
    generate_state_for q mo e = rw e refl

    -- Where the attributes are known or can be calculated and the input is small (`IsSmall`: all
    -- counts are below 10^9, a given accuracy lies between 0 and 1), catch's `generate_state`
    -- gives a complete state (`IsComplete`), which the calculator keeps with the attributes.
    -- Whatever counts were given, its fruits, droplets and misses make up the map's fruits and
    -- droplets. Its tiny droplets and their misses make up the map's tiny droplets or, if both
    -- were given with no accuracy and their sum is larger, that sum.
    pub generate_state-IsComplete :
        (s : CatchScoreState) × (generate_state f m Map calculate_for_mode p
          ≡ ok (s, set_state f m Map (record p { map_or_attrs = mo }) s))
        × IsComplete p attrs s
    generate_state-IsComplete =
        (state_for f m Map p attrs, generate_state_for p mo found, state-IsComplete p attrs small)

    -- Under the conditions of `generate_state-IsComplete`, generating the state of the calculator
    -- that catch's `generate_state` leaves gives the same state and leaves the same calculator.
    pub catch_generate_state-again :
        (s : CatchScoreState) (p' : CatchPerformance f m Map)
        → generate_state f m Map calculate_for_mode p ≡ ok (s, p')
        → generate_state f m Map calculate_for_mode p' ≡ ok (s, p')
    catch_generate_state-again s p' e =
        again_of_fixed (generate_state f m Map calculate_for_mode) p (again p attrs small mo)
          (state_for f m Map p attrs) (unfold again in generate_state_for p mo found) fixed s p' e
      where
        fixed :
            generate_state f m Map calculate_for_mode (again p attrs small mo)
            ≡ ok (state_for f m Map p attrs, again p attrs small mo)
        fixed =
            generate_state_for (again p attrs small mo) mo (
              unfold again set_state in
              resolve-again (calculate_for_mode p.difficulty) (calculate_for_mode p.difficulty)
                p.map_or_attrs mo attrs found)
            ∙ rw (state_again p attrs small mo) (unfold again set_state in refl)
