-- ===== src/Examples/Mania.antt =====
-- The completed state of a mania score.
use old_ccv3_pp.Base.{
  ℕ, ◌-◌, ◌*◌, ◌/◌, ◌≤◌, ◌<◌, ◌≡◌, ◌∙◌, ap, refl, some, none, arith, false, u32_mod, mul32,
}
use old_ccv3_pp.Any.Mode.{Result, ok, err, ConvertError, best_case}
use old_ccv3_pp.Any.Difficulty.{Difficulty, new}
use old_ccv3_pp.Any.Score.{ManiaScoreState}
use old_ccv3_pp.Util.MapOrAttrs.{of_attrs, resolve}
use old_ccv3_pp.Mania.Arms.Fits.{MakesUp}
use old_ccv3_pp.Mania.Arms.Ranges.{RangeLaws}
use old_ccv3_pp.Mania.Completion.Completed.{claimed}
use old_ccv3_pp.Mania.Performance as ManiaPerf
use old_ccv3_pp.Mania.Performance.{
  ManiaPerformance, ManiaDifficultyAttributes, passed_objects, n_objects,
}
use old_ccv3_pp.Mania.Performance.Total as ManiaTotal
use old_ccv3_pp.Examples.FixedPoint.{fixed_point, fixed_point_laws, no_mods}

mul_thousand : (a k : ℕ) → a * (k * 1000) / 1000 ≡ a * k
mul_thousand a k = grind arith

times_six : (a n : ℕ) → a * (6 * n) ≡ 6 * (a * n)
times_six a n = grind arith

times_three : (a n : ℕ) → a * (3 * n) ≡ 3 * (a * n)
times_three a n = grind arith

target :
    (a n : ℕ)
    → 36 * n < u32_mod
    → fixed_point.mul a (fixed_point.from_u32 (mul32 6 n)) ≡ 6 * (a * n)
target a n s = mul_thousand a (mul32 6 n) ∙ ap (λ k. a * k) (omega arith) ∙ times_six a n

half_target :
    (a n : ℕ)
    → 36 * n < u32_mod
    → fixed_point.mul a (fixed_point.from_u32 (mul32 3 n)) ≡ 3 * (a * n)
half_target a n s = mul_thousand a (mul32 3 n) ∙ ap (λ k. a * k) (omega arith) ∙ times_three a n

product_le : (a r n : ℕ) → r ≤ n → a * r ≤ a * n
product_le a r n h = grind arith

range_laws : RangeLaws fixed_point fixed_point_laws
range_laws = record {
  n200 = λ a n r k u s h l. omega arith;
  n100 = λ a n r k u s h l.
      omega (arith, target a n s, half_target a r (omega arith), product_le a r n h);
  n50 = λ a n r k u s h l. omega arith;
  all = λ a n r u s h. omega (arith, target a n s, half_target a n s);
  all-n200 = λ a n r k u s h l. omega (arith, target a n s, half_target a n s);
}

-- A map of ten objects, three of them hold notes.
abbrev attrs : ManiaDifficultyAttributes ℕ
attrs = record {
  stars = 0;
  hit_window = 0;
  n_objects = 10;
  n_hold_notes = 3;
  max_combo = 20;
  is_convert = false;
}

abbrev Play : Type 0
Play = ManiaPerformance fixed_point no_mods (Unit {0})

-- A play of 90% on lazer with one miss and two hits of 50.
abbrev play : Play
play = record {
  map_or_attrs = of_attrs attrs;
  difficulty = new fixed_point no_mods;
  n320 = none;
  n300 = none;
  n200 = none;
  n100 = none;
  n50 = some 2;
  misses = some 1;
  acc = some 900;
  hitresult_priority = best_case;
}

abbrev no_map : Difficulty fixed_point no_mods → Unit {0} → Result (ManiaDifficultyAttributes ℕ)
no_map d map = err ConvertError.already_converted

abbrev generate : Play → Result (ManiaScoreState × Play)
generate = ManiaPerf.generate_state fixed_point no_mods (Unit {0}) no_map

found : resolve (no_map play.difficulty) play.map_or_attrs ≡ ok (of_attrs attrs, attrs)
unfolding resolve
found = refl

mania_generate_state-MakesUp_example :
    let t = n_objects fixed_point no_mods (Unit {0}) play attrs in
    (s : ManiaScoreState) × (generate play
      ≡ ok (s, ManiaPerf.set_state fixed_point no_mods (Unit {0}) play s))
    × (s.misses ≤ passed_objects fixed_point no_mods (Unit {0}) play attrs)
    × MakesUp t s.misses
        (claimed none none none none (some 2) (t - s.misses))
        (s.n320, s.n300, s.n200, s.n100, s.n50)
mania_generate_state-MakesUp_example =
    ManiaTotal.mania_generate_state-MakesUp fixed_point no_mods (Unit {0}) fixed_point_laws
      range_laws no_map play (of_attrs attrs) attrs found (omega arith) (omega arith)

state :
    (s : ManiaScoreState) × (generate play
      ≡ ok (s, ManiaPerf.set_state fixed_point no_mods (Unit {0}) play s))
state =
    let c =
      ManiaTotal.mania_generate_state-MakesUp fixed_point no_mods (Unit {0}) fixed_point_laws
        range_laws no_map play (of_attrs attrs) attrs found (omega arith) (omega arith) in
    (c.0, c.1)

abbrev after : Play
after = ManiaPerf.set_state fixed_point no_mods (Unit {0}) play state.0

mania_again_example : generate after ≡ ok (state.0, after)
mania_again_example =
    ManiaTotal.mania_generate_state-again fixed_point no_mods (Unit {0}) fixed_point_laws range_laws
      no_map play (of_attrs attrs) attrs found (omega arith) (omega arith) state.0 after state.1
