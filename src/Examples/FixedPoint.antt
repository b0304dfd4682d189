-- ===== src/Examples/FixedPoint.antt =====
-- Numbers in thousandths, as an instance of the floating point interface on which models can run.
use old_ccv3_pp.Base.{
  ℕ, ◌+◌, ◌-◌, ◌*◌, ◌/◌, ◌^◌, ◌≤◌, ◌<◌, true, false, ◌≡◌, refl, arith, min, max, ltb, if◌then◌else◌,
}
use old_ccv3_pp.Float.{Floats, FloatLaws}
use old_ccv3_pp.Any.Difficulty.{Mods}

abbrev pub fixed_point : Floats
fixed_point = record {
  F64 = ℕ;
  F32 = ℕ;
  decimal = λ m e. m * 1000 / 10 ^ e;
  add = λ a b. a + b;
  sub = λ a b. a - b;
  mul = λ a b. a * b / 1000;
  div = λ a b. a * 1000 / b;
  abs = λ a. a;
  floor = λ a. a / 1000 * 1000;
  ceil = λ a. (a + 999) / 1000 * 1000;
  min = λ a b. min a b;
  lt = ltb;
  max_value = 1000000000000;
  infinity = 10000000000000;
  from_u32 = λ n. n * 1000;
  to_u32 = λ a. min (a / 1000) 4294967295;
  to_bits = λ a. a;
  from_bits = λ a. a;
  clamp = λ x lo hi. min (max x lo) hi;
  clamp32 = λ x lo hi. min x hi;
}

pub div_le : (n d : ℕ) → n ≤ d → 0 < d → n * 1000 * 1000 / (d * 1000) ≤ 1000
div_le n d h p = grind arith

pub to_u32_lt : (x : ℕ) → fixed_point.to_u32 x < 4294967296
to_u32_lt x = omega arith

pub floor_le_ceil :
    (x : ℕ) → fixed_point.to_u32 (fixed_point.floor x) ≤ fixed_point.to_u32 (fixed_point.ceil x)
floor_le_ceil x = omega arith

pub clamp_clamp :
    (x lo hi : ℕ) → fixed_point.clamp (fixed_point.clamp x lo hi) lo hi ≡ fixed_point.clamp x lo hi
clamp_clamp x lo hi = omega arith

pub clamp32_clamp32 :
    (x lo hi : ℕ)
    → fixed_point.clamp32 (fixed_point.clamp32 x lo hi) lo hi ≡ fixed_point.clamp32 x lo hi
clamp32_clamp32 x lo hi = omega arith

pub zero_in_unit : fixed_point.decimal 0 0 ≤ 1000
zero_in_unit = omega arith

pub dist_lt_max :
    (x y : ℕ) → x ≤ 1000 → y ≤ 1000 → fixed_point.lt (x - y) fixed_point.max_value ≡ true
dist_lt_max x y hx hy = ground arith

pub dist_lt_infinity :
    (x y : ℕ) → x ≤ 1000 → y ≤ 1000 → fixed_point.lt (x - y) fixed_point.infinity ≡ true
dist_lt_infinity x y hx hy = ground arith

abbrev pub fixed_point_laws : FloatLaws fixed_point
fixed_point_laws = record {
  to_u32-lt = to_u32_lt;
  floor-le-ceil = floor_le_ceil;
  from_bits-to_bits = λ x. refl;
  clamp-clamp = clamp_clamp;
  clamp32-clamp32 = clamp32_clamp32;
  InUnit = λ x. x ≤ 1000;
  zero-InUnit = zero_in_unit;
  div-InUnit = λ n d h p b. div_le n d h p;
  dist-lt-max_value = dist_lt_max;
  dist-lt-infinity = dist_lt_infinity;
}

-- No mods at all.
abbrev pub no_mods : Mods ℕ
no_mods = record {
  GameMods = Unit {0};
  default = tt;
  clock_rate = λ _. 1000;
  hardrock_offsets = λ _. false;
  no_slider_head_acc = λ _ lazer. if lazer then false else true;
}
