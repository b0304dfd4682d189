-- ===== src/Float.antt =====
-- The floating point numbers that the code computes with. They are not part of the repository: the
-- types and operations are a parameter of the models, and what a theorem relies on is a field of
-- `FloatLaws`, which holds of IEEE 754 numbers and Rust's casts.
use old_ccv3_pp.Base.{ℕ, ◌≤◌, ◌<◌, ◌^◌, Bool, true, ◌≡◌}

pub record Floats : Type 1 where
  pub F64 : Type 0
  pub F32 : Type 0
  -- `decimal m e` is the literal m / 10^e
  pub decimal : ℕ → ℕ → F64
  pub add : F64 → F64 → F64
  pub sub : F64 → F64 → F64
  pub mul : F64 → F64 → F64
  pub div : F64 → F64 → F64
  pub abs : F64 → F64
  pub floor : F64 → F64
  pub ceil : F64 → F64
  pub min : F64 → F64 → F64
  -- `<`, false if an operand is NaN
  pub lt : F64 → F64 → Bool
  -- `f64::MAX` and `f64::INFINITY`
  pub max_value : F64
  pub infinity : F64
  -- `f64::from(n)` and `x as u32`, which saturates
  pub from_u32 : ℕ → F64
  pub to_u32 : F64 → ℕ
  pub to_bits : F64 → ℕ
  pub from_bits : ℕ → F64
  pub clamp : F64 → F64 → F64 → F64
  -- `clamp32 x lo hi` for the bounds -lo and hi of the code
  pub clamp32 : F32 → ℕ → ℕ → F32

pub record FloatLaws (f : Floats) : Type 1 where
  pub to_u32-lt : (x : f.F64) → f.to_u32 x < 2 ^ 32
  pub floor-le-ceil : (x : f.F64) → f.to_u32 (f.floor x) ≤ f.to_u32 (f.ceil x)
  pub from_bits-to_bits : (x : f.F64) → f.from_bits (f.to_bits x) ≡ x
  pub clamp-clamp : (x lo hi : f.F64) → f.clamp (f.clamp x lo hi) lo hi ≡ f.clamp x lo hi
  pub clamp32-clamp32 :
      (x : f.F32) (lo hi : ℕ) → f.clamp32 (f.clamp32 x lo hi) lo hi ≡ f.clamp32 x lo hi
  -- the numbers from 0 to 1
  pub InUnit : f.F64 → Type 0
  pub zero-InUnit : InUnit (f.decimal 0 0)
  pub div-InUnit :
      (n d : ℕ) → n ≤ d → 0 < d → d < 2 ^ 32 → InUnit (f.div (f.from_u32 n) (f.from_u32 d))
  pub dist-lt-max_value :
      (x y : f.F64) → InUnit x → InUnit y → f.lt (f.abs (f.sub x y)) f.max_value ≡ true
  pub dist-lt-infinity :
      (x y : f.F64) → InUnit x → InUnit y → f.lt (f.abs (f.sub x y)) f.infinity ≡ true
