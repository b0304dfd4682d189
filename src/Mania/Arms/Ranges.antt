-- ===== src/Mania/Arms/Ranges.antt =====
-- The ranges that the nested searches of src/mania/performance/mod.rs compute from an accuracy with
-- two different formulas. They are not empty: where the formula of the upper bound gives less than the
-- one of the lower bound, both exceed what is left.
use old_ccv3_pp.Base.{ℕ, ◌*◌, ◌≤◌, ◌<◌, add32, sub32, mul32, u32_mod, min}
use old_ccv3_pp.Float.{Floats, FloatLaws}

-- `acc` is an accuracy, `n` the number of objects, `r` what misses leave of it and `k` a count that
-- was given. Real numbers have the laws, and rounding is monotone.
pub record RangeLaws (f : Floats) (laws : FloatLaws f) : Type 0 where
  pub n200 :
      (acc : f.F64) (n r k : ℕ)
      → laws.InUnit acc
      → 36 * n < u32_mod
      → r ≤ n
      → k ≤ r
      → let target = f.mul acc (f.from_u32 (mul32 6 n)) in
        min
          (f.to_u32
            (f.floor (f.div (f.sub target (f.from_u32 (mul32 2 (add32 r k)))) (f.decimal 4 0))))
          (sub32 r k)
        ≤ min
            (f.to_u32
              (f.ceil (f.div (f.sub target (f.from_u32 (add32 r (mul32 3 k)))) (f.decimal 5 0))))
            (sub32 r k)
  pub n100 :
      (acc : f.F64) (n r k : ℕ)
      → laws.InUnit acc
      → 36 * n < u32_mod
      → r ≤ n
      → k ≤ r
      → let target = f.mul acc (f.from_u32 (mul32 6 n)) in
        min
          (f.to_u32 (
            f.floor
              (f.sub (f.mul acc (f.from_u32 (mul32 3 r))) (f.from_u32 (sub32 (mul32 2 r) k)))))
          (sub32 r k)
        ≤ min
            (f.to_u32 (f.ceil (f.div (f.sub target (f.from_u32 (add32 r k))) (f.decimal 5 0))))
            (sub32 r k)
  pub n50 :
      (acc : f.F64) (n r k : ℕ)
      → laws.InUnit acc
      → 36 * n < u32_mod
      → r ≤ n
      → k ≤ r
      → let target = f.mul acc (f.from_u32 (mul32 6 n)) in
        min
          (f.to_u32 (
            f.floor
              (f.div (f.sub target (f.from_u32 (sub32 (mul32 4 r) (mul32 3 k)))) (f.decimal 2 0))))
          (sub32 r k)
        ≤ min
            (f.to_u32
              (f.ceil (f.div (f.sub target (f.from_u32 (sub32 (mul32 2 r) k))) (f.decimal 4 0))))
            (sub32 r k)
  pub all :
      (acc : f.F64) (n r : ℕ)
      → laws.InUnit acc
      → 36 * n < u32_mod
      → r ≤ n
      → let target = f.mul acc (f.from_u32 (mul32 6 n)) in
        min (f.to_u32 (f.floor (f.div (f.sub target (f.from_u32 (mul32 4 r))) (f.decimal 5 0)))) r
        ≤ min
            (f.to_u32 (
              f.ceil (
                f.min
                  (f.div (f.sub target (f.from_u32 r)) (f.decimal 5 0))
                  (f.sub (f.mul acc (f.from_u32 (mul32 3 n))) (f.from_u32 r)))))
            r
  pub all-n200 :
      (acc : f.F64) (n r k : ℕ)
      → laws.InUnit acc
      → 36 * n < u32_mod
      → r ≤ n
      → k ≤ r
      → let target = f.mul acc (f.from_u32 (mul32 6 n)) in
        min
          (f.to_u32 (
            f.floor
              (f.sub (f.mul acc (f.from_u32 (mul32 3 n))) (f.from_u32 (add32 r (mul32 2 k))))))
          (sub32 r k)
        ≤ min
            (f.to_u32
              (f.ceil (f.div (f.sub target (f.from_u32 (add32 r (mul32 5 k)))) (f.decimal 3 0))))
            (sub32 r k)
