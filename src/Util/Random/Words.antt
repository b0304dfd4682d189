-- ===== src/Util/Random/Words.antt =====
-- src/util/random.rs: every number that the generator makes and keeps is a `u32`.
use Prim.Native.Nat.{bit_and, bit_xor, digits, bit_and-bitwise, bit_xor-bitwise, differ, min}
use old_ccv3_pp.Base.{
  ℕ, zero, suc, ◌+◌, ◌/◌, ◌%◌, ◌<◌, ◌≤◌, ◌==◌, Bool-cases, u32_mod, inl, inr, arith,
}
use old_ccv3_pp.Util.Random.{
  Random, new, gen_unsigned, next_int, next_bit, next_bool, shl32, shr, int_mask,
}

-- `2 ^ k`, by doubling
abbrev power : ℕ → ℕ
power zero = 1
power (suc k) = power k + power k

differ_le : (a b : ℕ) → a < 2 → b < 2 → differ a b < 2
differ_le zero b ha hb = hb
differ_le (suc a) zero ha hb = ha
differ_le (suc a) (suc b) ha hb = differ_le a b (omega arith) (omega arith)

xor_below : (k n a b : ℕ) → a < power k → b < power k → digits (λ b. b) differ n a b < power k
xor_below k zero a b ha hb = hb
xor_below k (suc n) zero b ha hb = hb
xor_below zero (suc n) (suc a) b ha hb = absurd (omega (arith, ha))
xor_below (suc k) (suc n) (suc a) b ha hb = omega (
  arith,
  xor_below k n (suc a / 2) (b / 2) (omega (arith, ha)) (omega (arith, hb)),
  differ_le (suc a % 2) (b % 2) (omega arith) (omega arith),
)

bit_xor_word : (a b : ℕ) → a < u32_mod → b < u32_mod → bit_xor a b < u32_mod
bit_xor_word a b ha hb = omega (arith, bit_xor-bitwise a b, xor_below 32 a a b ha hb)

and_below : (n a b : ℕ) → digits (λ b. zero) min n a b ≤ a
and_below zero a b = omega arith
and_below (suc n) zero b = omega arith
and_below (suc n) (suc a) b = omega (arith, and_below n (suc a / 2) (b / 2))

bit_and_below : (a b : ℕ) → bit_and a b ≤ a
bit_and_below a b = omega (arith, bit_and-bitwise a b, and_below a a b)

-- The words of the state are `u32`s, and a bit is taken from a place that the buffer has.
pub record IsState (r : Random) : Type 0 where
  pub x_word : r.x < u32_mod
  pub y_word : r.y < u32_mod
  pub z_word : r.z < u32_mod
  pub w_word : r.w < u32_mod
  pub buf_word : r.bit_buf < u32_mod
  pub idx_low : 1 ≤ r.bit_idx
  pub idx_high : r.bit_idx ≤ 32

pub new-IsState : (seed : ℕ) → seed < u32_mod → IsState (new seed)
unfolding new
new-IsState seed h = record {
  x_word = h;
  y_word = omega arith;
  z_word = omega arith;
  w_word = omega arith;
  buf_word = omega arith;
  idx_low = omega arith;
  idx_high = omega arith;
}

-- The word that `gen_unsigned` makes
unfoldable pub word : Random → ℕ
unfolding gen_unsigned
word r = (gen_unsigned r).0

word-below : (r : Random) → IsState r → word r < u32_mod
unfolding word gen_unsigned
word-below r h =
    let t : ℕ = bit_xor r.x (shl32 r.x 11) in
    let t_word : t < u32_mod = bit_xor_word r.x (shl32 r.x 11) h.x_word (omega arith) in
    let high : bit_xor r.w (shr r.w 19) < u32_mod =
      bit_xor_word r.w (shr r.w 19) h.w_word (omega (arith, h.w_word)) in
    bit_xor_word (bit_xor (bit_xor r.w (shr r.w 19)) t) (shr t 8)
      (bit_xor_word (bit_xor r.w (shr r.w 19)) t high t_word) (omega (arith, t_word))

gen_unsigned-IsState : (r : Random) → IsState r → IsState (gen_unsigned r).1
unfolding gen_unsigned word
gen_unsigned-IsState r h = record {
  x_word = h.y_word;
  y_word = h.z_word;
  z_word = h.w_word;
  w_word = word-below r h;
  buf_word = h.buf_word;
  idx_low = h.idx_low;
  idx_high = h.idx_high;
}

next_bit-IsState : (r : Random) → IsState r → IsState (next_bit r)
unfolding next_bit word
next_bit-IsState r h = elim (Bool-cases (r.bit_idx == 32)) [
  | inl e ↦
      let k : IsState (gen_unsigned r).1 = gen_unsigned-IsState r h in
      rw e record {
        x_word = k.x_word;
        y_word = k.y_word;
        z_word = k.z_word;
        w_word = k.w_word;
        buf_word = word-below r h;
        idx_low = omega arith;
        idx_high = omega arith;
      }
  | inr e ↦ rw e record {
    x_word = h.x_word;
    y_word = h.y_word;
    z_word = h.z_word;
    w_word = h.w_word;
    buf_word = omega (arith, h.buf_word);
    idx_low = omega arith;
    idx_high = ground (arith, e, h.idx_high);
  }
]

-- A number of the generator, and the state after it
abbrev Yields : ℕ → ℕ × Random → Type 0
Yields bound p = (p.0 < bound) × IsState p.1

-- Where the words of the generator are `u32`s and its bit index is from 1 to 32, `gen_unsigned`
-- gives a `u32`, `next_int` a number below 2 ^ 31, that is an `i32` which is not negative, and
-- these two and `next_bool` leave such a state.
pub random-IsState :
    (r : Random)
    → IsState r
    → Yields u32_mod (gen_unsigned r) × Yields 0x80000000 (next_int r) × IsState (next_bool r).1
unfolding next_int next_bool word
random-IsState r h = (
  (word-below r h, gen_unsigned-IsState r h),
  (omega (arith, bit_and_below int_mask (word r)), gen_unsigned-IsState r h),
  next_bit-IsState r h,
)
