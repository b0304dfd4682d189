-- ===== src/Util/Random.antt =====
-- src/util/random.rs: the random numbers of osu!, an xorshift generator of `u32` words. The methods that
-- give floats, or integers from floats, are left out.
pub mod Words
pub mod Bits
use Prim.Native.Nat.{bit_and, bit_xor}
use old_ccv3_pp.Base.{ℕ, zero, suc, ◌+◌, ◌*◌, ◌/◌, ◌%◌, ◌^◌, Bool, ◌==◌, if◌then◌else◌, u32_mod}

abbrev pub int_mask : ℕ
int_mask = 0x7FFFFFFF

-- `bit_idx` is an `i32` that stays between 1 and 32.
pub record Random : Type 0 where
  pub x : ℕ
  pub y : ℕ
  pub z : ℕ
  pub w : ℕ
  pub bit_buf : ℕ
  pub bit_idx : ℕ

-- The seed as a `u32`
unfoldable pub new : ℕ → Random
new seed = record {
  x = seed;
  y = 842502087;
  z = 3579807591;
  w = 273326509;
  bit_buf = 0;
  bit_idx = 32;
}

abbrev pub shl32 : ℕ → ℕ → ℕ
shl32 a n = (a * 2 ^ n) % u32_mod

abbrev pub shr : ℕ → ℕ → ℕ
shr a n = a / 2 ^ n

unfoldable pub gen_unsigned : Random → ℕ × Random
gen_unsigned r =
    let t = bit_xor r.x (shl32 r.x 11) in
    let w' = bit_xor (bit_xor (bit_xor r.w (shr r.w 19)) t) (shr t 8) in
    (w', record r { x = r.y; y = r.z; z = r.w; w = w' })

unfoldable pub next_int : Random → ℕ × Random
unfolding gen_unsigned
next_int r = let (n, r') = gen_unsigned r in (bit_and int_mask n, r')

-- The assignments of `next_bool`
unfoldable pub next_bit : Random → Random
unfolding gen_unsigned
next_bit r =
    if r.bit_idx == 32
    then (let (n, r') = gen_unsigned r in record r' { bit_buf = n; bit_idx = 1 })
    else record r { bit_idx = r.bit_idx + 1; bit_buf = shr r.bit_buf 1 }

unfoldable pub next_bool : Random → Bool × Random
unfolding next_bit
next_bool r = let r' = next_bit r in (bit_and r'.bit_buf 1 == 1, r')
