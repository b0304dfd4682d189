-- ===== src/Util/Strains/Entry.antt =====
-- `StrainsEntry` of src/util/strains_vec.rs: either a float that is not negative, by its bits, or a
-- number of zeros under a set sign bit.
use old_ccv3_pp.Base.{ℕ, ◌+◌, ◌-◌, ◌%◌, ◌^◌, Bool, leb, not, u64_mod}

-- `StrainsEntry`, the word behind the union
abbrev pub StrainsEntry : Type 0
StrainsEntry = ℕ

-- `!ZERO_COUNT_MASK`, which is the sign bit
abbrev pub sign_bit : ℕ
sign_bit = 2 ^ 63

unfoldable pub new_value : ℕ → StrainsEntry
new_value value = value

-- `!ZERO_COUNT_MASK + 1`
unfoldable pub new_zero : StrainsEntry
new_zero = sign_bit + 1

-- the float is negative
unfoldable pub is_zero : StrainsEntry → Bool
is_zero e = leb sign_bit e

unfoldable pub is_value : StrainsEntry → Bool
unfolding is_zero
is_value e = not (is_zero e)

unfoldable pub value : StrainsEntry → ℕ
value e = e

-- `zero_count & ZERO_COUNT_MASK`: all bits but the first
unfoldable pub zero_count : StrainsEntry → ℕ
zero_count e = e % sign_bit

unfoldable pub incr_zero_count : StrainsEntry → StrainsEntry
incr_zero_count e = (e + 1) % u64_mod

unfoldable pub decr_zero_count : StrainsEntry → StrainsEntry
decr_zero_count e = (e + u64_mod - 1) % u64_mod
