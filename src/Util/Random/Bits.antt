-- ===== src/Util/Random/Bits.antt =====
-- src/util/random.rs, `next_bool`: 32 calls give the bits of one word, the lowest first.
use Prim.Native.Nat.{bit_and, digits, bit_and-bitwise, min}
use mathlib.Core.Path.{subst}
use old_ccv3_pp.Base.{
  ℕ, zero, suc, ◌+◌, ◌/◌, ◌%◌, ◌≤◌, Bool, true, false, ◌==◌, List, [], ◌∷◌, ◌≡◌, refl, sym, ap, ◌∙◌,
  arith,
}
use old_ccv3_pp.Util.Random.{Random, gen_unsigned, next_bit, next_bool}
use old_ccv3_pp.Util.Random.Words.{word}

-- The lowest bits of a number
abbrev pub low_bits : ℕ → ℕ → List Bool
low_bits zero n = []
low_bits (suc k) n = (n % 2 == 1) ∷ low_bits k (n / 2)

-- Calls of `next_bool`
unfoldable pub next_bools : ℕ → Random → List Bool × Random
unfolding next_bool
next_bools zero r = ([], r)
next_bools (suc k) r = let (b, r') = next_bool r in let (bs, r'') = next_bools k r' in (b ∷ bs, r'')

and_zero : (n a : ℕ) → digits (λ b. zero) min n a 0 ≡ 0
and_zero zero a = refl
and_zero (suc n) zero = refl
and_zero (suc n) (suc a) = omega (arith, and_zero n (suc a / 2))

and_one : (n a : ℕ) → a ≤ n → digits (λ b. zero) min n a 1 ≡ a % 2
and_one zero zero h = refl
and_one zero (suc a) h = absurd (omega (arith, h))
and_one (suc n) zero h = refl
and_one (suc n) (suc a) h = omega (arith, and_zero n (suc a / 2))

bit_and-low : (a : ℕ) → bit_and a 1 ≡ a % 2
bit_and-low a = bit_and-bitwise a 1 ∙ and_one a a (omega arith)

-- The state of a generator that has given `k` more bits of its buffer
abbrev drop_bits : ℕ → Random → Random
drop_bits zero r = r
drop_bits (suc k) r = drop_bits k (record r { bit_buf = r.bit_buf / 2; bit_idx = r.bit_idx + 1 })

-- One call more
next_bools-next :
    (k : ℕ) (r next : Random)
    → next_bit r ≡ next
    → next_bools (suc k) r
      ≡ ((next.bit_buf % 2 == 1) ∷ (next_bools k next).0, (next_bools k next).1)
unfolding next_bools next_bool
next_bools-next k r next e = rw (e, bit_and-low next.bit_buf) refl

next_bools-buffer :
    (k : ℕ) (r : Random)
    → r.bit_idx + k ≤ 32
    → next_bools k r ≡ (low_bits k (r.bit_buf / 2), drop_bits k r)
unfolding next_bools next_bit
next_bools-buffer zero r h = refl
next_bools-buffer (suc k) r h =
    let e : (r.bit_idx == 32) ≡ false = ground (arith, h) in
    let next : Random = record r { bit_buf = r.bit_buf / 2; bit_idx = r.bit_idx + 1 } in
    next_bools-next k r next (rw (e, next_bit) refl)
    ∙ ap (λ p. ((next.bit_buf % 2 == 1) ∷ p.0, p.1)) (next_bools-buffer k next (omega (arith, h)))

-- The state with a new word in its buffer, and one bit of it given
refilled : Random → Random
refilled r = record (gen_unsigned r).1 { bit_buf = word r; bit_idx = 1 }

next_bit-refilled : (r : Random) → r.bit_idx ≡ 32 → next_bit r ≡ refilled r
unfolding next_bit refilled word
next_bit-refilled r h =
    let e : (r.bit_idx == 32) ≡ true = ground (arith, h) in rw (e, next_bit) refl

-- One word later, with all bits of the buffer given.
pub record Spent (r r' : Random) : Type 0 where
  pub x_same : r'.x ≡ (gen_unsigned r).1.x
  pub y_same : r'.y ≡ (gen_unsigned r).1.y
  pub z_same : r'.z ≡ (gen_unsigned r).1.z
  pub w_same : r'.w ≡ word r
  pub idx_last : r'.bit_idx ≡ 32

last_word : (r : Random) → (gen_unsigned r).1.w ≡ word r
unfolding gen_unsigned word
last_word r = refl

-- Where the buffer has no bits left, 32 calls of `next_bool` give the bits of the next word, the
-- lowest first. They leave the generator as that one call of `gen_unsigned` does, with no bits
-- left again.
pub next_bools-word :
    (r : Random)
    → r.bit_idx ≡ 32
    → ((next_bools 32 r).0 ≡ low_bits 32 (word r)) × Spent r (next_bools 32 r).1
unfolding refilled
next_bools-word r h =
    let e : next_bools 32 r ≡ (low_bits 32 (word r), drop_bits 31 (refilled r)) =
      next_bools-next 31 r (refilled r) (next_bit-refilled r h)
      ∙ ap (λ p. ((word r % 2 == 1) ∷ p.0, p.1))
          (next_bools-buffer 31 (refilled r) (omega arith)) in
    (
      ap (λ p. p.0) e,
      subst (λ p. Spent r p.1) (sym e)
          record {
            x_same = refl;
            y_same = refl;
            z_same = refl;
            w_same = last_word r;
            idx_last = refl;
          },
    )
