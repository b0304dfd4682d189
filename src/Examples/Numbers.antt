-- ===== src/Examples/Numbers.antt =====
-- Random numbers and sorts on small inputs.
use old_ccv3_pp.Base.{ℕ, ltb, if◌then◌else◌, some, List, [], ◌∷◌, ◌≡◌, refl, arith, u32_mod, ◌<◌}
use old_ccv3_pp.Util.Random.{Random, gen_unsigned, next_int, next_bit, next_bool}
use old_ccv3_pp.Util.Random
use old_ccv3_pp.Util.Random.Words.{IsState, new-IsState, random-IsState, word}
use old_ccv3_pp.Util.Random.Bits.{low_bits, next_bools, Spent, next_bools-word}
use old_ccv3_pp.Util.Sort.{
  Ordering, heap_sort, build_heap, take_greatest, down_heap, greater_child, swap, swap_keys,
}
use old_ccv3_pp.Util.Sort.Swap.{Kept, Keeps}
use old_ccv3_pp.Util.Sort.Order.{IsTotalOrder}
use old_ccv3_pp.Util.Sort.Result.{IsSortedPart, heap_sort-IsSortedPart}
use old_ccv3_pp.Util.Sort.Heap.{heap_sort-Keeps}

abbrev seeded : Random
seeded = Random.new 1337

seeded-IsState : IsState seeded
seeded-IsState = new-IsState 1337 (omega arith)

random-IsState_example :
    (((gen_unsigned seeded).0 < u32_mod) × IsState (gen_unsigned seeded).1)
    × (((next_int seeded).0 < 0x80000000) × IsState (next_int seeded).1)
    × IsState (next_bool seeded).1
random-IsState_example = random-IsState seeded seeded-IsState

seeded_idx : seeded.bit_idx ≡ 32
unfolding Random.new
seeded_idx = refl

next_bools-word_example :
    ((next_bools 32 seeded).0 ≡ low_bits 32 (word seeded)) × Spent seeded (next_bools 32 seeded).1
next_bools-word_example = next_bools-word seeded seeded_idx

abbrev compare_numbers : ℕ → ℕ → Ordering
compare_numbers a b =
    if ltb a b then Ordering.less else (if ltb b a then Ordering.greater else Ordering.equal)

abbrev shuffled : List ℕ
shuffled = 9 ∷ 3 ∷ 1 ∷ 4 ∷ 1 ∷ 5 ∷ 0 ∷ []

heap_sort_test : heap_sort compare_numbers shuffled 1 5 ≡ some (9 ∷ 1 ∷ 1 ∷ 3 ∷ 4 ∷ 5 ∷ 0 ∷ [])
unfolding heap_sort build_heap take_greatest down_heap greater_child swap swap_keys
heap_sort_test = refl

heap_sort-Keeps_example : Keeps shuffled 1 5 (heap_sort compare_numbers shuffled 1 5)
heap_sort-Keeps_example = heap_sort-Keeps compare_numbers shuffled 1 5 (omega arith) (omega arith)

compare_numbers-IsTotalOrder : IsTotalOrder compare_numbers
compare_numbers-IsTotalOrder = record {
  ge_refl = λ a. ground arith;
  ge_trans = λ a b c h k. ground (arith, h, k);
  lt_ge = λ a b h. ground (arith, h);
}

heap_sort-IsSortedPart_example :
    (keys' : List ℕ) × (heap_sort compare_numbers shuffled 1 5 ≡ some keys')
    × Kept shuffled 1 5 keys'
    × IsSortedPart compare_numbers compare_numbers-IsTotalOrder 1 keys' 5
heap_sort-IsSortedPart_example =
    heap_sort-IsSortedPart compare_numbers compare_numbers-IsTotalOrder 1 shuffled 5 (omega arith)
      (omega arith)
