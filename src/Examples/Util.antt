-- ===== src/Examples/Util.antt =====
-- The data structures of src/util on small inputs.
use mathlib.Core.List.{Perm}
use old_ccv3_pp.Base.{
  ℕ, min, ◌+◌, ◌-◌, ◌≡◌, refl, List, [], ◌∷◌, ◌++◌, arith, length, drop, get_elem?,
}
use old_ccv3_pp.Base.Sort.{IsSorted}
use old_ccv3_pp.Util.Queue.{
  LimitedQueue, LimitedQueueIter, new, push, index, slice_nth, slice_next_back,
}
use old_ccv3_pp.Util.Queue.Window.{
  IsValid, contents, slide, push_all, push_all-new, push_refines, push-IsValid, index_refines,
  new-IsValid,
}
use old_ccv3_pp.Util.Queue.Iter.{nth, nth_refines, next_back, next_back_refines, rest}
use old_ccv3_pp.Util.Strains.Entry.{sign_bit}
use old_ccv3_pp.Util.Strains.{
  StrainsVec, with_capacity, into_vec, sorted_non_zero_iter, desc, sum, next,
}
use old_ccv3_pp.Util.Strains
use old_ccv3_pp.Util.Strains.Refine
use old_ccv3_pp.Util.Strains.Refine.{expand}
use old_ccv3_pp.Util.Strains.Iter.{into_vec_lem, next-len, iter-IterIsValid, remaining}
use old_ccv3_pp.Util.Strains.Sorted.{
  sorted_non_zero_iter_lem, positives, infinity, IsFloatAdd, sum_lem, fold_add,
}

-- The test `overfull` of the source: five pushes into four slots.
abbrev five : List ℕ
five = 1 ∷ 2 ∷ 3 ∷ 4 ∷ 5 ∷ []

abbrev empty_queue : LimitedQueue ℕ
empty_queue = new 4 0

empty_queue-IsValid : IsValid 4 empty_queue
empty_queue-IsValid = new-IsValid 4 0 (omega arith) (omega arith)

push_all-new_example : contents 4 (push_all 4 (new 4 0) five) ≡ drop (length five - 4) five
push_all-new_example = push_all-new 4 0 five (omega arith) (omega arith)

push_refines_example : contents 4 (push 4 empty_queue 7) ≡ slide 4 (contents 4 empty_queue) 7
push_refines_example = push_refines 4 empty_queue 7 empty_queue-IsValid

push-IsValid_example : IsValid 4 (push 4 empty_queue 7)
push-IsValid_example = push-IsValid 4 empty_queue 7 empty_queue-IsValid

-- A full queue of two slots that has gone round.
abbrev full_queue : LimitedQueue ℕ
full_queue = record { queue = 30 ∷ 20 ∷ []; end = 0; len = 2 }

full_queue-IsValid : IsValid 2 full_queue
full_queue-IsValid = record {
  positive = omega arith;
  word = omega arith;
  storage = omega arith;
  end_in = omega arith;
  len_in = omega arith;
  next_free = λ h. absurd (omega arith);
}

index_refines_example : index 2 full_queue 0 ≡ get_elem? (contents 2 full_queue) 0
index_refines_example = index_refines 2 full_queue 0 full_queue-IsValid (omega arith) (omega arith)

abbrev two_slices : LimitedQueueIter ℕ
two_slices = record { head = 1 ∷ 2 ∷ []; tail = 3 ∷ 4 ∷ [] }

nth_refines_example : let (o, it) = nth two_slices 2 in (o, rest it) ≡ slice_nth (rest two_slices) 2
nth_refines_example = nth_refines two_slices 2

next_back_refines_example :
    let (o, it) = next_back two_slices in (o, rest it) ≡ slice_next_back (rest two_slices)
next_back_refines_example = next_back_refines two_slices

-- 5, 0, 0, 7 as bit patterns
abbrev four_strains : StrainsVec
four_strains = record { inner = 5 ∷ (sign_bit + 2) ∷ 7 ∷ []; len = 4 }

four_strains-IsWellFormed : Refine.IsWellFormed four_strains
four_strains-IsWellFormed = record {
  entries =
      ((omega arith, omega arith), ((omega arith, omega arith), ((omega arith, omega arith), tt)));
  compact = ((λ h. absurd (omega arith)), ((λ h. omega arith), tt));
  counted = refl;
}

strains_of_pushes :
    Strains.push (Strains.push (Strains.push (Strains.push with_capacity 5) 0) 0) 7 ≡ four_strains
unfolding Strains.push with_capacity
strains_of_pushes = refl

strains_push_refines_example :
    expand (Strains.push four_strains 0).inner ≡ expand four_strains.inner ++ (0 ∷ [])
strains_push_refines_example =
    Refine.push_refines four_strains 0 four_strains-IsWellFormed (omega arith) (omega arith)

strains_push-IsValid_example : Refine.IsWellFormed (Strains.push four_strains 0)
strains_push-IsValid_example =
    Refine.push-IsWellFormed four_strains 0 four_strains-IsWellFormed (omega arith) (omega arith)

into_vec_example : into_vec four_strains ≡ expand four_strains.inner
into_vec_example = into_vec_lem four_strains four_strains-IsWellFormed

next-len_example :
    length (remaining (next (Strains.iter four_strains)).1)
    ≡ (next (Strains.iter four_strains)).1.len
next-len_example =
    next-len (Strains.iter four_strains)
      (iter-IterIsValid four_strains four_strains-IsWellFormed (omega arith))

sorted_non_zero_iter_example :
    IsSorted desc (sorted_non_zero_iter four_strains).1
    × Perm (sorted_non_zero_iter four_strains).1 (positives (expand four_strains.inner))
sorted_non_zero_iter_example = sorted_non_zero_iter_lem four_strains four_strains-IsWellFormed

-- On subnormal numbers the addition of floats is that of their bit patterns.
abbrev plus : ℕ → ℕ → ℕ
plus a b = min (a + b) infinity

plus-IsFloatAdd : IsFloatAdd plus
plus-IsFloatAdd = record { add-zero = λ x h. omega arith; closed = λ x y h k. omega arith }

sum_example : sum plus four_strains ≡ fold_add plus 0 (expand four_strains.inner)
sum_example =
    sum_lem plus plus-IsFloatAdd four_strains
      (omega arith, (omega arith, (omega arith, (omega arith, tt))))
