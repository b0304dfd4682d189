-- ===== src/Util/Strains.antt =====
-- src/util/strains_vec.rs (the default, without the feature `raw_strains`): a list of non-negative
-- floats in which a run of zeros is one entry. A float is its bit pattern, so that the union of a
-- float and a counter is one 64-bit word.
pub mod Entry
pub mod Refine
pub mod Iter
pub mod Sorted
use old_ccv3_pp.Base.{
  ℕ, zero, suc, ◌+◌, ◌-◌, ◌*◌, ◌%◌, ◌^◌, Bool, true, false, Option, none, some, List, [], ◌∷◌, ltb,
  leb, map, ◌==◌, if◌then◌else◌, u64_mod, not, ◌++◌,
}
use old_ccv3_pp.Base.Sort.{sort_by}
use Entry.{StrainsEntry}

-- `StrainsVec`; the field `has_zero` exists in debug builds only.
pub record StrainsVec : Type 0 where
  pub inner : List StrainsEntry
  pub len : ℕ

unfoldable pub with_capacity : StrainsVec
with_capacity = record { inner = []; len = 0 }

-- `inner.last_mut().filter(is_zero)`: the last entry counts one more zero, or a zero is appended.
pub push_zero : List StrainsEntry → List StrainsEntry
unfolding Entry.is_zero Entry.new_zero Entry.incr_zero_count
push_zero [] = Entry.new_zero ∷ []
push_zero (e ∷ []) =
    if Entry.is_zero e then Entry.incr_zero_count e ∷ [] else e ∷ Entry.new_zero ∷ []
push_zero (e ∷ f ∷ es) = e ∷ push_zero (f ∷ es)

-- `value.to_bits() > 0`
unfoldable pub push : StrainsVec → ℕ → StrainsVec
unfolding push_zero Entry.new_value
push s value = record {
  inner = if ltb 0 value then s.inner ++ (Entry.new_value value ∷ []) else push_zero s.inner;
  len = (s.len + 1) % u64_mod;
}

-- `Vec::retain(StrainsEntry::is_value)`
pub retain_values : List StrainsEntry → List StrainsEntry
unfolding Entry.is_value
retain_values [] = []
retain_values (e ∷ es) = let rest = retain_values es in if Entry.is_value e then e ∷ rest else rest

-- `len` stays as it was.
pub retain_non_zero : StrainsVec → StrainsVec
unfolding retain_values
retain_non_zero s = record s { inner = retain_values s.inner }

-- `b.value().total_cmp(&a.value())`; on floats that are not negative `total_cmp` is the order of the
-- bit patterns.
pub desc : StrainsEntry → StrainsEntry → Bool
unfolding Entry.value
desc a b = ltb (Entry.value b) (Entry.value a)

pub sort_desc : StrainsVec → StrainsVec
unfolding desc
sort_desc s = record s { inner = sort_by desc s.inner }

pub retain_non_zero_and_sort : StrainsVec → StrainsVec
unfolding retain_non_zero sort_desc
retain_non_zero_and_sort s = sort_desc (retain_non_zero s)

pub non_zero_iter : StrainsVec → List ℕ
unfolding Entry.value
non_zero_iter s = map Entry.value s.inner

pub sorted_non_zero_iter : StrainsVec → StrainsVec × List ℕ
unfolding retain_non_zero_and_sort non_zero_iter
sorted_non_zero_iter s = let s' = retain_non_zero_and_sort s in (s', non_zero_iter s')

-- `sum`, over the addition of floats: entries that are values are added from the left.
module _ (add : ℕ → ℕ → ℕ) where
  pub sum_from : ℕ → List StrainsEntry → ℕ
  unfolding Entry.is_value
  sum_from acc [] = acc
  sum_from acc (e ∷ es) = sum_from (if Entry.is_value e then add acc (Entry.value e) else acc) es

  pub sum : StrainsVec → ℕ
  unfolding sum_from
  sum s = sum_from 0 s.inner

-- `StrainsIter`
pub record StrainsIter : Type 0 where
  pub inner : List StrainsEntry
  pub curr : Option StrainsEntry
  pub len : ℕ

abbrev pub entry_next : List StrainsEntry → Option StrainsEntry × List StrainsEntry
entry_next [] = (none, [])
entry_next (e ∷ es) = (some e, es)

pub iter : StrainsVec → StrainsIter
iter s = let (curr, rest) = entry_next s.inner in record { inner = rest; curr = curr; len = s.len }

-- One round of the `loop` of `next` at the entry `e`, with what the later rounds give: a value, one
-- more zero, or the next entry. `self.len -= 1` wraps.
pub next_round :
    StrainsEntry → List StrainsEntry → ℕ → Option ℕ × StrainsIter → Option ℕ × StrainsIter
unfolding Entry.is_value Entry.value Entry.zero_count Entry.decr_zero_count
next_round e es len later =
    let len' = (len + u64_mod - 1) % u64_mod in
    if Entry.is_value e
    then (let (curr, rest) = entry_next es in
        (some (Entry.value e), record { inner = rest; curr = curr; len = len' }))
    else if ltb 0 (Entry.zero_count e)
    then (some 0, record { inner = es; curr = some (Entry.decr_zero_count e); len = len' })
    else later

pub next_from : StrainsEntry → List StrainsEntry → ℕ → Option ℕ × StrainsIter
unfolding next_round
next_from e [] len = next_round e [] len (none, record { inner = []; curr = none; len = len })
next_from e (f ∷ es) len = next_round e (f ∷ es) len (next_from f es len)

pub next : StrainsIter → Option ℕ × StrainsIter
unfolding next_from
next it = elim it.curr [ none ↦ (none, it) | some e ↦ next_from e it.inner it.len ]

-- `vec.extend(iter)`, with fuel for the number of calls of `next`
pub collect : ℕ → StrainsIter → List ℕ
unfolding next
collect zero it = []
collect (suc fuel) it =
    let (o, it') = next it in elim o [ none ↦ [] | some v ↦ v ∷ collect fuel it' ]

pub into_vec : StrainsVec → List ℕ
unfolding collect iter
into_vec s = collect (suc s.len) (iter s)
