-- ===== src/Util/Sort.antt =====
-- src/util/sort/mod.rs: heap sort of a part of a slice, and the swaps of the other sorts. An index out
-- of bounds is a panic, `none`.
pub mod Swap
pub mod Heap
pub mod Order
pub mod Trade
pub mod Sift
pub mod Sorted
pub mod Result
use old_ccv3_pp.Base.{
  ℕ, zero, suc, ◌+◌, ◌-◌, ◌*◌, ◌/◌, Bool, true, false, Option, none, some, List, [], ◌∷◌, ◌==◌, ltb,
  leb, if◌then◌else◌, length, get_elem?, set,
}

pub data Ordering : Type 0 where
  less equal greater : Ordering

abbrev pub is_lt : Ordering → Bool
is_lt less = true
is_lt equal = false
is_lt greater = false

abbrev pub is_gt : Ordering → Bool
is_gt less = false
is_gt equal = false
is_gt greater = true

abbrev pub is_ge : Ordering → Bool
is_ge less = false
is_ge equal = true
is_ge greater = true

module _ {A : Type 0} where
  -- `keys.swap(i, j)` of the standard library
  unfoldable pub swap_keys : List A → ℕ → ℕ → Option (List A)
  swap_keys keys i j = elim (get_elem? keys i) [
    | none ↦ none
    | some a ↦ elim (get_elem? keys j) [ none ↦ none | some b ↦ some (set (set keys i b) j a) ]
  ]

  unfoldable pub swap : List A → ℕ → ℕ → Option (List A)
  unfolding swap_keys
  swap keys i j = if i == j then some keys else swap_keys keys i j

module _ {A : Type 0} (cmp : A → A → Ordering) where
  -- `cmp(&keys[i], &keys[j])`
  abbrev pub compare_at : List A → ℕ → ℕ → Option Ordering
  compare_at keys i j = elim (get_elem? keys i) [
    | none ↦ none
    | some a ↦ elim (get_elem? keys j) [ none ↦ none | some b ↦ some (cmp a b) ]
  ]

  unfoldable pub swap_if_greater : List A → ℕ → ℕ → Option (List A)
  unfolding swap_keys
  swap_if_greater keys a b = if a == b then some keys else elim (compare_at keys a b) [
    | none ↦ none
    | some o ↦ if is_gt o then swap_keys keys a b else some keys
  ]

  -- The child to compare with: the greater one, if there are two.
  unfoldable pub greater_child : List A → ℕ → ℕ → ℕ → Option ℕ
  greater_child keys i n lo =
      if ltb (2 * i) n
      then elim (compare_at keys (lo + 2 * i - 1) (lo + 2 * i)) [
        | none ↦ none
        | some o ↦ some (if is_lt o then 2 * i + 1 else 2 * i)
      ]
      else some (2 * i)

  -- `while i <= n / 2`, with fuel for its rounds
  unfoldable pub down_heap : ℕ → List A → ℕ → ℕ → ℕ → Option (List A)
  unfolding greater_child swap_keys
  down_heap zero keys i n lo = if leb i (n / 2) then none else some keys
  down_heap (suc fuel) keys i n lo =
      if leb i (n / 2)
      then elim (greater_child keys i n lo) [
        | none ↦ none
        | some child ↦ elim (compare_at keys (lo + i - 1) (lo + child - 1)) [
          | none ↦ none
          | some o ↦ elim (is_ge o) [
            | true ↦ some keys
            | false ↦ elim (swap_keys keys (lo + i - 1) (lo + child - 1)) [
              | none ↦ none
              | some keys' ↦ down_heap fuel keys' child n lo
            ]
          ]
        ]
      ]
      else some keys

  -- `for i in (1..=k).rev()`
  unfoldable pub build_heap : ℕ → List A → ℕ → ℕ → Option (List A)
  unfolding down_heap
  build_heap zero keys n lo = some keys
  build_heap (suc k) keys n lo = elim (down_heap n keys (suc k) n lo) [
    | none ↦ none
    | some keys' ↦ build_heap k keys' n lo
  ]

  -- `for i in (2..=k + 1).rev()`
  unfoldable pub take_greatest : ℕ → List A → ℕ → Option (List A)
  unfolding swap down_heap
  take_greatest zero keys lo = some keys
  take_greatest (suc k) keys lo = elim (swap keys lo (lo + (k + 2) - 1)) [
    | none ↦ none
    | some keys' ↦ elim (down_heap (k + 1) keys' 1 (k + 1) lo) [
      | none ↦ none
      | some keys'' ↦ take_greatest k keys'' lo
    ]
  ]

  -- `hi - lo` with `hi` below `lo` is an overflow, `none`.
  unfoldable pub heap_sort : List A → ℕ → ℕ → Option (List A)
  unfolding build_heap take_greatest
  heap_sort keys lo hi =
      if ltb hi lo then none else elim (build_heap ((hi - lo + 1) / 2) keys (hi - lo + 1) lo) [
        | none ↦ none
        | some keys' ↦ take_greatest (hi - lo) keys' lo
      ]
