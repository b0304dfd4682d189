-- ===== src/Util/Queue.antt =====
-- src/util/limited_queue.rs: a queue over a fixed array of `N` slots that forgets its oldest
-- element when it is full.
pub mod Window
pub mod Iter
use old_ccv3_pp.Base.{
  ℕ, zero, suc, ◌+◌, ◌-◌, ◌*◌, ◌%◌, ◌^◌, Bool, true, false, Option, none, some, List, [], ◌∷◌, ltb,
  ◌==◌, if◌then◌else◌, get_elem?, set, take, drop, replicate, from_bool, u64_mod,
}

-- `LimitedQueue<T, N>`; `N` is a parameter of the operations. `usize` has 64 bits.
pub record LimitedQueue {ℓ} (T : Type ℓ) : Type ℓ where
  pub queue : List T
  pub end : ℕ
  pub len : ℕ

module _ {ℓ} {T : Type ℓ} (N : ℕ) where
  -- `default`, over the element type's own default value; `N - 1` wraps for `N` = 0
  pub new : T → LimitedQueue T
  new default = record { queue = replicate N default; end = (N + u64_mod - 1) % u64_mod; len = 0 }

  pub push : LimitedQueue T → T → LimitedQueue T
  push q elem =
      let end = ((q.end + 1) % u64_mod) % N in
      record q { queue = set q.queue end elem; end = end; len = q.len + from_bool (ltb q.len N) }

  pub is_full : LimitedQueue T → Bool
  is_full q = q.len == N

  pub is_empty : LimitedQueue T → Bool
  is_empty q = q.len == 0

  -- `none` is an empty queue.
  pub last : LimitedQueue T → Option T
  unfolding is_empty
  last q = if is_empty q then none else get_elem? q.queue q.end

  -- `queue[end + 1..N]` and `queue[0..=end]`, or nothing and `queue[0..len]`
  pub as_slices : LimitedQueue T → List T × List T
  unfolding is_full
  as_slices q =
      if is_full q
      then (drop (q.end + 1) (take N q.queue), take (q.end + 1) q.queue)
      else ([], take q.len q.queue)

  -- `Index::index`; `none` is the panic on an index out of range.
  pub index : LimitedQueue T → ℕ → Option T
  index q idx =
      get_elem? q.queue (((idx + from_bool (q.len == N) * ((q.end + 1) % u64_mod)) % u64_mod) % N)

-- `LimitedQueueIter`: what is left of the two slices.
pub record LimitedQueueIter {ℓ} (T : Type ℓ) : Type ℓ where
  pub head : List T
  pub tail : List T

module _ {ℓ} {T : Type ℓ} where
  -- slice iterators of the standard library
  abbrev pub slice_next : List T → Option T × List T
  slice_next [] = (none, [])
  slice_next (x ∷ xs) = (some x, xs)

  abbrev pub slice_next_back : List T → Option T × List T
  slice_next_back [] = (none, [])
  slice_next_back (x ∷ []) = (some x, [])
  slice_next_back (x ∷ y ∷ xs) = let (o, r) = slice_next_back (y ∷ xs) in (o, x ∷ r)

  -- `nth` consumes what it skips
  abbrev pub slice_nth : List T → ℕ → Option T × List T
  slice_nth xs n = slice_next (drop n xs)

module _ {ℓ} {T : Type ℓ} (N : ℕ) where
  pub iter : LimitedQueue T → LimitedQueueIter T
  unfolding as_slices
  iter q = let (head, tail) = as_slices N q in record { head = head; tail = tail }
