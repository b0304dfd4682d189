-- ===== src/Util/Queue/Window.antt =====
-- The queue against a sliding window: the last `N` elements that were pushed, oldest first.
use mathlib.Core.List.{append_assoc, append-nil}
use native.Mathlib.Nat.{mod-lt, mod-eq_of_lt, mod-eq-sub-mod}
use old_ccv3_pp.Base.{
  ℕ, suc, ◌+◌, ◌-◌, ◌*◌, ◌%◌, ◌≤◌, ◌<◌, true, false, List, [], ◌∷◌, ◌++◌, ◌≡◌, refl, sym, ap, ◌∙◌,
  ◌⊎◌, inl, inr, arith, ltb, ◌==◌, if◌then◌else◌, length, get_elem?, set, take, drop, tail, u64_mod,
  from_bool, dec_lt, length-set, length-take, length-drop, length-append, length-replicate,
  take_all, drop_all, drop-set_lt, take-suc-set, tail-drop-append, tail-append, drop-append_le,
  get_elem?-append_lt, get_elem?-append_ge, get_elem?-take, get_elem?-drop,
}
use old_ccv3_pp.Util.Queue.{LimitedQueue, new, push, as_slices, index}

module _ {ℓ} {T : Type ℓ} (N : ℕ) where
  -- What a client sees: both slices, one after the other.
  pub contents : LimitedQueue T → List T
  contents q = let (head, rest) = as_slices N q in head ++ rest

  -- The abstract queue: a list of at most `N` elements that drops its head when it is full.
  pub slide : List T → T → List T
  slide xs x = (if length xs == N then tail xs else xs) ++ (x ∷ [])

  pub push_all : LimitedQueue T → List T → LimitedQueue T
  push_all q [] = q
  push_all q (x ∷ xs) = push_all (push N q x) xs

-- While the queue is not full, the slot after `end` is the first free one.
pub record IsValid {ℓ} {T : Type ℓ} (N : ℕ) (q : LimitedQueue T) : Type ℓ where
  pub positive : 0 < N
  pub word : N < u64_mod
  pub storage : length q.queue ≡ N
  pub end_in : q.end < N
  pub len_in : q.len ≤ N
  pub next_free : q.len < N → (q.end + 1) % N ≡ q.len

end_of_new : (N : ℕ) → 0 < N → N < u64_mod → (N + u64_mod - 1) % u64_mod ≡ N - 1
end_of_new N p w = omega arith

add-one : (n : ℕ) → n + 1 ≡ suc n
add-one n = omega arith

mod_self : (N : ℕ) → 0 < N → N % N ≡ 0
mod_self N p = grind arith

mod_wraps : (N e : ℕ) → e < N → 0 < N → ((e + 1) % N ≡ e + 1) ⊎ ((e + 1 ≡ N) × ((e + 1) % N ≡ 0))
mod_wraps N e h p = elim (dec_lt (e + 1) N) [
  | yes lt ↦ inl (mod-eq_of_lt lt)
  | no ge ↦ let e1 : e + 1 ≡ N = omega arith in inr (e1, rw e1 (mod_self N p))
]

module _ {ℓ} {T : Type ℓ} (N : ℕ) where
  pub new-IsValid : (d : T) → 0 < N → N < u64_mod → IsValid N (new N d)
  unfolding new
  new-IsValid d p w = record {
    positive = p;
    word = w;
    storage = length-replicate N d;
    end_in = omega arith;
    len_in = omega arith;
    next_free =
        λ _. rw (end_of_new N p w) (let e : N - 1 + 1 ≡ N = omega arith in rw e (mod_self N p));
  }

  -- The slot that a push writes.
  slot : LimitedQueue T → ℕ
  slot q = ((q.end + 1) % u64_mod) % N

  slot_lem : (q : LimitedQueue T) → IsValid N q → slot q ≡ (q.end + 1) % N
  unfolding slot
  slot_lem q v = ap (λ k. k % N) (omega arith)

  slot_not_full : (q : LimitedQueue T) → IsValid N q → q.len < N → slot q ≡ q.len
  slot_not_full q v h = slot_lem q v ∙ v.next_free h

  -- A push keeps the invariant of the queue: indices are in range, and while the queue is not full
  -- the slot after `end` is the first free one.
  pub push-IsValid : (q : LimitedQueue T) (x : T) → IsValid N q → IsValid N (push N q x)
  unfolding push slot
  push-IsValid q x v = record {
    positive = v.positive;
    word = v.word;
    storage = length-set q.queue (slot q) x ∙ v.storage;
    end_in = mod-lt _ v.positive;
    len_in = ground arith;
    next_free = next;
  }
    where
      next :
          q.len + from_bool (ltb q.len N) < N → (slot q + 1) % N ≡ q.len + from_bool (ltb q.len N)
      next h =
          let lt : q.len + 1 < N = ground arith in
          rw (slot_not_full q v (omega arith), mod-eq_of_lt lt) (ground arith)

  contents_not_full : (q : LimitedQueue T) → q.len < N → contents N q ≡ take q.len q.queue
  unfolding contents as_slices
  contents_not_full q h = ground arith

  contents_full :
      (q : LimitedQueue T)
      → IsValid N q
      → q.len ≡ N
      → contents N q ≡ drop (q.end + 1) q.queue ++ take (q.end + 1) q.queue
  unfolding contents as_slices
  contents_full q v h = ground (arith, take_all N q.queue)

  pub length-contents : (q : LimitedQueue T) → IsValid N q → length (contents N q) ≡ q.len
  length-contents q v = elim (dec_lt q.len N) [
    | yes lt ↦ rw (contents_not_full q lt) (omega (arith, length-take q.len q.queue))
    | no ge ↦ rw (contents_full q v (omega arith)) (
        omega (
          arith,
          length-append (drop (q.end + 1) q.queue) (take (q.end + 1) q.queue),
          length-take (q.end + 1) q.queue,
          length-drop (q.end + 1) q.queue,
        ))
  ]

  slide_not_full : (xs : List T) (x : T) → length xs < N → slide N xs x ≡ xs ++ (x ∷ [])
  unfolding slide
  slide_not_full xs x h = ground arith

  slide_full : (xs : List T) (x : T) → length xs ≡ N → slide N xs x ≡ tail xs ++ (x ∷ [])
  unfolding slide
  slide_full xs x h = ground arith

  -- The rotated reading of an array whose slot `p` was written last.
  rotated : List T → ℕ → List T
  rotated xs p = drop (suc p) xs ++ take (suc p) xs

  rotated-set :
      (xs : List T) (p : ℕ) (x : T)
      → p < length xs
      → rotated (set xs p x) p ≡ drop (suc p) xs ++ (take p xs ++ (x ∷ []))
  unfolding rotated
  rotated-set xs p x h = rw (drop-set_lt (suc p) xs p x (omega arith), take-suc-set xs p x h) refl

  rotated-full :
      (q : LimitedQueue T) → IsValid N q → q.len ≡ N → contents N q ≡ rotated q.queue q.end
  unfolding rotated
  rotated-full q v h =
      contents_full q v h ∙ ap (λ k. drop k q.queue ++ take k q.queue) (add-one q.end)

  len-push : (q : LimitedQueue T) (x : T) → q.len < N → (push N q x).len ≡ suc q.len
  unfolding push
  len-push q x h = ground arith

  len-push_full : (q : LimitedQueue T) (x : T) → q.len ≡ N → (push N q x).len ≡ N
  unfolding push
  len-push_full q x h = ground arith

  -- After a push into the last slot, or into a full queue, the array is read round the new slot.
  push_rotated :
      (q : LimitedQueue T) (x : T)
      → IsValid N q
      → (push N q x).len ≡ N
      → contents N (push N q x) ≡ drop (suc (slot q)) q.queue ++ (take (slot q) q.queue ++ (x ∷ []))
  push_rotated q x v h =
      rotated-full (push N q x) (push-IsValid q x v) h
      ∙ unfold push slot in
        rotated-set q.queue (slot q) x (omega (arith, mod-lt ((q.end + 1) % u64_mod) v.positive))

  push_not_full :
      (q : LimitedQueue T) (x : T)
      → IsValid N q
      → q.len < N
      → contents N (push N q x) ≡ contents N q ++ (x ∷ [])
  push_not_full q x v h = elim (dec_lt (suc q.len) N) [
    | yes lt ↦
        contents_not_full (push N q x) (rw (len-push q x h) lt)
        ∙ unfold push slot in
          (rw (len-push q x h, contents_not_full q h, slot_not_full q v h)
            (take-suc-set q.queue q.len x (omega arith)))
    | no ge ↦
        push_rotated q x v (len-push q x h ∙ omega arith)
        ∙ rw
            (contents_not_full q h, slot_not_full q v h, drop_all (suc q.len) q.queue (omega arith))
            refl
  ]

  drop-one : (xs : List T) → drop 1 xs ≡ tail xs
  drop-one [] = refl
  drop-one (x ∷ xs) = refl

  push_full :
      (q : LimitedQueue T) (x : T)
      → IsValid N q
      → q.len ≡ N
      → contents N (push N q x) ≡ tail (contents N q) ++ (x ∷ [])
  push_full q x v h = elim (mod_wraps N q.end v.end_in v.positive) [
    | inl e ↦
        push_rotated q x v (len-push_full q x h)
        ∙ rw
            (
              slot_lem q v,
              e,
              contents_full q v h,
              add-one q.end,
              tail-drop-append (suc q.end) q.queue (take (suc q.end) q.queue)
                  (omega (arith, mod-lt (q.end + 1) v.positive)),
            )
            (sym
              (append_assoc (drop (suc (suc q.end)) q.queue) (take (suc q.end) q.queue) (x ∷ [])))
    | inr (e, z) ↦
        push_rotated q x v (len-push_full q x h)
        ∙ rw
            (
              slot_lem q v,
              z,
              contents_full q v h,
              e,
              drop_all N q.queue (omega arith),
              take_all N q.queue (omega arith),
            )
            (ap (λ r. r ++ (x ∷ [])) (drop-one q.queue))
  ]

  -- A push slides the window.
  pub push_refines :
      (q : LimitedQueue T) (x : T)
      → IsValid N q
      → contents N (push N q x) ≡ slide N (contents N q) x
  push_refines q x v = elim (dec_lt q.len N) [
    | yes lt ↦ push_not_full q x v lt ∙ sym (slide_not_full _ x (rw (length-contents q v) lt))
    | no ge ↦
        push_full q x v (omega arith) ∙ sym (slide_full _ x (length-contents q v ∙ omega arith))
  ]

  -- Whatever was pushed, the queue holds the last `N` of it, oldest first.
  slide-drop :
      (h : List T) (x : T)
      → 0 < N
      → slide N (drop (length h - N) h) x ≡ drop (length (h ++ (x ∷ [])) - N) (h ++ (x ∷ []))
  slide-drop h x p = elim (dec_lt (length h) N) [
    | yes lt ↦ rw (sub_zero (length h) lt, sub_zero' lt) (slide_not_full h x lt)
    | no ge ↦
        slide_full (drop k h) x (omega (arith, length-drop k h))
        ∙ sym (tail-append (drop k h) (x ∷ []) (omega (arith, length-drop k h)))
        ∙ tail-drop-append k h (x ∷ []) (omega arith)
        ∙ sym (drop-append_le (suc k) h (x ∷ []) (omega arith))
        ∙ ap (λ j. drop j (h ++ x ∷ [])) (suc_sub (omega arith))
  ]
    where
      k : ℕ
      k = length h - N

      sub_zero : (n : ℕ) → n < N → n - N ≡ 0
      sub_zero n lt = omega arith

      sub_zero' : length h < N → length (h ++ x ∷ []) - N ≡ 0
      sub_zero' lt = omega (arith, length-append h (x ∷ []))

      suc_sub : N ≤ length h → suc (length h - N) ≡ length (h ++ x ∷ []) - N
      suc_sub le = omega (arith, length-append h (x ∷ []))

  push_all-IsValid : (q : LimitedQueue T) (xs : List T) → IsValid N q → IsValid N (push_all N q xs)
  unfolding push_all
  push_all-IsValid q [] v = v
  push_all-IsValid q (x ∷ xs) v = push_all-IsValid (push N q x) xs (push-IsValid q x v)

  push_all_from :
      (q : LimitedQueue T) (h xs : List T)
      → IsValid N q
      → contents N q ≡ drop (length h - N) h
      → contents N (push_all N q xs) ≡ drop (length (h ++ xs) - N) (h ++ xs)
  unfolding push_all
  push_all_from q h [] v e = rw (append-nil h) e
  push_all_from q h (x ∷ xs) v e =
      let r =
        push_all_from (push N q x) (h ++ (x ∷ [])) xs (push-IsValid q x v)
          (push_refines q x v ∙ rw e (slide-drop h x v.positive)) in
      rw (append_assoc h (x ∷ []) xs) at r

  contents-new : (d : T) → 0 < N → contents N (new N d) ≡ []
  unfolding new
  contents-new d p = contents_not_full (new N d) p

  -- A queue of `N` slots, with `N` positive and below 2^64, that was filled by pushes holds the
  -- last `N` elements that were pushed, oldest first.
  pub push_all-new :
      (d : T) (xs : List T)
      → 0 < N
      → N < u64_mod
      → contents N (push_all N (new N d) xs) ≡ drop (length xs - N) xs
  push_all-new d xs p w =
      push_all_from (new N d) [] xs (new-IsValid d p w)
        (contents-new d p ∙ sym (drop_all (0 - N) [] (omega arith)))

  -- The array index that index `i` stands for.
  place : LimitedQueue T → ℕ → ℕ
  place q i = ((i + from_bool (q.len == N) * ((q.end + 1) % u64_mod)) % u64_mod) % N

  place_not_full :
      (q : LimitedQueue T) (i : ℕ) → i < q.len → q.len < N → N < u64_mod → place q i ≡ i
  unfolding place
  place_not_full q i h lt w =
      let e : (q.len == N) ≡ false = ground arith in
      let same : (i + 0 * ((q.end + 1) % u64_mod)) % u64_mod ≡ i = omega (arith, h, lt, w) in
      rw e (ap (λ j. j % N) same ∙ mod-eq_of_lt {n = i} {m = N} (omega arith))

  -- Within `N` slots of at most half the words, no sum wraps.
  place_full :
      (q : LimitedQueue T) (i : ℕ)
      → q.len ≡ N
      → i < N
      → q.end < N
      → 2 * N ≤ u64_mod
      → place q i ≡ (i + (q.end + 1)) % N
  unfolding place
  place_full q i h lt en w =
      let e : (q.len == N) ≡ true = ground arith in
      let same : (i + 1 * ((q.end + 1) % u64_mod)) % u64_mod ≡ i + (q.end + 1) =
        omega (arith, lt, en, w) in
      rw e (ap (λ j. j % N) same)

  -- Index `i` of a valid queue of at most 2^63 slots, with `i` below `len`, reads its `i`-th
  -- oldest element.
  pub index_refines :
      (q : LimitedQueue T) (i : ℕ)
      → IsValid N q
      → 2 * N ≤ u64_mod
      → i < q.len
      → index N q i ≡ get_elem? (contents N q) i
  unfolding index place
  index_refines q i v w h = elim (dec_lt q.len N) [
    | yes lt ↦
        rw
          (contents_not_full q lt, place_not_full q i h lt v.word, get_elem?-take q.len q.queue i h)
          refl
    | no ge ↦ elim (dec_lt (i + (q.end + 1)) N) [
      | yes small ↦
          rw
            (
              contents_full q v (omega arith),
              place_full q i (omega arith) (omega arith) v.end_in w,
              mod-eq_of_lt small,
              get_elem?-append_lt (drop (q.end + 1) q.queue) (take (q.end + 1) q.queue) i
                  (omega (arith, length-drop (q.end + 1) q.queue)),
              get_elem?-drop (q.end + 1) q.queue i,
            )
            (ap (get_elem? q.queue) (omega arith))
      | no big ↦
          rw
            (
              contents_full q v (omega arith),
              place_full q i (omega arith) (omega arith) v.end_in w,
              mod-eq-sub-mod {n = i + (q.end + 1)} {m = N} (omega arith),
              mod-eq_of_lt {n = i + (q.end + 1) - N} {m = N} (omega arith),
              get_elem?-append_ge (drop (q.end + 1) q.queue) (take (q.end + 1) q.queue) i
                  (omega (arith, length-drop (q.end + 1) q.queue)),
              get_elem?-take (q.end + 1) q.queue (i - length (drop (q.end + 1) q.queue))
                  (omega (arith, length-drop (q.end + 1) q.queue)),
            )
            (ap (get_elem? q.queue) (omega (arith, length-drop (q.end + 1) q.queue)))
    ]
  ]
