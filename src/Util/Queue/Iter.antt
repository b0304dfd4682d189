-- ===== src/Util/Queue/Iter.antt =====
-- `LimitedQueueIter`: both ends, `nth`, `last` and `len`, against one list.
use mathlib.Core.List.{append-nil}
use old_ccv3_pp.Base.{
  ℕ, ◌+◌, ◌-◌, ◌<◌, Option, none, some, List, [], ◌∷◌, ◌++◌, ◌≡◌, refl, ap, ◌∙◌, arith, leb,
  if◌then◌else◌, length, drop, get_last?, length-append, drop-append_ge, drop-append_le, false,
  length-drop, Bool-cases, inl, inr, leb→le,
}
use old_ccv3_pp.Util.Queue.{LimitedQueueIter, slice_next, slice_next_back, slice_nth}

module _ {ℓ} {T : Type ℓ} where
  -- If the head is used up, the slices are swapped.
  pub next : LimitedQueueIter T → Option T × LimitedQueueIter T
  next it =
      let (val, h) = slice_next it.head in
      elim val [
        | some x ↦ (some x, record it { head = h })
        | none ↦ let (o, t) = slice_next it.tail in (o, record { head = t; tail = h })
      ]

  pub next_back : LimitedQueueIter T → Option T × LimitedQueueIter T
  next_back it =
      let (val, t) = slice_next_back it.tail in
      elim val [
        | some x ↦ (some x, record it { tail = t })
        | none ↦ let (o, h) = slice_next_back it.head in (o, record { head = t; tail = h })
      ]

  pub last : LimitedQueueIter T → Option T
  unfolding next_back
  last it = (next_back it).0

  -- What is skipped beyond the head is taken from the tail, which becomes the head.
  pub nth : LimitedQueueIter T → ℕ → Option T × LimitedQueueIter T
  nth it n =
      if leb (length it.head) n
      then (let (o, h) = slice_nth it.tail (n - length it.head) in
          (o, record { head = h; tail = [] }))
      else (let (o, h) = slice_nth it.head n in (o, record it { head = h }))

  pub len : LimitedQueueIter T → ℕ
  len it = length it.head + length it.tail

  -- What the iterator has left.
  pub rest : LimitedQueueIter T → List T
  rest it = it.head ++ it.tail

  at : List T → List T → LimitedQueueIter T
  at h t = record { head = h; tail = t }

  next-at : (h t : List T) → let (o, it) = next (at h t) in (o, rest it) ≡ slice_next (h ++ t)
  unfolding next rest at
  next-at (x ∷ h) t = refl
  next-at [] [] = refl
  next-at [] (y ∷ t) = ap (λ r. (some y, r)) (append-nil t)

  -- `next` takes the first of what is left.
  pub next_refines :
      (it : LimitedQueueIter T) → let (o, it') = next it in (o, rest it') ≡ slice_next (rest it)
  unfolding at rest
  next_refines it = next-at it.head it.tail

  slice_next_back-append :
      (h : List T) (y : T) (t : List T)
      → let (o, t') = slice_next_back (y ∷ t) in slice_next_back (h ++ y ∷ t) ≡ (o, h ++ t')
  slice_next_back-append [] y t = refl
  slice_next_back-append (x ∷ []) y t = refl
  slice_next_back-append (x ∷ z ∷ h) y t =
      ap (λ (p : Option T × List T). (p.0, x ∷ p.1)) (slice_next_back-append (z ∷ h) y t)

  slice_next_back-some : (y : T) (t : List T) → (z : T) × ((slice_next_back (y ∷ t)).0 ≡ some z)
  slice_next_back-some y [] = (y, refl)
  slice_next_back-some y (z ∷ t) = slice_next_back-some z t

  next_back-at :
      (h t : List T) → let (o, it) = next_back (at h t) in (o, rest it) ≡ slice_next_back (h ++ t)
  unfolding next_back rest at
  next_back-at h [] = rw (append-nil h)
  next_back-at h (y ∷ t) =
      let (z, e) = slice_next_back-some y t in rw (slice_next_back-append h y t, e, next_back) refl

  -- `next_back` takes the last of what the iterator has left.
  pub next_back_refines :
      (it : LimitedQueueIter T)
      → let (o, it') = next_back it in (o, rest it') ≡ slice_next_back (rest it)
  unfolding at rest
  next_back_refines it = next_back-at it.head it.tail

  slice_next_back-get_last? : (xs : List T) → (slice_next_back xs).0 ≡ get_last? xs
  slice_next_back-get_last? [] = refl
  slice_next_back-get_last? (x ∷ []) = refl
  slice_next_back-get_last? (x ∷ y ∷ xs) = slice_next_back-get_last? (y ∷ xs)

  -- `last` is the last of what is left.
  pub last_lem : (it : LimitedQueueIter T) → last it ≡ get_last? (rest it)
  unfolding last
  last_lem it =
      ap (λ (p : Option T × List T). p.0) (next_back_refines it)
      ∙ slice_next_back-get_last? (rest it)

  slice_next-append :
      (h t : List T)
      → 0 < length h
      → let (o, h') = slice_next h in ◌≡◌ {A = Option T × List T} (o, h' ++ t) (slice_next (h ++ t))
  slice_next-append [] t p = absurd (omega arith)
  slice_next-append (x ∷ h) t p = refl

  gt_lt : (n : ℕ) (h : List T) → leb (length h) n ≡ false → n < length h
  gt_lt n h e = ground arith

  -- `nth` takes the `n`-th of what the iterator has left and leaves what comes after it, on either
  -- side of the slice boundary.
  pub nth_refines :
      (it : LimitedQueueIter T) (n : ℕ)
      → let (o, it') = nth it n in (o, rest it') ≡ slice_nth (rest it) n
  unfolding nth rest
  nth_refines it n = elim (Bool-cases (leb (length it.head) n)) [
    | inl le ↦
        rw (le, drop-append_ge n it.head it.tail (leb→le _ _ le))
          (ap (λ r. ((slice_next (drop (n - length it.head) it.tail)).0, r)) (append-nil _))
    | inr gt ↦
        rw (gt, drop-append_le n it.head it.tail (omega (arith, gt_lt n it.head gt)))
          (slice_next-append (drop n it.head) it.tail
            (omega (arith, length-drop n it.head, gt_lt n it.head gt)))
  ]

  pub len_lem : (it : LimitedQueueIter T) → len it ≡ length (rest it)
  unfolding len rest
  len_lem it = omega (arith, length-append it.head it.tail)
