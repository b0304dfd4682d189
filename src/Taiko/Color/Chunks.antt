-- ===== src/Taiko/Color/Chunks.antt =====
-- Cutting a list where neighbours are not linked, as the encoders of src/taiko/difficulty/color do.
use mathlib.Core.List.{append_assoc, append-nil}
use old_ccv3_pp.Base.{
  Bool, true, false, List, [], ◌∷◌, ◌++◌, if◌then◌else◌, ◌≡◌, refl, ap, Bool-cases, inl, inr,
}
use old_ccv3_pp.Base.Sort.{All}
use old_ccv3_pp.Taiko.Color.{push_last}

module _ {ℓ} {A : Type ℓ} where
  abbrev pub concat : List (List A) → List A
  concat [] = []
  concat (g ∷ gs) = g ++ concat gs

  abbrev pub IsNonempty : List A → Type 0
  IsNonempty [] = ⊥
  IsNonempty (x ∷ g) = Unit

  push_last-append :
      (init : List (List A)) (g : List A) (x : A)
      → push_last (init ++ (g ∷ [])) x ≡ init ++ ((g ++ (x ∷ [])) ∷ [])
  unfolding push_last
  push_last-append [] g x = refl
  push_last-append (h ∷ []) g x = refl
  push_last-append (h ∷ i ∷ init) g x = ap (λ r. h ∷ r) (push_last-append (i ∷ init) g x)

  module _ (p : A → A → Bool) where
    -- Neighbours in a group are linked.
    abbrev pub IsLinked : List A → Type 0
    IsLinked [] = Unit
    IsLinked (x ∷ []) = Unit
    IsLinked (x ∷ y ∷ g) = (p x y ≡ true) × IsLinked (y ∷ g)

    -- The last of a group is not linked to the first of the next.
    abbrev pub IsCut : List A → List A → Type 0
    IsCut [] h = ⊥
    IsCut (x ∷ []) [] = ⊥
    IsCut (x ∷ []) (y ∷ h) = p x y ≡ false
    IsCut (x ∷ y ∷ g) h = IsCut (y ∷ g) h

    abbrev pub AllCut : List (List A) → Type 0
    AllCut [] = Unit
    AllCut (g ∷ []) = Unit
    AllCut (g ∷ h ∷ gs) = IsCut g h × AllCut (h ∷ gs)

    -- The groups are the list, cut at every place where neighbours are not linked and nowhere else.
    abbrev pub IsChunking : List A → List (List A) → Type ℓ
    IsChunking xs gs = (concat gs ≡ xs) × All IsNonempty gs × All IsLinked gs × AllCut gs

    -- Of the groups of `x ∷ xs`: what follows `x` in the first, and the others.
    unfoldable pub chunk : A → List A → List A × List (List A)
    chunk x [] = ([], [])
    chunk x (y ∷ ys) =
        let rest = chunk y ys in if p x y then (y ∷ rest.0, rest.1) else ([], (y ∷ rest.0) ∷ rest.1)

    abbrev pub groups : A → List A → List (List A)
    groups x xs = (x ∷ (chunk x xs).0) ∷ (chunk x xs).1

    AllCut-cons :
        (x y : A) (g : List A) (gs : List (List A))
        → AllCut ((y ∷ g) ∷ gs)
        → AllCut ((x ∷ y ∷ g) ∷ gs)
    AllCut-cons x y g [] h = tt
    AllCut-cons x y g (k ∷ gs) h = h

    pub groups-IsChunking : (x : A) (xs : List A) → IsChunking (x ∷ xs) (groups x xs)
    unfolding chunk
    groups-IsChunking x [] = (refl, (tt, tt), (tt, tt), tt)
    groups-IsChunking x (y ∷ ys) = elim (Bool-cases (p x y)) [
      | inl e ↦
          let (c, n, l, k) = groups-IsChunking y ys in
          rw e (
            ap (λ r. x ∷ r) c,
            (tt, n.1),
            ((e, l.0), l.1),
            AllCut-cons x y (chunk y ys).0 (chunk y ys).1 k,
          )
      | inr e ↦
          let (c, n, l, k) = groups-IsChunking y ys in
          rw e (ap (λ r. x ∷ r) c, (tt, n), (tt, l), (e, k))
    ]

    -- The loop of an encoder: the last group grows, or a new one is started.
    unfoldable pub chunk_from : A → List A → List (List A) → List (List A)
    unfolding push_last
    chunk_from x [] gs = gs
    chunk_from x (y ∷ ys) gs = chunk_from y ys (push_last (if p x y then gs else gs ++ ([] ∷ [])) y)

    pub chunk_from-append :
        (x : A) (xs : List A) (init : List (List A)) (g : List A)
        → chunk_from x xs (init ++ (g ∷ [])) ≡ init ++ ((g ++ (chunk x xs).0) ∷ (chunk x xs).1)
    unfolding chunk chunk_from
    chunk_from-append x [] init g = rw (append-nil g) refl
    chunk_from-append x (y ∷ ys) init g = elim (Bool-cases (p x y)) [
      | inl e ↦ rw (
        e,
        push_last-append init g y,
        chunk_from-append y ys init (g ++ (y ∷ [])),
        append_assoc g (y ∷ []) (chunk y ys).0,
      )
      | inr e ↦ rw (
        e,
        push_last-append (init ++ (g ∷ [])) [] y,
        chunk_from-append y ys (init ++ (g ∷ [])) (y ∷ []),
        append_assoc init (g ∷ []) ((y ∷ (chunk y ys).0) ∷ (chunk y ys).1),
        append-nil g,
      )
    ]

    pub chunk_from-groups : (x : A) (xs : List A) → chunk_from x xs ((x ∷ []) ∷ []) ≡ groups x xs
    chunk_from-groups x xs = chunk_from-append x xs [] (x ∷ [])
