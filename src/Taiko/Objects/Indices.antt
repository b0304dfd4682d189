-- ===== src/Taiko/Objects/Indices.antt =====
-- src/taiko/difficulty/object.rs: the indices that objects carry, against the lists that they index.
use mathlib.Core.Option.{some-injective}
use mathlib.Core.Path.{subst}
use old_ccv3_pp.Base.{
  ℕ, ◌%◌, ◌<◌, u64_mod, zero, suc, ◌+◌, Bool, true, false, if◌then◌else◌, Bool-cases, inl, inr,
  Option, none, some, List, [], ◌∷◌, ◌++◌, length, get_elem?, length-append, ◌≡◌, refl, sym, ap,
  ◌∙◌, arith,
}
use old_ccv3_pp.Base.Sort.{All, All-snoc}
use old_ccv3_pp.Taiko.Objects.{
  HitType, is_hit, center, rim, non_hit, MonoIndex, TaikoDifficultyObject, TaikoDifficultyObjects,
  with_capacity, new, push, create_from, create_difficulty_objects, checked_sub, get_from,
  previous_note, next_note,
}

abbrev pub is_note : TaikoDifficultyObject → Bool
is_note o = is_hit o.base_hit_type

abbrev is_center : TaikoDifficultyObject → Bool
is_center o = elim o.base_hit_type [ center ↦ true | rim ↦ false | non_hit ↦ false ]

abbrev is_rim : TaikoDifficultyObject → Bool
is_rim o = elim o.base_hit_type [ center ↦ false | rim ↦ true | non_hit ↦ false ]

module _ {A : Type 0} where
  abbrev pub filter : (A → Bool) → List A → List A
  filter p [] = []
  filter p (x ∷ xs) = let rest = filter p xs in if p x then x ∷ rest else rest

  filter-keep :
      (p : A → Bool) (xs ys : List A) (x : A)
      → ys ≡ filter p xs
      → p x ≡ true
      → ys ++ (x ∷ []) ≡ filter p (xs ++ (x ∷ []))
  filter-keep p xs ys x e px = ap (λ zs. zs ++ (x ∷ [])) e ∙ go xs
    where
      go : (zs : List A) → filter p zs ++ (x ∷ []) ≡ filter p (zs ++ (x ∷ []))
      go [] = rw px refl
      go (z ∷ zs) = elim (Bool-cases (p z)) [
        | inl e ↦ rw e (ap (λ r. z ∷ r) (go zs))
        | inr e ↦ rw e (go zs)
      ]

  filter-skip :
      (p : A → Bool) (xs ys : List A) (x : A)
      → ys ≡ filter p xs
      → p x ≡ false
      → ys ≡ filter p (xs ++ (x ∷ []))
  filter-skip p xs ys x e px = e ∙ go xs
    where
      go : (zs : List A) → filter p zs ≡ filter p (zs ++ (x ∷ []))
      go [] = rw px refl
      go (z ∷ zs) = elim (Bool-cases (p z)) [
        | inl e ↦ rw e (ap (λ r. z ∷ r) (go zs))
        | inr e ↦ rw e (go zs)
      ]

module _ {A B : Type 0} (key : A → B) (at : ℕ → B) where
  -- The key of every element is the one for its position.
  abbrev pub Numbered : ℕ → List A → Type 0
  Numbered n [] = Unit
  Numbered n (x ∷ xs) = (key x ≡ at n) × Numbered (suc n) xs

  Numbered-append :
      (n : ℕ) (xs : List A) (x : A)
      → Numbered n xs
      → key x ≡ at (n + length xs)
      → Numbered n (xs ++ (x ∷ []))
  Numbered-append n [] x h e = (e ∙ ap at (omega arith), tt)
  Numbered-append n (y ∷ xs) x h e =
      (h.0, Numbered-append (suc n) xs x h.1 (e ∙ ap at (omega arith)))

  pub Numbered-get :
      (n : ℕ) (xs : List A) (i : ℕ) (x : A)
      → Numbered n xs
      → get_elem? xs i ≡ some x
      → key x ≡ at (n + i)
  Numbered-get n [] i x h e = ground (arith, e)
  Numbered-get n (y ∷ xs) zero x h e =
      ap key (sym (some-injective y x e)) ∙ h.0 ∙ ap at (omega arith)
  Numbered-get n (y ∷ xs) (suc i) x h e = Numbered-get (suc n) xs i x h.1 e ∙ ap at (omega arith)

-- What is no hit has the note index 0.
abbrev pub Unlisted : TaikoDifficultyObject → Type 0
Unlisted o = is_note o ≡ false → o.note_idx ≡ 0

-- Every list holds its part of the objects in order, and each object's index is its position there.
pub record IsIndexed (os : TaikoDifficultyObjects) : Type 0 where
  pub idx_numbered : Numbered (λ o. o.idx) (λ n. n) 0 os.objects
  pub notes : os.note_objects ≡ filter is_note os.objects
  pub centers : os.center_hit_objects ≡ filter is_center os.objects
  pub rims : os.rim_hit_objects ≡ filter is_rim os.objects
  pub notes_numbered : Numbered (λ o. o.note_idx) (λ n. n) 0 os.note_objects
  pub centers_numbered : Numbered (λ o. o.mono_idx) MonoIndex.center 0 os.center_hit_objects
  pub rims_numbered : Numbered (λ o. o.mono_idx) MonoIndex.rim 0 os.rim_hit_objects
  pub others : All Unlisted os.objects

push_new : HitType → ℕ → TaikoDifficultyObjects → TaikoDifficultyObjects
unfolding new push
push_new t i os = let (o, os') = new t i os in push os' o

with_capacity-IsIndexed : IsIndexed with_capacity
unfolding with_capacity
with_capacity-IsIndexed = record {
  idx_numbered = tt;
  notes = refl;
  centers = refl;
  rims = refl;
  notes_numbered = tt;
  centers_numbered = tt;
  rims_numbered = tt;
  others = tt;
}

module _ (os : TaikoDifficultyObjects) (h : IsIndexed os) where
  push_new-IsIndexed : (t : HitType) → IsIndexed (push_new t (length os.objects) os)
  unfolding push_new new push is_hit
  push_new-IsIndexed center = record {
    idx_numbered =
        Numbered-append (λ o. o.idx) (λ n. n) 0 os.objects _ h.idx_numbered (omega arith);
    notes = filter-keep is_note os.objects os.note_objects _ h.notes refl;
    centers = filter-keep is_center os.objects os.center_hit_objects _ h.centers refl;
    rims = filter-skip is_rim os.objects os.rim_hit_objects _ h.rims refl;
    notes_numbered =
        Numbered-append (λ o. o.note_idx) (λ n. n) 0 os.note_objects _ h.notes_numbered
          (omega arith);
    centers_numbered =
        Numbered-append (λ o. o.mono_idx) MonoIndex.center 0 os.center_hit_objects _
          h.centers_numbered (ap MonoIndex.center (omega arith));
    rims_numbered = h.rims_numbered;
    others = All-snoc Unlisted os.objects _ h.others (λ e. ground (arith, e));
  }
  push_new-IsIndexed rim = record {
    idx_numbered =
        Numbered-append (λ o. o.idx) (λ n. n) 0 os.objects _ h.idx_numbered (omega arith);
    notes = filter-keep is_note os.objects os.note_objects _ h.notes refl;
    centers = filter-skip is_center os.objects os.center_hit_objects _ h.centers refl;
    rims = filter-keep is_rim os.objects os.rim_hit_objects _ h.rims refl;
    notes_numbered =
        Numbered-append (λ o. o.note_idx) (λ n. n) 0 os.note_objects _ h.notes_numbered
          (omega arith);
    centers_numbered = h.centers_numbered;
    rims_numbered =
        Numbered-append (λ o. o.mono_idx) MonoIndex.rim 0 os.rim_hit_objects _ h.rims_numbered
          (ap MonoIndex.rim (omega arith));
    others = All-snoc Unlisted os.objects _ h.others (λ e. ground (arith, e));
  }
  push_new-IsIndexed non_hit = record {
    idx_numbered =
        Numbered-append (λ o. o.idx) (λ n. n) 0 os.objects _ h.idx_numbered (omega arith);
    notes = filter-skip is_note os.objects os.note_objects _ h.notes refl;
    centers = filter-skip is_center os.objects os.center_hit_objects _ h.centers refl;
    rims = filter-skip is_rim os.objects os.rim_hit_objects _ h.rims refl;
    notes_numbered = h.notes_numbered;
    centers_numbered = h.centers_numbered;
    rims_numbered = h.rims_numbered;
    others = All-snoc Unlisted os.objects _ h.others (λ e. refl);
  }

  length-push_new :
      (t : HitType) → length (push_new t (length os.objects) os).objects ≡ suc (length os.objects)
  unfolding push_new new push
  length-push_new center = length-append os.objects _ ∙ omega arith
  length-push_new rim = length-append os.objects _ ∙ omega arith
  length-push_new non_hit = length-append os.objects _ ∙ omega arith

create_from-IsIndexed :
    (i : ℕ) (ts : List HitType) (os : TaikoDifficultyObjects)
    → i ≡ length os.objects
    → IsIndexed os
    → IsIndexed (create_from i ts os)
unfolding create_from push_new
create_from-IsIndexed i [] os e h = h
create_from-IsIndexed i (t ∷ ts) os e h =
    create_from-IsIndexed (suc i) ts (push_new t i os)
      (ap suc e ∙ sym (length-push_new os h t) ∙ ap (λ k. length (push_new t k os).objects) (sym e))
      (subst (λ k. IsIndexed (push_new t k os)) (sym e) (push_new-IsIndexed os h t))

-- In the objects that `create_difficulty_objects` makes, the lists of notes, centers and rims hold
-- the objects of these types in order, and each object's index, note index and mono index is its
-- position in its list. The note index of an object that is no hit is 0.
pub create_difficulty_objects-IsIndexed :
    (ts : List HitType) → IsIndexed (create_difficulty_objects ts)
unfolding create_difficulty_objects with_capacity
create_difficulty_objects-IsIndexed [] = with_capacity-IsIndexed
create_difficulty_objects-IsIndexed (t ∷ []) = with_capacity-IsIndexed
create_difficulty_objects-IsIndexed (t ∷ u ∷ ts) =
    create_from-IsIndexed 0 ts with_capacity refl with_capacity-IsIndexed

checked_sub-some : (n k i : ℕ) → checked_sub n k ≡ some i → i + k ≡ n
checked_sub-some n zero i e = ground (arith, e)
checked_sub-some zero (suc k) i e = ground (arith, e)
checked_sub-some (suc n) (suc k) i e = omega (arith, checked_sub-some n k i e)

-- In lists that are indexed, from a listed note, whose note index is a `usize`, to the note `k`
-- before it, if there is one, and then to the note `k` after that leads back.
pub next_note-previous_note :
    (os : TaikoDifficultyObjects) (curr prev : TaikoDifficultyObject) (k : ℕ)
    → IsIndexed os
    → curr.note_idx < u64_mod
    → get_elem? os.note_objects curr.note_idx ≡ some curr
    → previous_note os curr k ≡ some prev
    → next_note os prev k ≡ some curr
unfolding next_note previous_note
next_note-previous_note os curr prev k h w c e =
    go (checked_sub curr.note_idx ((k + 1) % u64_mod)) refl e
  where
    go :
        (r : Option ℕ)
        → checked_sub curr.note_idx ((k + 1) % u64_mod) ≡ r
        → get_from os.note_objects r ≡ some prev
        → get_elem? os.note_objects ((prev.note_idx + (k + 1) % u64_mod) % u64_mod) ≡ some curr
    go none e' f = ground (arith, f)
    go (some i) e' f =
        let n : prev.note_idx ≡ i =
          Numbered-get (λ o. o.note_idx) (λ n. n) 0 os.note_objects i prev h.notes_numbered f
          ∙ omega arith in
        ap (λ j. get_elem? os.note_objects j)
          (omega (arith, n, w, checked_sub-some curr.note_idx ((k + 1) % u64_mod) i e'))
        ∙ c
