-- ===== src/Taiko/Color/Streaks.antt =====
-- src/taiko/difficulty/color/preprocessor.rs, `encode_mono_streaks`: where streaks begin, told from the
-- types of the objects alone.
use mathlib.Core.List.{append_assoc}
use mathlib.Core.Logic.{◌≢◌}
use mathlib.Core.Option.{some-injective}
use mathlib.Core.Path.{subst}
use old_ccv3_pp.Base.{
  ℕ, suc, Bool, true, false, Bool-cases, Option, none, some, List, [], ◌∷◌, ◌++◌, length,
  if◌then◌else◌, get_elem?, ◌≡◌, refl, sym, ap, ◌∙◌, ◌⊎◌, inl, inr, arith, length-append,
}
use old_ccv3_pp.Base.Sort.{All}
use old_ccv3_pp.Taiko.Objects.{
  HitType, center, rim, non_hit, is_hit, TaikoDifficultyObject, TaikoDifficultyObjects,
  previous_note,
}
use old_ccv3_pp.Taiko.Objects.Indices.{is_note, filter, IsIndexed, Unlisted, Numbered-get}
use old_ccv3_pp.Taiko.Color.{type_eq, continues, encode_mono_streaks}
use old_ccv3_pp.Taiko.Color.Chunks.{concat, chunk}
use old_ccv3_pp.Taiko.Color.Encode.{
  same_streak, encode_mono_streaks-IsChunking, encode_mono_streaks-nil, encode_mono_streaks-groups,
}

-- The type of the last hit, after one more object
abbrev pub last_hit : Option HitType → TaikoDifficultyObject → Option HitType
last_hit last o = if is_hit o.base_hit_type then some o.base_hit_type else last

-- The type of the last hit, after more objects
abbrev pub last_hit_of : Option HitType → List TaikoDifficultyObject → Option HitType
last_hit_of last [] = last
last_hit_of last (o ∷ os) = last_hit_of (last_hit last o) os

-- Every object has the type of the last hit before it.
abbrev pub Continue : Option HitType → List TaikoDifficultyObject → Type 0
Continue last [] = Unit
Continue last (o ∷ os) = (last ≡ some o.base_hit_type) × Continue (last_hit last o) os

-- The first object has not the type of the last hit before it, and the others have.
abbrev pub IsStreak : Option HitType → List TaikoDifficultyObject → Type 0
IsStreak last [] = ⊥
IsStreak last (o ∷ os) = (last ≢ some o.base_hit_type) × Continue (last_hit last o) os

-- All are streaks, in one list of objects after hits of which the last has type `last`.
abbrev pub AllStreaks : Option HitType → List (List TaikoDifficultyObject) → Type 0
AllStreaks last [] = Unit
AllStreaks last (g ∷ gs) = IsStreak last g × AllStreaks (last_hit_of last g) gs

type_eq_sound : (a b : HitType) → type_eq a b ≡ true → b ≡ a
type_eq_sound center center e = refl
type_eq_sound center rim e = ground (arith, e)
type_eq_sound center non_hit e = ground (arith, e)
type_eq_sound rim center e = ground (arith, e)
type_eq_sound rim rim e = refl
type_eq_sound rim non_hit e = ground (arith, e)
type_eq_sound non_hit center e = ground (arith, e)
type_eq_sound non_hit rim e = ground (arith, e)
type_eq_sound non_hit non_hit e = refl

type_eq_refl : (a : HitType) → type_eq a a ≡ true
type_eq_refl center = refl
type_eq_refl rim = refl
type_eq_refl non_hit = refl

type_eq_complete : (a b : HitType) → type_eq a b ≡ false → b ≢ a
type_eq_complete a b e q =
    let same : type_eq a a ≡ false = ap (λ c. type_eq a c) (sym q) ∙ e in
    ground (arith, same, type_eq_refl a)

none-some : (t : HitType) (last : Option HitType) → last ≡ none → last ≢ some t
none-some t last e q =
    let d : ◌≡◌ {A = Option HitType} none (some t) = sym e ∙ q in ground (arith, d)

-- `last` is the type of the last of the notes.
abbrev IsLast : List TaikoDifficultyObject → Option HitType → Type 0
IsLast ns last =
    ((ns ≡ []) × (last ≡ none))
    ⊎ ((init : List TaikoDifficultyObject) × (q : TaikoDifficultyObject) × (ns ≡ init ++ (q ∷ []))
        × (last ≡ some q.base_hit_type)
        × (is_note q ≡ true))

-- What `continues` answers, by the type of the last hit
abbrev Answers : Bool → Option HitType → TaikoDifficultyObject → Type 0
Answers true last o = last ≡ some o.base_hit_type
Answers false last o = last ≢ some o.base_hit_type

get_elem?-append :
    (init : List TaikoDifficultyObject) (q : TaikoDifficultyObject)
    (post : List TaikoDifficultyObject)
    → get_elem? (init ++ (q ∷ post)) (length init) ≡ some q
get_elem?-append [] q post = refl
get_elem?-append (x ∷ init) q post = get_elem?-append init q post

module _ (objects : TaikoDifficultyObjects) (h : IsIndexed objects) where
  continues_first : (o : TaikoDifficultyObject) → o.note_idx ≡ 0 → continues objects o ≡ false
  unfolding continues previous_note
  continues_first o e = rw (e, continues) refl

  continues_after :
      (o q : TaikoDifficultyObject) (i : ℕ)
      → o.note_idx ≡ suc i
      → get_elem? objects.note_objects i ≡ some q
      → continues objects o ≡ type_eq o.base_hit_type q.base_hit_type
  unfolding continues previous_note
  continues_after o q i e f = rw (e, f, continues) refl

  note_idx_lem :
      (ns post : List TaikoDifficultyObject) (o : TaikoDifficultyObject)
      → objects.note_objects ≡ ns ++ (o ∷ post)
      → o.note_idx ≡ length ns
  note_idx_lem ns post o e =
      Numbered-get (λ o'. o'.note_idx) (λ n. n) 0 objects.note_objects (length ns) o
        h.notes_numbered (ap (λ l. get_elem? l (length ns)) e ∙ get_elem?-append ns o post)
      ∙ omega arith

  -- A hit, after the notes `ns`
  Answers-hit :
      (ns post : List TaikoDifficultyObject) (last : Option HitType) (o : TaikoDifficultyObject)
      → objects.note_objects ≡ ns ++ (o ∷ post)
      → IsLast ns last
      → Answers (continues objects o) last o
  Answers-hit ns post last o e (inl (n, l)) =
      let idx : o.note_idx ≡ 0 = note_idx_lem ns post o e ∙ ap length n in
      subst (λ b. Answers b last o) (sym (continues_first o idx)) (none-some o.base_hit_type last l)
  Answers-hit ns post last o e (inr (init, q, n, l, k)) =
      let len : length ns ≡ suc (length init) =
        ap length n ∙ length-append init (q ∷ []) ∙ omega arith in
      let idx : o.note_idx ≡ suc (length init) = note_idx_lem ns post o e ∙ len in
      let whole : objects.note_objects ≡ init ++ (q ∷ o ∷ post) =
        e ∙ ap (λ l. l ++ (o ∷ post)) n ∙ append_assoc init (q ∷ []) (o ∷ post) in
      let at_q : get_elem? objects.note_objects (length init) ≡ some q =
        ap (λ l. get_elem? l (length init)) whole ∙ get_elem?-append init q (o ∷ post) in
      let c : continues objects o ≡ type_eq o.base_hit_type q.base_hit_type =
        continues_after o q (length init) idx at_q in
      elim (Bool-cases (type_eq o.base_hit_type q.base_hit_type)) [
        | inl t ↦
            subst (λ b. Answers b last o) (sym (c ∙ t))
              (l ∙ ap some (type_eq_sound o.base_hit_type q.base_hit_type t))
        | inr t ↦
            subst (λ b. Answers b last o) (sym (c ∙ t))
              (λ s.
                type_eq_complete o.base_hit_type q.base_hit_type t
                  (some-injective q.base_hit_type o.base_hit_type (sym l ∙ s)))
      ]

  -- No hit: it begins a streak.
  Answers-other :
      (ns : List TaikoDifficultyObject) (last : Option HitType) (o : TaikoDifficultyObject)
      → is_note o ≡ false
      → Unlisted o
      → IsLast ns last
      → Answers (continues objects o) last o
  Answers-other ns last o e u k =
      subst (λ b. Answers b last o) (sym (continues_first o (u e))) (differs k)
    where
      differs : IsLast ns last → last ≢ some o.base_hit_type
      differs (inl (n, l)) = none-some o.base_hit_type last l
      differs (inr (init, q, n, l, t)) = λ s.
          let same : is_note o ≡ true =
            ap is_hit (sym (some-injective q.base_hit_type o.base_hit_type (sym l ∙ s))) ∙ t in
          ground (arith, e, same)

  answers :
      (ns : List TaikoDifficultyObject) (last : Option HitType) (o : TaikoDifficultyObject)
      (os : List TaikoDifficultyObject)
      → objects.note_objects ≡ ns ++ filter is_note (o ∷ os)
      → Unlisted o
      → IsLast ns last
      → Answers (continues objects o) last o
  answers ns last o os e u k = elim (Bool-cases (is_note o)) [
    | inl t ↦ Answers-hit ns (filter is_note os) last o (rw t at e) k
    | inr t ↦ Answers-other ns last o t u k
  ]

  abbrev After : Option HitType → List TaikoDifficultyObject → Type 0
  After last os =
      (ns : List TaikoDifficultyObject) × (objects.note_objects ≡ ns ++ filter is_note os)
      × IsLast ns last

  After-one :
      (last : Option HitType) (o : TaikoDifficultyObject) (os : List TaikoDifficultyObject)
      → After last (o ∷ os)
      → After (last_hit last o) os
  After-one last o os (ns, e, k) = elim (Bool-cases (is_note o)) [
    | inl t ↦ (
      ns ++ (o ∷ []),
      (rw t at e) ∙ sym (append_assoc ns (o ∷ []) (filter is_note os)),
      inr (ns, o, refl, rw t refl, t),
    )
    | inr t ↦ (ns, rw t at e, rw t k)
  ]

  chunk-AllStreaks :
      (last : Option HitType) (x : TaikoDifficultyObject) (xs : List TaikoDifficultyObject)
      → After last (x ∷ xs)
      → All Unlisted (x ∷ xs)
      → Continue (last_hit last x) (chunk (same_streak objects) x xs).0
        × AllStreaks
            (last_hit_of (last_hit last x) (chunk (same_streak objects) x xs).0)
            (chunk (same_streak objects) x xs).1
  unfolding chunk
  chunk-AllStreaks last x [] a u = (tt, tt)
  chunk-AllStreaks last x (y ∷ ys) a u =
      let next : After (last_hit last x) (y ∷ ys) = After-one last x (y ∷ ys) a in
      let (c, s) = chunk-AllStreaks (last_hit last x) y ys next u.1 in
      let ans : Answers (continues objects y) (last_hit last x) y =
        answers next.0 (last_hit last x) y ys next.1 u.1.0 next.2 in
      elim (Bool-cases (continues objects y)) [
        | inl e ↦ let ans' = subst (λ b. Answers b (last_hit last x) y) e ans in rw e ((ans', c), s)
        | inr e ↦
            let ans' = subst (λ b. Answers b (last_hit last x) y) e ans in rw e (tt, ((ans', c), s))
      ]

-- Of indexed objects, `encode_mono_streaks` gives streaks that are the objects in their order. An
-- object begins a streak where it has not the type of the last hit before it among all objects, or
-- there is none, and every other object continues one: the first object of each streak is of the
-- former kind, and the others are of the latter.
pub encode_mono_streaks-AllStreaks :
    (objects : TaikoDifficultyObjects)
    → IsIndexed objects
    → (concat (encode_mono_streaks objects) ≡ objects.objects)
      × AllStreaks none (encode_mono_streaks objects)
encode_mono_streaks-AllStreaks objects h =
    ((encode_mono_streaks-IsChunking objects).0, go objects.objects refl)
  where
    go :
        (os : List TaikoDifficultyObject)
        → objects.objects ≡ os
        → AllStreaks none (encode_mono_streaks objects)
    go [] e = subst (λ gs. AllStreaks none gs) (sym (encode_mono_streaks-nil objects e)) tt
    go (o ∷ os) e =
        let (c, s) =
          chunk-AllStreaks objects h none o os
            ([], h.notes ∙ ap (filter is_note) e, inl (refl, refl))
            (subst (λ l. All Unlisted l) e h.others) in
        subst (λ gs. AllStreaks none gs) (sym (encode_mono_streaks-groups objects o os e))
          ((none-some o.base_hit_type none refl, c), s)
