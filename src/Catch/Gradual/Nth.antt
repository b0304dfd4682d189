-- ===== src/Catch/Gradual/Nth.antt =====
-- The iterator of src/catch/difficulty/gradual.rs: `len` counts the attributes that are left, and
-- `nth` is repeated `next`.
use old_ccv3_pp.Base.{
  ℕ, zero, suc, ◌+◌, ◌-◌, ◌≤◌, ◌<◌, true, false, Option, none, some, List, [], ◌∷◌, ltb, min,
  length, get_elem?, get_elem?_within, take, drop, ◌≡◌, refl, sym, ap, ◌∙◌, arith, lt→ltb,
  Bool-cases, inl, inr, ◌==◌, ◌⊎◌, dec_lt,
}
use mathlib.Core.Option.{some-injective}
use old_ccv3_pp.Catch.Performance.{CatchDifficultyAttributes}
use old_ccv3_pp.Catch.Counts.{GradualObjectCount, add_object_count}
use old_ccv3_pp.Catch.Gradual.{
  Skill, CatchGradualDifficulty, Call, count_object, emit, process_object, next, len, skip_objects,
  skip_first, nth,
}

get_elem?_past : {A : Type 0} (xs : List A) (i : ℕ) → length xs ≤ i → get_elem? xs i ≡ none
get_elem?_past [] zero h = refl
get_elem?_past [] (suc i) h = refl
get_elem?_past (x ∷ xs) zero h = absurd (omega arith)
get_elem?_past (x ∷ xs) (suc i) h = get_elem?_past xs i (omega arith)

cons_of : {A : Type 0} (xs : List A) → 0 < length xs → (x : A) × (ys : List A) × (xs ≡ x ∷ ys)
cons_of [] h = absurd (omega arith)
cons_of (x ∷ xs) h = (x, xs, refl)

drop_at :
    {A : Type 0} (xs : List A) (i : ℕ) (x : A)
    → get_elem? xs i ≡ some x
    → drop i xs ≡ x ∷ drop (suc i) xs
drop_at [] zero x e = cc
drop_at [] (suc i) x e = cc
drop_at (y ∷ xs) zero x e = ap (λ z. z ∷ xs) (some-injective y x e)
drop_at (y ∷ xs) (suc i) x e = drop_at xs i x e

module _ {F64 : Type 0} (skill : Skill F64) where
  open skill use {CatchDifficultyObject, Movement, process, eval}

  -- A map with palpable objects: each but the first has a difficulty object.
  pub record IsValid (g : CatchGradualDifficulty skill) : Type 0 where
    pub counts : length g.count ≡ length g.diff_objects + 1
    pub reached : g.idx ≤ length g.count

  -- `next` for `n + 1` times, with what the last call returns.
  abbrev pub next_times : ℕ → CatchGradualDifficulty skill → Call skill
  next_times zero g = next skill g
  next_times (suc n) g = elim (next skill g) [ none ↦ none | some (item, g') ↦ next_times n g' ]

  -- the calculator after one more object, with its count and, past the first, its difficulty object
  abbrev counted : CatchGradualDifficulty skill → GradualObjectCount → CatchGradualDifficulty skill
  counted g c = record g { attrs = add_object_count g.attrs c; idx = g.idx + 1 }

  count_object_lem :
      (g : CatchGradualDifficulty skill)
      → g.idx < length g.count
      → (c : GradualObjectCount) × (count_object skill g ≡ some (counted g c))
  unfolding count_object add_object_count
  count_object_lem g h =
      let (c, e) = get_elem?_within g.count g.idx h in (c, rw (e, count_object) refl)

  next_first :
      (g : CatchGradualDifficulty skill) (cs : List GradualObjectCount) (c : GradualObjectCount)
      (g' : CatchGradualDifficulty skill)
      → g.idx ≡ 0
      → g.count ≡ c ∷ cs
      → count_object skill g ≡ some g'
      → next skill g ≡ some (some (eval g'.attrs g'.movement), g')
  unfolding next emit
  next_first g cs c g' z e h = rw (z, e, h) refl

  next_later :
      (g : CatchGradualDifficulty skill) (curr : CatchDifficultyObject)
      (g' : CatchGradualDifficulty skill)
      → ltb 0 g.idx ≡ true
      → get_elem? g.diff_objects (g.idx - 1) ≡ some curr
      → count_object skill (process_object skill g curr) ≡ some g'
      → next skill g ≡ some (some (eval g'.attrs g'.movement), g')
  unfolding next emit
  next_later g curr g' p e h = rw (p, e, h) refl

  next_end :
      (g : CatchGradualDifficulty skill)
      → ltb 0 g.idx ≡ true
      → get_elem? g.diff_objects (g.idx - 1) ≡ none
      → next skill g ≡ some (none, g)
  unfolding next
  next_end g p e = rw (p, e) refl

  -- One more object: while some are left, `next` gives attributes and moves past one object.
  module _ (g : CatchGradualDifficulty skill) (v : IsValid g) where
    later :
        0 < g.idx
        → g.idx < length g.count
        → (curr : CatchDifficultyObject) × (g' : CatchGradualDifficulty skill) × (get_elem?
              g.diff_objects
              (g.idx - 1)
            ≡ some curr)
          × (count_object skill (process_object skill g curr) ≡ some g')
          × (g'.idx ≡ g.idx + 1)
          × (g'.diff_objects ≡ g.diff_objects)
          × (g'.count ≡ g.count)
    unfolding process_object
    later p h =
        let (curr, e) = get_elem?_within g.diff_objects (g.idx - 1) (omega (arith, v.counts)) in
        let (c, k) = count_object_lem (process_object skill g curr) h in
        (curr, counted (process_object skill g curr) c, e, k, refl, refl, refl)

    first :
        g.idx ≡ 0
        → (c : GradualObjectCount) × (cs : List GradualObjectCount) × (g' : CatchGradualDifficulty
            skill)
          × (g.count ≡ c ∷ cs)
          × (count_object skill g ≡ some g')
          × (g'.idx ≡ g.idx + 1)
          × (g'.diff_objects ≡ g.diff_objects)
          × (g'.count ≡ g.count)
    first z =
        let (c, cs, e) = cons_of g.count (omega (arith, v.counts)) in
        let (c', k) = count_object_lem g (omega (arith, v.counts, z)) in
        (c, cs, counted g c', e, k, refl, refl, refl)

    moved :
        (g' : CatchGradualDifficulty skill)
        → g.idx < length g.count
        → g'.idx ≡ g.idx + 1
        → g'.diff_objects ≡ g.diff_objects
        → g'.count ≡ g.count
        → IsValid g'
    moved g' h i d c = record {
      counts = ap length c ∙ v.counts ∙ ap (λ xs. length xs + 1) (sym d);
      reached = omega (arith, i, h, ap length c);
    }

  -- `next` on what a loop leaves
  abbrev finish : Option (CatchGradualDifficulty skill) → Call skill
  finish o = elim o [ none ↦ none | some g ↦ next skill g ]

  -- The rest of `nth`, once the first object is skipped.
  abbrev resume :
      List CatchDifficultyObject → Option (CatchGradualDifficulty skill × ℕ) → Call skill
  resume skip_iter o = elim o [
    | none ↦ none
    | some (g', left) ↦ finish (skip_objects skill (take left skip_iter) g')
  ]

  next_times-suc :
      (k : ℕ) (g g' : CatchGradualDifficulty skill) (item : Option (CatchDifficultyAttributes F64))
      → next skill g ≡ some (item, g')
      → next_times (suc k) g ≡ next_times k g'
  next_times-suc k g g' item e = rw (e, next_times) refl

  skip_cons :
      (curr : CatchDifficultyObject) (rest : List CatchDifficultyObject)
      (g g' : CatchGradualDifficulty skill)
      → count_object skill (process_object skill g curr) ≡ some g'
      → skip_objects skill (curr ∷ rest) g ≡ skip_objects skill rest g'
  unfolding skip_objects
  skip_cons curr rest g g' e = rw (e, skip_objects) refl

  skip_first_zero :
      (g g' : CatchGradualDifficulty skill) (k : ℕ)
      → (g.idx == 0) ≡ true
      → count_object skill g ≡ some g'
      → skip_first skill g (suc k) ≡ some (g', k)
  unfolding skip_first
  skip_first_zero g g' k t e = rw (t, e) refl

  skip_first_later :
      (g : CatchGradualDifficulty skill) (k : ℕ)
      → (g.idx == 0) ≡ false
      → skip_first skill g (suc k) ≡ some (g, suc k)
  unfolding skip_first
  skip_first_later g k t = rw t refl

  loop :
      (k : ℕ) (g : CatchGradualDifficulty skill)
      → IsValid g
      → 0 < g.idx
      → k ≤ len skill g - 1
      → finish (skip_objects skill (take k (drop (g.idx - 1) g.diff_objects)) g) ≡ next_times k g
  unfolding skip_objects len
  loop zero g v p h = refl
  loop (suc k) g v p h =
      let (curr, g', e, c, i, d, n) = later g v p (omega (arith, v.counts)) in
      let valid = moved g v g' (omega (arith, v.counts)) i d n in
      let same : g'.idx - 1 ≡ suc (g.idx - 1) = omega (arith, i) in
      ap (λ xs. finish (skip_objects skill (take (suc k) xs) g))
        (drop_at g.diff_objects (g.idx - 1) curr e)
      ∙ ap finish (skip_cons curr (take k (drop (suc (g.idx - 1)) g.diff_objects)) g g' c)
      ∙ ap (λ xs. finish (skip_objects skill (take k xs) g')) (λ j. drop (sym same j) (sym d j))
      ∙ loop k g' valid (omega (arith, i)) (omega (arith, i, ap length d))
      ∙ sym (next_times-suc k g g' _ (next_later g curr g' (lt→ltb 0 g.idx p) e c))

  -- What `nth` does with at most what is left.
  skipped :
      (g : CatchGradualDifficulty skill) (k : ℕ)
      → IsValid g
      → k ≤ len skill g - 1
      → ◌≡◌ {A = Call skill}
          (resume (drop (g.idx - 1) g.diff_objects) (skip_first skill g k))
          (next_times k g)
  unfolding skip_first skip_objects len
  skipped g zero v h = refl
  skipped g (suc k) v h = elim (Bool-cases (g.idx == 0)) [
    | inl t ↦
        let z : g.idx ≡ 0 = ground arith in
        let (c, cs, g', e, q, i, d, n) = first g v z in
        let valid = moved g v g' (omega (arith, v.counts, z)) i d n in
        let same : g'.idx - 1 ≡ g.idx - 1 = omega (arith, i, z) in
        ap (resume (drop (g.idx - 1) g.diff_objects)) (skip_first_zero g g' k t q)
        ∙ ap (λ xs. finish (skip_objects skill (take k xs) g')) (λ j. drop (sym same j) (sym d j))
        ∙ loop k g' valid (omega (arith, i)) (omega (arith, i, z, ap length d))
        ∙ sym (next_times-suc k g g' _ (next_first g cs c g' z e q))
    | inr t ↦
        ap (resume (drop (g.idx - 1) g.diff_objects)) (skip_first_later g k t)
        ∙ loop (suc k) g v (ground arith) h
  ]

  -- Where the map has palpable objects, `nth(n)` is `n + 1` calls of `next`, but at most as many
  -- as there are attributes left: past the end it gives the last attributes. It panics only where
  -- `next` does.
  pub nth-next_times :
      (g : CatchGradualDifficulty skill) (n : ℕ)
      → IsValid g
      → nth skill g n ≡ next_times (min n (len skill g - 1)) g
  unfolding nth
  nth-next_times g n v = skipped g (min n (len skill g - 1)) v (omega arith)

  -- Where the map has palpable objects, `next` either gives attributes and lowers `len` by one, or
  -- gives none because `len` is 0, and then changes nothing. It never panics.
  pub gradual_next-len :
      (g : CatchGradualDifficulty skill)
      → IsValid g
      → ((attrs : CatchDifficultyAttributes F64) × (g' : CatchGradualDifficulty skill) × (next skill
              g
            ≡ some (some attrs, g'))
          × IsValid g'
          × (len skill g ≡ len skill g' + 1))
        ⊎ ((next skill g ≡ some (none, g)) × (len skill g ≡ 0))
  unfolding len
  gradual_next-len g v = elim (Bool-cases (g.idx == 0)) [
    | inl t ↦
        let z : g.idx ≡ 0 = ground arith in
        let (c, cs, g', e, q, i, d, n) = first g v z in
        inl (
          eval g'.attrs g'.movement,
          g',
          next_first g cs c g' z e q,
          moved g v g' (omega (arith, v.counts, z)) i d n,
          omega (arith, i, z, ap length d),
        )
    | inr t ↦ elim (dec_lt g.idx (length g.count)) [
      | yes lt ↦
          let (curr, g', e, c, i, d, n) = later g v (ground arith) lt in
          inl (
            eval g'.attrs g'.movement,
            g',
            next_later g curr g' (ground arith) e c,
            moved g v g' lt i d n,
            omega (arith, i, ap length d, v.counts, lt),
          )
      | no ge ↦ inr (
        next_end g (ground arith)
            (get_elem?_past g.diff_objects (g.idx - 1) (omega (arith, v.counts))),
        omega (arith, v.counts),
      )
    ]
  ]
