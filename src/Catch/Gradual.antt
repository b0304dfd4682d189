-- ===== src/Catch/Gradual.antt =====
-- src/catch/difficulty/gradual.rs: the attributes of a map after each of its palpable objects.
pub mod Nth
use old_ccv3_pp.Base.{
  ℕ, zero, suc, ◌+◌, ◌-◌, Bool, true, false, Option, none, some, List, [], ◌∷◌, ◌==◌, ltb,
  if◌then◌else◌, min, length, get_elem?, take, drop,
}
use old_ccv3_pp.Catch.Performance.{CatchDifficultyAttributes}
use old_ccv3_pp.Catch.Counts.{GradualObjectCount, add_object_count}

-- The skill and what stars it gives: `process`, and `eval` of `as_difficulty_value`.
pub record Skill (F64 : Type 0) : Type 1 where
  pub CatchDifficultyObject : Type 0
  pub Movement : Type 0
  pub process : List CatchDifficultyObject → Movement → CatchDifficultyObject → Movement
  pub eval : CatchDifficultyAttributes F64 → Movement → CatchDifficultyAttributes F64

module _ {F64 : Type 0} (skill : Skill F64) where
  open skill use {CatchDifficultyObject, Movement, process, eval}

  pub record CatchGradualDifficulty : Type 0 where
    pub idx : ℕ
    pub attrs : CatchDifficultyAttributes F64
    pub count : List GradualObjectCount
    pub diff_objects : List CatchDifficultyObject
    pub movement : Movement

  -- A call: `none` if it panics, else what it returns and the calculator after it.
  abbrev pub Call : Type 0
  Call = Option (Option (CatchDifficultyAttributes F64) × CatchGradualDifficulty)

  -- `self.attrs.add_object_count(self.count[self.idx]); self.idx += 1`
  unfoldable pub count_object : CatchGradualDifficulty → Option CatchGradualDifficulty
  unfolding add_object_count
  count_object g = elim (get_elem? g.count g.idx) [
    | none ↦ none
    | some c ↦ some (record g { attrs = add_object_count g.attrs c; idx = g.idx + 1 })
  ]

  -- The end of `next`.
  unfoldable pub emit : Option CatchGradualDifficulty → Call
  emit none = none
  emit (some g) = some (some (eval g.attrs g.movement), g)

  unfoldable pub process_object :
      CatchGradualDifficulty → CatchDifficultyObject → CatchGradualDifficulty
  process_object g curr = record g { movement = process g.diff_objects g.movement curr }

  unfoldable pub next : CatchGradualDifficulty → Call
  unfolding count_object emit process_object
  next g =
      if ltb 0 g.idx
      then elim (get_elem? g.diff_objects (g.idx - 1)) [
        | none ↦ some (none, g)
        | some curr ↦ emit (count_object (process_object g curr))
      ]
      else elim g.count [ [] ↦ some (none, g) | c ∷ cs ↦ emit (count_object g) ]

  unfoldable pub len : CatchGradualDifficulty → ℕ
  len g = length g.diff_objects + 1 - g.idx

  -- The loop of `nth`
  unfoldable pub skip_objects :
      List CatchDifficultyObject → CatchGradualDifficulty → Option CatchGradualDifficulty
  unfolding count_object process_object
  skip_objects [] g = some g
  skip_objects (curr ∷ rest) g = elim (count_object (process_object g curr)) [
    | none ↦ none
    | some g' ↦ skip_objects rest g'
  ]

  -- The first palpable object has no difficulty object.
  unfoldable pub skip_first : CatchGradualDifficulty → ℕ → Option (CatchGradualDifficulty × ℕ)
  unfolding count_object
  skip_first g zero = some (g, zero)
  skip_first g (suc n) =
      if g.idx == 0
      then elim (count_object g) [ none ↦ none | some g' ↦ some (g', n) ]
      else some (g, suc n)

  unfoldable pub nth : CatchGradualDifficulty → ℕ → Call
  unfolding next len skip_objects skip_first
  nth g n =
      let skip_iter = drop (g.idx - 1) g.diff_objects in
      elim (skip_first g (min n (len g - 1))) [
        | none ↦ none
        | some (g', left) ↦ elim (skip_objects (take left skip_iter) g') [
          | none ↦ none
          | some g'' ↦ next g''
        ]
      ]
