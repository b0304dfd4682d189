-- ===== src/Util/Strains/Refine.antt =====
-- `StrainsVec` against the plain list of floats that it stands for.
use mathlib.Core.List.{append_assoc, append-nil}
use old_ccv3_pp.Base.{
  ℕ, zero, suc, ◌+◌, ◌%◌, ◌≤◌, ◌<◌, true, false, List, [], ◌∷◌, ltb, leb, ◌++◌, if◌then◌else◌,
  u64_mod, ◌≡◌, refl, sym, ap, ◌∙◌, arith, length, length-append, replicate, length-replicate,
  Bool-cases, inl, inr, leb→le,
}
use old_ccv3_pp.Base.Sort.{All}
use old_ccv3_pp.Util.Strains.Entry.{StrainsEntry, sign_bit}
use old_ccv3_pp.Util.Strains.{StrainsVec, with_capacity, push, push_zero}

-- The floats of an entry.
abbrev pub expand_entry : StrainsEntry → List ℕ
expand_entry e = if leb sign_bit e then replicate (e % sign_bit) 0 else e ∷ []

abbrev pub expand : List StrainsEntry → List ℕ
expand [] = []
expand (e ∷ es) = expand_entry e ++ expand es

-- A word that counts at least one zero, or a positive float.
abbrev pub IsEntry : StrainsEntry → Type 0
IsEntry e = (e < u64_mod) × (0 < e % sign_bit)

-- No two neighbours count zeros.
abbrev pub IsCompact : List StrainsEntry → Type 0
IsCompact [] = Unit
IsCompact (e ∷ []) = Unit
IsCompact (e ∷ f ∷ es) = (sign_bit ≤ e → f < sign_bit) × IsCompact (f ∷ es)

pub record IsWellFormed (s : StrainsVec) : Type 0 where
  pub entries : All IsEntry s.inner
  pub compact : IsCompact s.inner
  pub counted : length (expand s.inner) ≡ s.len

pub with_capacity-IsWellFormed : IsWellFormed with_capacity
unfolding with_capacity
with_capacity-IsWellFormed = record { entries = tt; compact = tt; counted = refl }

pub expand-append : (es fs : List StrainsEntry) → expand (es ++ fs) ≡ expand es ++ expand fs
expand-append [] fs = refl
expand-append (e ∷ es) fs =
    rw (expand-append es fs) (sym (append_assoc (expand_entry e) (expand es) (expand fs)))

expand_value : (v : ℕ) → v < sign_bit → expand_entry v ≡ v ∷ []
expand_value v h = ground arith

replicate-snoc : (n : ℕ) → replicate {A = ℕ} (suc n) 0 ≡ replicate n 0 ++ (0 ∷ [])
replicate-snoc zero = refl
replicate-snoc (suc n) = ap (λ r. 0 ∷ r) (replicate-snoc n)

-- One more zero in the counter.
expand_incr :
    (e : StrainsEntry)
    → leb sign_bit e ≡ true
    → e < u64_mod
    → e % sign_bit + 1 < sign_bit
    → expand_entry ((e + 1) % u64_mod) ≡ expand_entry e ++ (0 ∷ [])
expand_incr e z w h =
    let le : sign_bit ≤ e = leb→le sign_bit e z in
    let z' : leb sign_bit ((e + 1) % u64_mod) ≡ true = ground arith in
    let c : (e + 1) % u64_mod % sign_bit ≡ suc (e % sign_bit) = omega arith in
    rw (z, z', c) (replicate-snoc (e % sign_bit))

length-expand_entry :
    (e : StrainsEntry) → leb sign_bit e ≡ true → length (expand_entry e) ≡ e % sign_bit
length-expand_entry e z = rw z (length-replicate (e % sign_bit) 0)

push_zero_counts :
    (e : StrainsEntry) → leb sign_bit e ≡ true → push_zero (e ∷ []) ≡ (e + 1) % u64_mod ∷ []
unfolding push_zero
push_zero_counts e z = rw z refl

push_zero_appends :
    (e : StrainsEntry) → leb sign_bit e ≡ false → push_zero (e ∷ []) ≡ e ∷ (sign_bit + 1) ∷ []
unfolding push_zero
push_zero_appends e z = rw z refl

expand-push_zero :
    (es : List StrainsEntry)
    → All IsEntry es
    → length (expand es) + 1 < sign_bit
    → expand (push_zero es) ≡ expand es ++ (0 ∷ [])
unfolding push_zero
expand-push_zero [] v h = refl
expand-push_zero (e ∷ []) v h = elim (Bool-cases (leb sign_bit e)) [
  | inl z ↦
      let k : e % sign_bit + 1 < sign_bit =
        omega (arith, length-append (expand_entry e) [], length-expand_entry e z) in
      ap expand (push_zero_counts e z)
      ∙ append-nil _
      ∙ expand_incr e z v.0.0 k
      ∙ ap (λ r. r ++ (0 ∷ [])) (sym (append-nil (expand_entry e)))
  | inr z ↦
      ap expand (push_zero_appends e z)
      ∙ ap (λ r. r ++ (0 ∷ [])) (sym (append-nil (expand_entry e)))
]
expand-push_zero (e ∷ f ∷ es) v h =
    rw
      (expand-push_zero (f ∷ es) v.1
        (omega (arith, length-append (expand_entry e) (expand (f ∷ es)))))
      (sym (append_assoc (expand_entry e) (expand (f ∷ es)) (0 ∷ [])))

-- If the vector is well-formed, the float is not negative and fewer than 2^63 - 1 floats are
-- stored, a push appends the float to the list that the vector stands for, zero or not.
pub push_refines :
    (s : StrainsVec) (v : ℕ)
    → IsWellFormed s
    → v < sign_bit
    → s.len + 1 < sign_bit
    → expand (push s v).inner ≡ expand s.inner ++ (v ∷ [])
unfolding push
push_refines s zero ok h b = expand-push_zero s.inner ok.entries (omega (arith, ok.counted))
push_refines s (suc v) ok h b =
    let positive : ltb 0 (suc v) ≡ true = ground arith in
    rw positive (
      expand-append s.inner (suc v ∷ [])
      ∙ ap (λ r. expand s.inner ++ r) (ap (λ r. r ++ []) (expand_value (suc v) h)))

All-append :
    (es : List StrainsEntry) (f : StrainsEntry)
    → All IsEntry es
    → IsEntry f
    → All IsEntry (es ++ f ∷ [])
All-append [] f h k = (k, tt)
All-append (e ∷ es) f h k = (h.0, All-append es f h.1 k)

IsCompact-append :
    (es : List StrainsEntry) (v : ℕ) → IsCompact es → v < sign_bit → IsCompact (es ++ v ∷ [])
IsCompact-append [] v c h = tt
IsCompact-append (e ∷ []) v c h = ((λ _. h), tt)
IsCompact-append (e ∷ f ∷ es) v c h = (c.0, IsCompact-append (f ∷ es) v c.1 h)

push_zero-entries :
    (es : List StrainsEntry)
    → All IsEntry es
    → length (expand es) + 1 < sign_bit
    → All IsEntry (push_zero es)
unfolding push_zero
push_zero-entries [] v h = ((omega arith, omega arith), tt)
push_zero-entries (e ∷ []) v h = elim (Bool-cases (leb sign_bit e)) [
  | inl z ↦
      let le : sign_bit ≤ e = leb→le sign_bit e z in
      let k : e % sign_bit + 1 < sign_bit =
        omega (arith, length-append (expand_entry e) [], length-expand_entry e z) in
      rw z ((omega arith, omega arith), tt)
  | inr z ↦ rw z (v.0, ((omega arith, omega arith), tt))
]
push_zero-entries (e ∷ f ∷ es) v h = (
  v.0,
  push_zero-entries (f ∷ es) v.1 (omega (arith, length-append (expand_entry e) (expand (f ∷ es)))),
)

-- The head that a zero leaves: whether it counts zeros does not change, unless it is new.
push_zero-IsCompact :
    (es : List StrainsEntry)
    → All IsEntry es
    → IsCompact es
    → length (expand es) + 1 < sign_bit
    → IsCompact (push_zero es)
unfolding push_zero
push_zero-IsCompact [] v c h = tt
push_zero-IsCompact (e ∷ []) v c h = elim (Bool-cases (leb sign_bit e)) [
  | inl z ↦ rw z tt
  | inr z ↦ rw z ((λ le. absurd (ground arith)), tt)
]
push_zero-IsCompact (e ∷ f ∷ []) v c h = elim (Bool-cases (leb sign_bit f)) [
  | inl z ↦ rw z ((λ le. absurd (omega (arith, c.0 le, leb→le sign_bit f z))), tt)
  | inr z ↦ rw z (c.0, ((λ le. absurd (ground arith)), tt))
]
push_zero-IsCompact (e ∷ f ∷ g ∷ es) v c h = (
  c.0,
  push_zero-IsCompact (f ∷ g ∷ es) v.1 c.1
      (omega (arith, length-append (expand_entry e) (expand (f ∷ g ∷ es)))),
)

-- If fewer than 2^63 - 1 floats are stored, a push of a float that is not negative keeps the
-- invariant: every entry is a positive float or counts at least one zero, no two neighbours count
-- zeros, and `len` is the number of floats.
pub push-IsWellFormed :
    (s : StrainsVec) (v : ℕ)
    → IsWellFormed s
    → v < sign_bit
    → s.len + 1 < sign_bit
    → IsWellFormed (push s v)
push-IsWellFormed s v ok h b = record {
  entries = entries v h;
  compact = compact v h;
  counted =
      ap length (push_refines s v ok h b)
      ∙ omega (arith, length-append (expand s.inner) (v ∷ []), ok.counted, len_lem);
}
  where
    len_lem : (push s v).len ≡ s.len + 1
    len_lem = unfold push in omega arith

    room : length (expand s.inner) + 1 < sign_bit
    room = omega (arith, ok.counted)

    entries : (v : ℕ) → v < sign_bit → All IsEntry (push s v).inner
    entries zero h = unfold push in push_zero-entries s.inner ok.entries room
    entries (suc v) h =
        let positive : ltb 0 (suc v) ≡ true = ground arith in
        unfold push in
        rw positive (All-append s.inner (suc v) ok.entries (omega arith, omega arith))

    compact : (v : ℕ) → v < sign_bit → IsCompact (push s v).inner
    compact zero h = unfold push in push_zero-IsCompact s.inner ok.entries ok.compact room
    compact (suc v) h =
        let positive : ltb 0 (suc v) ≡ true = ground arith in
        unfold push in rw positive (IsCompact-append s.inner (suc v) ok.compact h)
