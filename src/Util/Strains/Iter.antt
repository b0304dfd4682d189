-- ===== src/Util/Strains/Iter.antt =====
-- `StrainsIter` against the list of floats that are left.
use old_ccv3_pp.Base.{
  ℕ, zero, suc, ◌+◌, ◌-◌, ◌%◌, ◌≤◌, ◌<◌, true, false, Option, none, some, List, [], ◌∷◌, ltb, leb,
  ◌++◌, u64_mod, ◌≡◌, refl, sym, ap, ◌∙◌, arith, length, length-append, Bool-cases, inl, inr,
  leb→le, ltb→lt,
}
use old_ccv3_pp.Base.Sort.{All, All-weaken}
use old_ccv3_pp.Util.Queue.{slice_next}
use old_ccv3_pp.Util.Strains.Entry.{StrainsEntry, sign_bit}
use old_ccv3_pp.Util.Strains.{
  StrainsVec, StrainsIter, iter, entry_next, next, next_from, next_round, collect, into_vec,
}
use old_ccv3_pp.Util.Strains.Refine.{expand_entry, expand, IsEntry, IsWellFormed}

-- The floats that an iterator has left.
abbrev pub entries_left : Option StrainsEntry → List StrainsEntry → List StrainsEntry
entries_left none es = []
entries_left (some e) es = e ∷ es

pub remaining : StrainsIter → List ℕ
remaining it = expand (entries_left it.curr it.inner)

abbrev IsWord : StrainsEntry → Type 0
IsWord e = e < u64_mod

remaining-entry_next :
    (es : List StrainsEntry) (n : ℕ)
    → let (curr, rest) = entry_next es in
      remaining (record { inner = rest; curr = curr; len = n }) ≡ expand es
unfolding remaining
remaining-entry_next [] n = refl
remaining-entry_next (e ∷ es) n = refl

-- A zero is taken from the counter.
expand_decr :
    (e : StrainsEntry)
    → leb sign_bit e ≡ true
    → e < u64_mod
    → 0 < e % sign_bit
    → expand_entry e ≡ 0 ∷ expand_entry ((e + u64_mod - 1) % u64_mod)
expand_decr e z w h =
    let le : sign_bit ≤ e = leb→le sign_bit e z in
    let z' : leb sign_bit ((e + u64_mod - 1) % u64_mod) ≡ true = ground arith in
    let c : e % sign_bit ≡ suc ((e + u64_mod - 1) % u64_mod % sign_bit) = omega arith in
    rw (z, z', c) refl

module _ (e : StrainsEntry) (es : List StrainsEntry) (n : ℕ) (later : Option ℕ × StrainsIter) where
  next_round_value :
      leb sign_bit e ≡ false
      → let (curr, rest) = entry_next es in
        next_round e es n later
        ≡ (some e, record { inner = rest; curr = curr; len = (n + u64_mod - 1) % u64_mod })
  unfolding next_round
  next_round_value z = rw z refl

  next_round_zero :
      leb sign_bit e ≡ true
      → ltb 0 (e % sign_bit) ≡ true
      → next_round e es n later ≡ (
        some 0,
        record {
          inner = es;
          curr = some ((e + u64_mod - 1) % u64_mod);
          len = (n + u64_mod - 1) % u64_mod;
        },
      )
  unfolding next_round
  next_round_zero z p = rw (z, p) refl

  next_round-later :
      leb sign_bit e ≡ true → ltb 0 (e % sign_bit) ≡ false → next_round e es n later ≡ later
  unfolding next_round
  next_round-later z p = rw (z, p) refl

  -- One round of the loop: what the later rounds give is used only at an entry with nothing left.
  next_round_lem :
      e < u64_mod
      → ◌≡◌ {A = Option ℕ × List ℕ} (later.0, remaining later.1) (slice_next (expand es))
      → let (o, it) = next_round e es n later in (o, remaining it) ≡ slice_next (expand (e ∷ es))
  next_round_lem w h = elim (Bool-cases (leb sign_bit e)) [
    | inr z ↦
        rw (next_round_value z)
          (rw (remaining-entry_next es ((n + u64_mod - 1) % u64_mod)) (rw z refl))
    | inl z ↦ elim (Bool-cases (ltb 0 (e % sign_bit))) [
      | inl p ↦
          rw (next_round_zero z p, expand_decr e z w (ltb→lt _ _ p)) (unfold remaining in refl)
      | inr p ↦
          let none_left : e % sign_bit ≡ 0 = ground arith in
          rw (next_round-later z p) (rw (z, none_left) h)
    ]
  ]

next_from_lem :
    (e : StrainsEntry) (es : List StrainsEntry) (n : ℕ)
    → All IsWord (e ∷ es)
    → let (o, it) = next_from e es n in (o, remaining it) ≡ slice_next (expand (e ∷ es))
unfolding next_from
next_from_lem e [] n w =
    next_round_lem e [] n (none, record { inner = []; curr = none; len = n }) w.0
      (unfold remaining in refl)
next_from_lem e (f ∷ es) n w =
    next_round_lem e (f ∷ es) n (next_from f es n) w.0 (next_from_lem f es n w.1)

-- The words of an iterator, and its count.
pub record IterIsValid (it : StrainsIter) : Type 0 where
  pub words : All IsWord (entries_left it.curr it.inner)
  pub counted : length (remaining it) ≡ it.len
  pub word : it.len < u64_mod

entry_next-words :
    (es : List StrainsEntry)
    → All IsWord es
    → All IsWord (entries_left (entry_next es).0 (entry_next es).1)
entry_next-words [] h = tt
entry_next-words (e ∷ es) h = h

abbrev Words : StrainsIter → Type 0
Words it = All IsWord (entries_left it.curr it.inner)

next_round-Words :
    (e : StrainsEntry) (es : List StrainsEntry) (n : ℕ) (later : Option ℕ × StrainsIter)
    → All IsWord (e ∷ es)
    → Words later.1
    → Words (next_round e es n later).1
next_round-Words e es n later h k = elim (Bool-cases (leb sign_bit e)) [
  | inr z ↦ rw (next_round_value e es n later z) (entry_next-words es h.1)
  | inl z ↦ elim (Bool-cases (ltb 0 (e % sign_bit))) [
    | inl p ↦ rw (next_round_zero e es n later z p) (omega arith, h.1)
    | inr p ↦ rw (next_round-later e es n later z p) k
  ]
]

next_from-Words :
    (e : StrainsEntry) (es : List StrainsEntry) (n : ℕ)
    → All IsWord (e ∷ es)
    → Words (next_from e es n).1
unfolding next_from
next_from-Words e [] n h =
    next_round-Words e [] n (none, record { inner = []; curr = none; len = n }) h tt
next_from-Words e (f ∷ es) n h =
    next_round-Words e (f ∷ es) n (next_from f es n) h (next_from-Words f es n h.1)

next-Words_at :
    (c : Option StrainsEntry) (es : List StrainsEntry) (n : ℕ)
    → All IsWord (entries_left c es)
    → Words (next (record { inner = es; curr = c; len = n })).1
unfolding next
next-Words_at none es n h = tt
next-Words_at (some e) es n h = next_from-Words e es n h

next_at :
    (c : Option StrainsEntry) (es : List StrainsEntry) (n : ℕ)
    → All IsWord (entries_left c es)
    → let (o, it) = next (record { inner = es; curr = c; len = n }) in
      (o, remaining it) ≡ slice_next (expand (entries_left c es))
unfolding next
next_at none es n h = unfold remaining in refl
next_at (some e) es n h = next_from_lem e es n h

-- `next` takes the first of the floats that are left.
pub next_refines :
    (it : StrainsIter)
    → IterIsValid it
    → let (o, it') = next it in (o, remaining it') ≡ slice_next (remaining it)
unfolding remaining
next_refines it v = next_at it.curr it.inner it.len v.words

collect-none : (fuel : ℕ) (it : StrainsIter) → (next it).0 ≡ none → collect (suc fuel) it ≡ []
unfolding collect
collect-none fuel it e = rw (e, collect) refl

collect-some :
    (fuel : ℕ) (it : StrainsIter) (v : ℕ)
    → (next it).0 ≡ some v
    → collect (suc fuel) it ≡ v ∷ collect fuel (next it).1
unfolding collect
collect-some fuel it v e = rw (e, collect) refl

collect-Words :
    (fuel : ℕ) (it : StrainsIter)
    → Words it
    → length (remaining it) < fuel
    → collect fuel it ≡ remaining it
collect-Words zero it h b = absurd (omega arith)
collect-Words (suc fuel) it h b =
    go (remaining it) refl
      (collect-Words fuel (next it).1 (next-Words_at it.curr it.inner it.len h))
  where
    step :
        ◌≡◌ {A = Option ℕ × List ℕ} ((next it).0, remaining (next it).1) (slice_next (remaining it))
    step = unfold remaining in next_at it.curr it.inner it.len h

    go :
        (r : List ℕ)
        → remaining it ≡ r
        → (length (remaining (next it).1) < fuel → collect fuel (next it).1 ≡ remaining (next it).1)
        → collect (suc fuel) it ≡ remaining it
    go [] e ih =
        collect-none fuel it (ap (λ (p : Option ℕ × List ℕ). p.0) (step ∙ ap slice_next e)) ∙ sym e
    go (v ∷ r) e ih =
        let st = step ∙ ap slice_next e in
        let e1 : (next it).0 ≡ some v = ap (λ (p : Option ℕ × List ℕ). p.0) st in
        let e2 : remaining (next it).1 ≡ r = ap (λ (p : Option ℕ × List ℕ). p.1) st in
        let e3 : length (remaining it) ≡ suc (length r) = ap length e in
        let e4 : length (remaining (next it).1) ≡ length r = ap length e2 in
        collect-some fuel it v e1 ∙ ap (λ t. v ∷ t) (ih (omega arith) ∙ e2) ∙ sym e

words_of_entries : (es : List StrainsEntry) → All IsEntry es → All IsWord es
words_of_entries es h = All-weaken es (λ a p. p.0) h

remaining-iter : (s : StrainsVec) → remaining (iter s) ≡ expand s.inner
unfolding iter
remaining-iter s = remaining-entry_next s.inner s.len

-- Of a well-formed vector, `into_vec` gives back every float, zeros included, in order.
pub into_vec_lem : (s : StrainsVec) → IsWellFormed s → into_vec s ≡ expand s.inner
unfolding into_vec
into_vec_lem s v =
    collect-Words (suc s.len) (iter s)
      (unfold iter in entry_next-words s.inner (words_of_entries s.inner v.entries))
      (omega (arith, ap length (remaining-iter s), v.counted))
    ∙ remaining-iter s

next_round-len :
    (e : StrainsEntry) (es : List StrainsEntry) (n : ℕ) (later : Option ℕ × StrainsIter)
    → e < u64_mod
    → n < u64_mod
    → length (expand (e ∷ es)) ≡ n
    → (length (expand es) ≡ n → length (remaining later.1) ≡ later.1.len)
    → length (remaining (next_round e es n later).1) ≡ (next_round e es n later).1.len
next_round-len e es n later w b h k = elim (Bool-cases (leb sign_bit e)) [
  | inr z ↦
      let one : length (expand_entry e) ≡ 1 = rw z refl in
      rw (next_round_value e es n later z) (
        ap length (remaining-entry_next es ((n + u64_mod - 1) % u64_mod))
        ∙ omega (arith, length-append (expand_entry e) (expand es)))
  | inl z ↦ elim (Bool-cases (ltb 0 (e % sign_bit))) [
    | inl p ↦
        let e1 = ap (λ r. length (r ++ expand es)) (expand_decr e z w (ltb→lt _ _ p)) in
        rw (next_round_zero e es n later z p) (unfold remaining in omega arith)
    | inr p ↦
        let c : e % sign_bit ≡ 0 = ground arith in
        let none_left : expand_entry e ≡ [] = rw (z, c) refl in
        rw (next_round-later e es n later z p)
          (k (ap (λ r. length (r ++ expand es)) (sym none_left) ∙ h))
  ]
]

next_from-len :
    (e : StrainsEntry) (es : List StrainsEntry) (n : ℕ)
    → All IsWord (e ∷ es)
    → n < u64_mod
    → length (expand (e ∷ es)) ≡ n
    → length (remaining (next_from e es n).1) ≡ (next_from e es n).1.len
unfolding next_from
next_from-len e [] n h b c =
    next_round-len e [] n (none, record { inner = []; curr = none; len = n }) h.0 b c
      (unfold remaining in λ x. x)
next_from-len e (f ∷ es) n h b c =
    next_round-len e (f ∷ es) n (next_from f es n) h.0 b c (next_from-len f es n h.1 b)

next-len_at :
    (c : Option StrainsEntry) (es : List StrainsEntry) (n : ℕ)
    → All IsWord (entries_left c es)
    → n < u64_mod
    → length (expand (entries_left c es)) ≡ n
    → let it = (next (record { inner = es; curr = c; len = n })).1 in length (remaining it) ≡ it.len
unfolding next
next-len_at none es n h b c = unfold remaining in c
next-len_at (some e) es n h b c = next_from-len e es n h b c

-- After a `next` of a valid strain iterator, `len` is the number of floats that are left.
pub next-len :
    (it : StrainsIter) → IterIsValid it → length (remaining (next it).1) ≡ (next it).1.len
next-len it v = next-len_at it.curr it.inner it.len v.words v.word (unfold remaining in v.counted)

pub iter-IterIsValid : (s : StrainsVec) → IsWellFormed s → s.len < u64_mod → IterIsValid (iter s)
unfolding iter
iter-IterIsValid s v b = record {
  words = entry_next-words s.inner (words_of_entries s.inner v.entries);
  counted = ap length (remaining-iter s) ∙ v.counted;
  word = b;
}
