-- ===== src/Util/Sort/Swap.antt =====
-- src/util/sort/mod.rs, `swap`: two elements trade places, and no other moves.
use mathlib.Core.List.Perm
use mathlib.Core.List.{Perm}
use native.Mathlib.Decide.{dec_le}
use mathlib.Core.Option.{some-injective}
use mathlib.Core.Path.{subst, ap}
use mathlib.Core.Logic.{◌≢◌}
use old_ccv3_pp.Base.{
  ℕ, zero, suc, ◌+◌, ◌<◌, ◌≤◌, Option, some, List, [], ◌∷◌, ◌==◌, length, get_elem?, set,
  length-set, get_elem?-set_self, get_elem?-set_ne, ◌≡◌, refl, sym, ◌∙◌, ◌⊎◌, inl, inr, arith,
  Bool-cases, ℕ_discrete,
}
use old_ccv3_pp.Util.Sort.{swap_keys, swap}

module _ {A : Type 0} where
  -- Putting `b` in for `a` puts `a` out.
  set-perm :
      (keys : List A) (i : ℕ) (a b : A)
      → get_elem? keys i ≡ some a
      → Perm (b ∷ keys) (a ∷ set keys i b)
  set-perm [] i a b e = ground (arith, e)
  set-perm (x ∷ keys) zero a b e =
      subst (λ c. Perm (b ∷ x ∷ keys) (c ∷ b ∷ keys)) (some-injective x a e) (Perm.swap x b keys)
  set-perm (x ∷ keys) (suc i) a b e =
      Perm.trans (Perm.swap x b keys)
        (Perm.trans (Perm.cons x (set-perm keys i a b e)) (Perm.swap a x (set keys i b)))

  pub get_elem?-some :
      (keys : List A) (i : ℕ) → i < length keys → (a : A) × (get_elem? keys i ≡ some a)
  get_elem?-some [] i h = absurd (omega (arith, h))
  get_elem?-some (x ∷ keys) zero h = (x, refl)
  get_elem?-some (x ∷ keys) (suc i) h = get_elem?-some keys i (omega (arith, h))

  get_elem?-in : (keys : List A) (i : ℕ) (a : A) → get_elem? keys i ≡ some a → i < length keys
  get_elem?-in [] i a e = ground (arith, e)
  get_elem?-in (x ∷ keys) zero a e = omega arith
  get_elem?-in (x ∷ keys) (suc i) a e = omega (arith, get_elem?-in keys i a e)

  -- After the first write of a swap the other place still holds its element.
  get_elem?-set_other :
      (keys : List A) (i j : ℕ) (b : A)
      → i < length keys
      → get_elem? keys j ≡ some b
      → get_elem? (set keys i b) j ≡ some b
  get_elem?-set_other keys i j b h e = elim (ℕ_discrete i j) [
    | yes eq ↦ rw (sym eq) (get_elem?-set_self keys i b h)
    | no ne ↦ get_elem?-set_ne keys b ne ∙ e
  ]

  -- The result is the elements of `keys` in some order, and outside of `lo..lo + n` it is `keys`.
  pub record Kept (keys : List A) (lo n : ℕ) (keys' : List A) : Type 0 where
    pub perm : Perm keys' keys
    pub len : length keys' ≡ length keys
    pub inside :
        (i : ℕ)
        → lo ≤ i
        → i < lo + n
        → (j : ℕ) × (lo ≤ j) × (j < lo + n) × (get_elem? keys' i ≡ get_elem? keys j)
    pub outside : (i : ℕ) → (i < lo) ⊎ (lo + n ≤ i) → get_elem? keys' i ≡ get_elem? keys i

  pub Kept-refl : (keys : List A) (lo n : ℕ) → Kept keys lo n keys
  Kept-refl keys lo n = record {
    perm = Perm.refl keys;
    len = refl;
    inside = λ i l u. (i, l, u, refl);
    outside = λ i h. refl;
  }

  pub Kept-trans :
      {keys keys' keys'' : List A} {lo n : ℕ}
      → Kept keys lo n keys'
      → Kept keys' lo n keys''
      → Kept keys lo n keys''
  Kept-trans h k = record {
    perm = Perm.trans k.perm h.perm;
    len = k.len ∙ h.len;
    inside = λ i l u.
        let (j, lj, uj, e) = k.inside i l u in
        let (j', lj', uj', e') = h.inside j lj uj in (j', lj', uj', e ∙ e');
    outside = λ i o. k.outside i o ∙ h.outside i o;
  }

  pub Kept-widen :
      {keys keys' : List A} {lo n m : ℕ} → n ≤ m → Kept keys lo n keys' → Kept keys lo m keys'
  Kept-widen {keys} {keys'} {lo} {n} {m} le h = record {
    perm = h.perm;
    len = h.len;
    inside = λ i l u. elim (dec_le (lo + n) i) [
      | yes out ↦ (i, l, u, h.outside i (inr out))
      | no within ↦ let (j, lj, uj, e) = h.inside i l (omega arith) in (j, lj, omega arith, e)
    ];
    outside = λ i o. h.outside i (elim o [ inl l ↦ inl l | inr r ↦ inr (omega arith) ]);
  }

  -- The operation does not panic, and keeps the elements.
  abbrev pub Keeps : List A → ℕ → ℕ → Option (List A) → Type 0
  Keeps keys lo n result = (keys' : List A) × (result ≡ some keys') × Kept keys lo n keys'

  -- Where the element at `k` comes from when `i` and `j` trade places
  abbrev pub Traded : List A → List A → ℕ → ℕ → ℕ → Type 0
  Traded keys keys' i j k =
      ((k ≡ j) × (get_elem? keys' k ≡ get_elem? keys i))
      ⊎ ((k ≡ i) × (k ≢ j) × (get_elem? keys' k ≡ get_elem? keys j))
      ⊎ ((k ≢ i) × (k ≢ j) × (get_elem? keys' k ≡ get_elem? keys k))

  Traded-set :
      (keys : List A) (i j k : ℕ) (a b : A)
      → get_elem? keys i ≡ some a
      → get_elem? keys j ≡ some b
      → Traded keys (set (set keys i b) j a) i j k
  Traded-set keys i j k a b ea eb = elim (ℕ_discrete j k) [
    | yes e ↦
        let here : get_elem? (set (set keys i b) j a) j ≡ some a =
          get_elem?-set_self (set keys i b) j a
            (omega (arith, length-set keys i b, get_elem?-in keys j b eb)) in
        inl (sym e, ap (λ l. get_elem? (set (set keys i b) j a) l) (sym e) ∙ here ∙ sym ea)
    | no ne ↦
        let past : get_elem? (set (set keys i b) j a) k ≡ get_elem? (set keys i b) k =
          get_elem?-set_ne (set keys i b) a ne in
        elim (ℕ_discrete i k) [
          | yes e ↦
              let here : get_elem? (set keys i b) i ≡ some b =
                get_elem?-set_self keys i b (get_elem?-in keys i a ea) in
              inr (
                inl (
                  sym e,
                  λ f. ne (sym f),
                  past ∙ ap (λ l. get_elem? (set keys i b) l) (sym e) ∙ here ∙ sym eb,
                ))
          | no ne' ↦
              inr (inr (λ f. ne' (sym f), λ f. ne (sym f), past ∙ get_elem?-set_ne keys b ne'))
        ]
  ]

  pub swap_keys-Traded :
      (keys keys' : List A) (i j k : ℕ)
      → i < length keys
      → j < length keys
      → swap_keys keys i j ≡ some keys'
      → Traded keys keys' i j k
  unfolding swap_keys
  swap_keys-Traded keys keys' i j k hi hj e =
      let (a, ea) = get_elem?-some keys i hi in
      let (b, eb) = get_elem?-some keys j hj in
      let known : swap_keys keys i j ≡ some (set (set keys i b) j a) =
        rw (ea, eb, swap_keys) refl in
      subst (λ keys''. Traded keys keys'' i j k)
        (some-injective (set (set keys i b) j a) keys' (sym known ∙ e))
        (Traded-set keys i j k a b ea eb)

  pub swap_keys-Keeps :
      (keys : List A) (lo n i j : ℕ)
      → lo + n ≤ length keys
      → lo ≤ i
      → i < lo + n
      → lo ≤ j
      → j < lo + n
      → Keeps keys lo n (swap_keys keys i j)
  unfolding swap_keys
  swap_keys-Keeps keys lo n i j l li ui lj uj =
      let (a, ea) = get_elem?-some keys i (omega arith) in
      let (b, eb) = get_elem?-some keys j (omega arith) in
      let other : get_elem? (set keys i b) j ≡ some b =
        get_elem?-set_other keys i j b (omega arith) eb in
      (
        set (set keys i b) j a,
        rw (ea, eb, swap_keys) refl,
        record {
          perm = Perm.cons_inv {a = b} (
              Perm.trans (Perm.symm (set-perm (set keys i b) j b a other))
                (Perm.symm (set-perm keys i a b ea)));
          len = length-set (set keys i b) j a ∙ length-set keys i b;
          inside = λ k l u. elim (Traded-set keys i j k a b ea eb) [
            | inl (e, t) ↦ (i, li, ui, t)
            | inr (inl (e, ne, t)) ↦ (j, lj, uj, t)
            | inr (inr (ne, ne', t)) ↦ (k, l, u, t)
          ];
          outside = λ k o.
              let nj : j ≢ k = elim o [ inl h ↦ λ e. omega arith | inr h ↦ λ e. omega arith ] in
              let ni : i ≢ k = elim o [ inl h ↦ λ e. omega arith | inr h ↦ λ e. omega arith ] in
              get_elem?-set_ne (set keys i b) a nj ∙ get_elem?-set_ne keys b ni;
        },
      )

  pub swap-Keeps :
      (keys : List A) (lo n i j : ℕ)
      → lo + n ≤ length keys
      → lo ≤ i
      → i < lo + n
      → lo ≤ j
      → j < lo + n
      → Keeps keys lo n (swap keys i j)
  unfolding swap
  swap-Keeps keys lo n i j l li ui lj uj = elim (Bool-cases (i == j)) [
    | inl e ↦ (keys, rw (e, swap) refl, Kept-refl keys lo n)
    | inr e ↦
        let (keys', e', k) = swap_keys-Keeps keys lo n i j l li ui lj uj in
        (keys', rw (e, swap) e', k)
  ]
