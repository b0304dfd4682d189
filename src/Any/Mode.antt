-- ===== src/Any/Mode.antt =====
-- `GameMode` (re-exported by src/model/mode.rs), its conversion errors and the priority of hit results.
use mathlib.Core.Path.{subst}
use old_ccv3_pp.Base.{ℕ, ◌≤◌, min, Option, none, some, arith, Bool, true, false, ◌≡◌, ap, sym, ◌∙◌}

pub data GameMode : Type 0 where
  osu taiko catch mania : GameMode

pub data ConvertError : Type 0 where
  already_converted : ConvertError
  convert : GameMode → GameMode → ConvertError

-- `Result<T, ConvertError>`
pub data Result {ℓ} (A : Type ℓ) : Type ℓ where
  ok : A → Result A
  err : ConvertError → Result A

infixl 5 ◌>>=◌
abbrev pub ◌>>=◌ {ℓ κ} : {A : Type ℓ} {B : Type κ} → Result A → (A → Result B) → Result B
ok a >>= f = f a
err e >>= f = err e

module _ {ℓ} {A : Type ℓ} where
  from_ok : A → Result A → A
  from_ok d (ok a) = a
  from_ok d (err e) = d

  pub ok-injective : {a b : A} → ok a ≡ ok b → a ≡ b
  unfolding from_ok
  ok-injective {a} e = ap (from_ok a) e

-- A computation that leaves a state from which it gives the same result and the same state.
pub again_of_fixed {ℓ κ} :
    {S : Type ℓ} {P : Type κ} (generate : P → Result (S × P)) (p p₁ : P) (s₁ : S)
    → generate p ≡ ok (s₁, p₁)
    → generate p₁ ≡ ok (s₁, p₁)
    → (s : S) (p' : P) → generate p ≡ ok (s, p')
    → generate p' ≡ ok (s, p')
again_of_fixed {S} {P} generate p p₁ s₁ found fixed s p' e =
    subst (λ (r : S × P). generate r.1 ≡ ok r) (ok-injective (sym found ∙ e)) fixed

-- `HitResultPriority`
pub data HitResultPriority : Type 0 where
  best_case worst_case : HitResultPriority

abbrev pub is_mode : GameMode → GameMode → Bool
is_mode GameMode.osu GameMode.osu = true
is_mode GameMode.taiko GameMode.taiko = true
is_mode GameMode.catch GameMode.catch = true
is_mode GameMode.mania GameMode.mania = true
is_mode _ _ = false

-- `o.map_or(0, |n| cmp::min(n, bound))`
abbrev pub clip : Option ℕ → ℕ → ℕ
clip none bound = 0
clip (some n) bound = min n bound

pub clip-le : (o : Option ℕ) (n : ℕ) → clip o n ≤ n
clip-le none n = omega arith
clip-le (some k) n = omega arith
