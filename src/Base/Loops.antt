-- ===== src/Base/Loops.antt =====
-- `for i in lo..=hi`, with the state that its body changes.
use Prim.Native.Nat.{ℕ, zero, suc, ◌+◌, ◌-◌, ◌≤◌, ◌<◌}
use native.Mathlib.Omega.{arith}
use native.Mathlib.Decide.{dec_le}
use mathlib.Core.Path.{◌≡◌}

module _ {ℓ} {S : Type ℓ} where
  pub for_up : ℕ → ℕ → (ℕ → S → S) → S → S
  for_up zero i body s = s
  for_up (suc k) i body s = for_up k (suc i) body (body i s)

  unfoldable pub for_inclusive : ℕ → ℕ → (ℕ → S → S) → S → S
  unfolding for_up
  for_inclusive lo hi body s = for_up (hi + 1 - lo) lo body s

module _ {ℓ κ} {S : Type ℓ} (P : S → Type κ) (body : ℕ → S → S) where
  for_up_inv :
      (lo hi k i : ℕ) (s : S)
      → ((j : ℕ) (t : S) → lo ≤ j → j ≤ hi → P t → P (body j t))
      → lo ≤ i
      → i + k ≤ hi + 1
      → P s
      → P (for_up k i body s)
  unfolding for_up
  for_up_inv lo hi zero i s keep a b h = h
  for_up_inv lo hi (suc k) i s keep a b h =
      for_up_inv lo hi k (suc i) (body i s) keep (omega arith) (omega arith)
        (keep i s a (omega arith) h)

  -- What each round keeps holds after the loop.
  pub for_inclusive_inv :
      (lo hi : ℕ) (s : S)
      → ((j : ℕ) (t : S) → lo ≤ j → j ≤ hi → P t → P (body j t))
      → lo ≤ hi + 1
      → P s
      → P (for_inclusive lo hi body s)
  unfolding for_inclusive
  for_inclusive_inv lo hi s keep b h =
      for_up_inv lo hi (hi + 1 - lo) lo s keep (omega arith) (omega arith) h

  -- The same of a loop that may not run at all.
  pub for_inclusive_keeps :
      (lo hi : ℕ) (s : S)
      → ((j : ℕ) (t : S) → lo ≤ j → j ≤ hi → P t → P (body j t))
      → P s
      → P (for_inclusive lo hi body s)
  unfolding for_inclusive
  for_inclusive_keeps lo hi s keep h = elim (dec_le lo (hi + 1)) [
    | yes le ↦ for_up_inv lo hi (hi + 1 - lo) lo s keep (omega arith) (omega arith) h
    | no gt ↦ let none_left : hi + 1 - lo ≡ 0 = omega arith in rw none_left (unfold for_up in h)
  ]

  for_up_first :
      (lo hi k : ℕ) (s : S)
      → ((j : ℕ) (t : S) → lo ≤ j → j ≤ hi → P t → P (body j t))
      → 0 < k
      → lo + k ≤ hi + 1
      → P (body lo s)
      → P (for_up k lo body s)
  unfolding for_up
  for_up_first lo hi zero s keep a b h = absurd (omega arith)
  for_up_first lo hi (suc k) s keep a b h =
      for_up_inv lo hi k (suc lo) (body lo s) keep (omega arith) (omega arith) h

  -- What the first round makes true and each round keeps holds after a loop that runs.
  pub for_inclusive_first :
      (lo hi : ℕ) (s : S)
      → ((j : ℕ) (t : S) → lo ≤ j → j ≤ hi → P t → P (body j t))
      → lo ≤ hi
      → P (body lo s)
      → P (for_inclusive lo hi body s)
  unfolding for_inclusive
  for_inclusive_first lo hi s keep b h =
      for_up_first lo hi (hi + 1 - lo) s keep (omega arith) (omega arith) h
