-- ===== src/Sched/Least.antt =====
-- `priorityScheduler` and `fcfsScheduler` choose a least runnable process by a key, the first of
-- several.
use xmu_learning_os.Base.{
  Bool, Bool-cases, Option-cases, arith, false, inl, inr, ltb, none, some, suc, true, zero, ℕ, ◌<◌,
  ◌==◌, ◌≡◌, ◌≤◌,
}
use xmu_learning_os.Proc.{Proc}
use xmu_learning_os.Sched.{pick, runs}

module _ (key : Proc → ℕ) where
  abbrev pub by_key : Proc → Proc → Bool
  by_key p q = ltb (key p) (key q)

  pub pick-runs :
      (n : ℕ) (t : ℕ → Proc) (i : ℕ) → pick by_key n t ≡ some i → (i < n) × (runs (t i) ≡ true)
  unfolding pick
  pick-runs zero t i e = absurd (ground arith)
  pick-runs (suc n) t i e = elim (Option-cases (pick by_key n t)) [
    | inl o ↦ ground arith
    | inr (b, o) ↦ ground (arith, pick-runs n t b)
  ]

  pub pick-none :
      (n : ℕ) (t : ℕ → Proc) (j : ℕ) → pick by_key n t ≡ none → j < n → runs (t j) ≡ false
  unfolding pick
  pick-none zero t j e h = absurd (omega arith)
  pick-none (suc n) t j e h = elim (Option-cases (pick by_key n t)) [
    | inl o ↦ elim (Bool-cases (j == n)) [
      | inl s ↦ ground arith
      | inr d ↦ ground (arith, pick-none n t j)
    ]
    | inr (b, o) ↦ absurd (ground arith)
  ]

  pub pick-least :
      (n : ℕ) (t : ℕ → Proc) (i j : ℕ)
      → pick by_key n t ≡ some i
      → j < n
      → runs (t j) ≡ true
      → (key (t i) ≤ key (t j)) × (j < i → key (t i) < key (t j))
  unfolding pick
  pick-least zero t i j e h r = absurd (omega arith)
  pick-least (suc n) t i j e h r = elim (Option-cases (pick by_key n t)) [
    | inl o ↦ elim (Bool-cases (j == n)) [
      | inl s ↦ ground arith
      | inr d ↦ ground (arith, pick-none n t j)
    ]
    | inr (b, o) ↦ elim (Bool-cases (j == n)) [
      | inl s ↦ ground (arith, pick-runs n t b)
      | inr d ↦ ground (arith, pick-runs n t b, pick-least n t b j)
    ]
  ]
