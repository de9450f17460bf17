-- ===== src/Base/Array.antt =====
-- A C array of fixed size as a function from indices, and the loops over it.
use Prim.Native.Nat.{ℕ, zero, suc, ◌+◌, ◌≤◌, ◌<◌}
use mathlib.Core.Path.{◌≡◌, refl}
use mathlib.Core.Logic.{inl, inr}
use mathlib.Core.Bool.{Bool, true, false}
use mathlib.Core.Option.{Option, none, some}
use native.Mathlib.Omega.{arith}
use xmu_learning_os.Base.Tests.{if◌then◌else◌, ◌==◌, ltb, Bool-cases}

module _ {ℓ} {A : Type ℓ} where
  -- `a[i] = v`
  abbrev pub update : (ℕ → A) → ℕ → A → ℕ → A
  update a i v j = if i == j then v else a j

  -- `for (i = 0; i < n; i++) a[i] = f(a[i])`
  unfoldable pub each : ℕ → (A → A) → (ℕ → A) → ℕ → A
  each zero f a = a
  each (suc n) f a = let b = each n f a in update b n (f (b n))

  pub each-at :
      (n : ℕ) (f : A → A) (a : ℕ → A) (j : ℕ) → each n f a j ≡ (if ltb j n then f (a j) else a j)
  unfolding each
  each-at zero f a j = ground arith
  each-at (suc n) f a j = ground (arith, each-at n f a j, each-at n f a n)

  -- `for (; n > 0; n--, i++) if (p(a[i])) return i; return none`
  unfoldable pub first : (A → Bool) → ℕ → ℕ → (ℕ → A) → Option ℕ
  first p zero i a = none
  first p (suc n) i a = let rest = first p n (i + 1) a in if p (a i) then some i else rest

  -- What `first` returns is in range, passes the test, and no index before it does.
  pub first-some :
      (p : A → Bool) (n i : ℕ) (a : ℕ → A) (j : ℕ)
      → first p n i a ≡ some j
      → (i ≤ j) × (j < i + n) × (p (a j) ≡ true)
  unfolding first
  first-some p zero i a j e = ground arith
  first-some p (suc n) i a j e = ground (arith, first-some p n (i + 1) a j)

  pub first-before :
      (p : A → Bool) (n i : ℕ) (a : ℕ → A) (j k : ℕ)
      → first p n i a ≡ some j
      → i ≤ k
      → k < j
      → p (a k) ≡ false
  unfolding first
  first-before p zero i a j k e h l = ground arith
  first-before p (suc n) i a j k e h l = elim (Bool-cases (i == k)) [
    | inl s ↦ ground arith
    | inr d ↦ ground (arith, first-before p n (i + 1) a j k)
  ]

  -- It returns nothing only where every index in range fails the test.
  pub first-none :
      (p : A → Bool) (n i : ℕ) (a : ℕ → A) (k : ℕ)
      → first p n i a ≡ none
      → i ≤ k
      → k < i + n
      → p (a k) ≡ false
  unfolding first
  first-none p zero i a k e h l = absurd (omega arith)
  first-none p (suc n) i a k e h l = elim (Bool-cases (i == k)) [
    | inl s ↦ ground arith
    | inr d ↦ ground (arith, first-none p n (i + 1) a k)
  ]

  -- The search depends on the outcome of the test only.
  pub first-cong :
      (p : A → Bool) (n i : ℕ) (a b : ℕ → A)
      → ((j : ℕ) → p (a j) ≡ p (b j))
      → first p n i a ≡ first p n i b
  unfolding first
  first-cong p zero i a b h = refl
  first-cong p (suc n) i a b h = rw (h i, first-cong p n (i + 1) a b h)
