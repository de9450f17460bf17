-- ===== src/Proc/Scanning.antt =====
-- What the passes of `wait`, `wait2`, `join` and `exit` over the table find and leave.
use xmu_learning_os.Base.{
  Bool, Bool-cases, arith, false, inl, inr, refl, suc, true, zero, ℕ, ◌+◌, ◌<◌, ◌==◌, ◌≡◌, ◌≢◌, ◌≤◌,
  ◌⊎◌,
}
use xmu_learning_os.Proc.{Proc, is_zombie}
use xmu_learning_os.Proc.Wait.{Scan, exited, havekids, scan}

-- A pass stops at the first exited child.
pub scan-exited :
    (child : Proc → Bool) (n i : ℕ) (kids : Bool) (t : ℕ → Proc) (j : ℕ)
    → scan child n i kids t ≡ exited j
    → (i ≤ j) × (j < i + n) × (child (t j) ≡ true) × (is_zombie (t j).state ≡ true)
unfolding scan
scan-exited child zero i kids t j e = cc
scan-exited child (suc n) i kids t j e =
    ground (arith, scan-exited child n (i + 1) kids t j, scan-exited child n (i + 1) true t j)

-- A pass that reaches the end has met no exited child.
pub scan-no_zombie :
    (child : Proc → Bool) (n i : ℕ) (kids b : Bool) (t : ℕ → Proc) (j : ℕ)
    → scan child n i kids t ≡ havekids b
    → i ≤ j
    → j < i + n
    → child (t j) ≡ true
    → is_zombie (t j).state ≡ false
unfolding scan
scan-no_zombie child zero i kids b t j e l h c = absurd (omega arith)
scan-no_zombie child (suc n) i kids b t j e l h c = elim (Bool-cases (i == j)) [
  | inl s ↦ ground arith
  | inr d ↦
      ground (
        arith,
        scan-no_zombie child n (i + 1) kids b t j,
        scan-no_zombie child n (i + 1) true b t j,
      )
]

-- Children that were met stay reported.
scan-keeps : (child : Proc → Bool) (n i : ℕ) (t : ℕ → Proc) → scan child n i true t ≢ havekids false
unfolding scan
scan-keeps child zero i t = λ e. cc
scan-keeps child (suc n) i t = ground (arith, scan-keeps child n (i + 1) t)

scan-was_told :
    (child : Proc → Bool) (n i : ℕ) (kids : Bool) (t : ℕ → Proc)
    → scan child n i kids t ≡ havekids false
    → kids ≡ false
scan-was_told child n i false t e = refl
scan-was_told child n i true t e = absurd (scan-keeps child n i t e)

-- A pass that reports no children was told of none, and met none.
pub scan-no_kids :
    (child : Proc → Bool) (n i : ℕ) (kids : Bool) (t : ℕ → Proc) (j : ℕ)
    → scan child n i kids t ≡ havekids false
    → i ≤ j
    → j < i + n
    → (kids ≡ false) × (child (t j) ≡ false)
unfolding scan
scan-no_kids child zero i kids t j e l h = absurd (omega arith)
scan-no_kids child (suc n) i kids t j e l h = elim (Bool-cases (i == j)) [
  | inl s ↦ ground (arith, scan-was_told child (suc n) i kids t, scan-keeps child n (i + 1) t)
  | inr d ↦
      ground (arith, scan-no_kids child n (i + 1) kids t j, scan-no_kids child n (i + 1) true t j)
]

pub Scan-cases : (s : Scan) → ((i : ℕ) × (s ≡ exited i)) ⊎ ((b : Bool) × (s ≡ havekids b))
Scan-cases (exited i) = inl (i, refl)
Scan-cases (havekids b) = inr (b, refl)
