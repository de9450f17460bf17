-- ===== src/Sched/Policies.antt =====
-- Each policy returns a runnable process of the table, the one that its rule asks for, and none
-- only where nothing is runnable.
use xmu_learning_os.Base.{
  Bool-cases, arith, false, inl, inr, none, some, suc, true, zero, ℕ, ◌%◌, ◌+◌, ◌-◌, ◌<◌, ◌==◌, ◌^◌,
  ◌≡◌, ◌≤◌,
}
use xmu_learning_os.Proc.{Proc, nproc}
use xmu_learning_os.Sched.{Lfsr, default_from, random, reduce, runs, shift_all}
use Prim.Native.Nat.{bit_xor}
use native.Mathlib.Nat.{mod-lt}
use mathlib.Core.Path.{subst}

-- `random` stays below a positive bound.
pub random_bounds : (max : ℕ) (r : Lfsr) → 0 < max → max < 2 ^ 31 → (random max r).0 < max
unfolding random shift_all reduce
random_bounds max r p b =
    let r' = shift_all r in
    let v = bit_xor (bit_xor (bit_xor r'.z1 r'.z2) r'.z3) r'.z4 in
    ground (arith, mod-lt v p, mod-lt (2 ^ 32 - v) p)

-- The loop of `defaultScheduler` stops at a runnable process, and passes no runnable one.
pub default_from-some :
    (n i rnd : ℕ) (t : ℕ → Proc) (p : ℕ)
    → default_from n i rnd t ≡ some p
    → (runs (t p) ≡ true) × (p < nproc)
unfolding default_from
default_from-some zero i rnd t p e = cc
default_from-some (suc n) i rnd t p e = ground (arith, default_from-some n (i + 1) rnd t p)

default_from-none :
    (n i rnd : ℕ) (t : ℕ → Proc) (j : ℕ)
    → default_from n i rnd t ≡ none
    → i ≤ j
    → j < i + n
    → runs (t ((rnd + j) % nproc)) ≡ false
unfolding default_from
default_from-none zero i rnd t j e l h = absurd (omega arith)
default_from-none (suc n) i rnd t j e l h = elim (Bool-cases (i == j)) [
  | inl s ↦ let same : i ≡ j = ground arith in rw (← same) (ground arith)
  | inr d ↦ ground (arith, default_from-none n (i + 1) rnd t j)
]

pub default_from-idle :
    (rnd : ℕ) (t : ℕ → Proc) (p : ℕ)
    → default_from nproc 0 rnd t ≡ none
    → p < nproc
    → runs (t p) ≡ false
default_from-idle rnd t p e h =
    let j = (p + (nproc - rnd % nproc)) % nproc in
    let same : (rnd + j) % nproc ≡ p = omega arith in
    subst (λ q. runs (t q) ≡ false) same
      (default_from-none nproc 0 rnd t j e (omega arith) (omega arith))
