-- ===== src/Sched/RoundRobin.antt =====
-- `rrScheduler` takes the next runnable process after the last one, going round the table.
use xmu_learning_os.Base.{
  Bool-cases, arith, false, inl, inr, none, some, suc, true, zero, ℕ, ◌%◌, ◌+◌, ◌-◌, ◌<◌, ◌==◌, ◌≡◌,
  ◌≢◌, ◌≤◌,
}
use xmu_learning_os.Proc.{Proc, nproc}
use xmu_learning_os.Sched.{rr_from, runs}

-- How many steps of `idx = (idx + 1) % NPROC` lead from the one after `idx` to `q`.
abbrev pub after : ℕ → ℕ → ℕ
after idx q = (q + nproc - idx - 1) % nproc

pub rr_from-runs :
    (f start idx : ℕ) (t : ℕ → Proc) (p i : ℕ)
    → rr_from f start idx t ≡ some (some p, i)
    → (i ≡ p) × (p < nproc) × (runs (t p) ≡ true)
unfolding rr_from
rr_from-runs zero start idx t p i e = absurd (ground arith)
rr_from-runs (suc f) start idx t p i e =
    ground (arith, rr_from-runs f start ((idx + 1) % nproc) t p i)

pub rr_from-next :
    (f start idx : ℕ) (t : ℕ → Proc) (p i q : ℕ)
    → rr_from f start idx t ≡ some (some p, i)
    → idx < nproc
    → q < nproc
    → after idx q < after idx p
    → runs (t q) ≡ false
unfolding rr_from
rr_from-next zero start idx t p i q e hi hq l = absurd (ground arith)
rr_from-next (suc f) start idx t p i q e hi hq l = elim (Bool-cases (q == (idx + 1) % nproc)) [
  | inl s ↦ ground arith
  | inr d ↦ ground (
    arith,
    rr_from-runs f start ((idx + 1) % nproc) t p i,
    rr_from-next f start ((idx + 1) % nproc) t p i q,
  )
]

pub rr_from-none :
    (f start idx : ℕ) (t : ℕ → Proc) (i q : ℕ)
    → rr_from f start idx t ≡ some (none, i)
    → start < nproc
    → idx < nproc
    → q < nproc
    → after idx q ≤ after idx start
    → (runs (t q) ≡ false) × (i ≡ start)
unfolding rr_from
rr_from-none zero start idx t i q e hs hi hq l = absurd (ground arith)
rr_from-none (suc f) start idx t i q e hs hi hq l = elim (Bool-cases (q == (idx + 1) % nproc)) [
  | inl s ↦ ground (arith, rr_from-none f start ((idx + 1) % nproc) t i start)
  | inr d ↦ ground (arith, rr_from-none f start ((idx + 1) % nproc) t i q)
]

pub rr_from-total :
    (f start idx : ℕ) (t : ℕ → Proc)
    → start < nproc
    → idx < nproc
    → after idx start < f
    → rr_from f start idx t ≢ none
unfolding rr_from
rr_from-total zero start idx t hs hi l = absurd (omega arith)
rr_from-total (suc f) start idx t hs hi l =
    ground (arith, rr_from-total f start ((idx + 1) % nproc) t)
