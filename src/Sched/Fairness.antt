-- ===== src/Sched/Fairness.antt =====
-- `rrScheduler` starves nobody.
use xmu_learning_os.Base.{
  Bool-cases, Option, ap, arith, false, inl, inr, none, refl, some, suc, sym, true, zero, ℕ, ◌<◌,
  ◌==◌, ◌∙◌, ◌≡◌, ◌≢◌,
}
use xmu_learning_os.Proc.{Proc, nproc}
use xmu_learning_os.Sched.{rr_scheduler, runs}
use xmu_learning_os.Sched.Choice.{RoundRobin, rr_scheduler_lem}
use xmu_learning_os.Sched.RoundRobin.{after}

-- `q` is chosen in one of the next calls of `rrScheduler`, at most so many; `ts` has the table at each
-- of them, and `idx` is where the first starts.
pub data Served (q : ℕ) : (ℕ → ℕ → Proc) → ℕ → ℕ → Type 0 where
  now :
      {ts : ℕ → ℕ → Proc} {idx i n : ℕ}
      → rr_scheduler idx (ts 0) ≡ some (some q, i)
      → Served q ts idx (suc n)
  later :
      {ts : ℕ → ℕ → Proc} {idx i n : ℕ} {x : Option ℕ}
      → rr_scheduler idx (ts 0) ≡ some (x, i)
      → Served q (λ k. ts (suc k)) i n
      → Served q ts idx (suc n)

-- A call that chooses another process comes nearer to `q`.
nearer :
    (idx p q : ℕ)
    → idx < nproc
    → p < nproc
    → q < nproc
    → p ≢ q
    → ¬ (after idx q < after idx p)
    → after p q < after idx q
nearer idx p q hi hp hq n c = omega arith

both : (p : Proc) → runs p ≡ true → runs p ≡ false → ⊥
both p a b = absurd (ground arith)

-- One call, where the calls after it serve `q` from any nearer index.
Served-step :
    (n q idx : ℕ) (ts : ℕ → ℕ → Proc)
    → idx < nproc
    → q < nproc
    → runs (ts 0 q) ≡ true
    → ((i : ℕ) → i < nproc → after i q < after idx q → Served q (λ k. ts (suc k)) i n)
    → (x : Option ℕ) × (i : ℕ) × (rr_scheduler idx (ts 0) ≡ some (x, i)) × RoundRobin idx (ts 0) x i
    → Served q ts idx (suc n)
Served-step n q idx ts hi hq good go (none, i, e, (small, picked, idle)) =
    absurd (both (ts 0 q) good ((idle refl).1 q hq))
Served-step n q idx ts hi hq good go (some p, i, e, (small, picked, idle)) =
    let (at_p, run, skipped) = picked p refl in
    elim (Bool-cases (p == q)) [
      | inl s ↦ now (e ∙ ap (λ k. some (some k, i)) (ground arith))
      | inr d ↦ later e (
          go i small (
            rw at_p (
              nearer idx p q hi (rw (sym at_p) small) hq (ground arith)
                (λ c. both (ts 0 q) good (skipped q hq c)))))
    ]

Served-within :
    (n q idx : ℕ) (ts : ℕ → ℕ → Proc)
    → idx < nproc
    → q < nproc
    → after idx q < n
    → ((k : ℕ) → runs (ts k q) ≡ true)
    → Served q ts idx n
Served-within zero q idx ts hi hq l good = absurd (omega arith)
Served-within (suc n) q idx ts hi hq l good =
    Served-step n q idx ts hi hq (good 0)
      (λ i small d.
        Served-within n q i (λ k. ts (suc k)) small hq (omega arith) (λ k. good (suc k)))
      (rr_scheduler_lem idx (ts 0) hi)

-- A process that stays runnable is chosen in one of the next NPROC calls of `rrScheduler`, whatever
-- happens to the rest of the table between the calls.
pub rr_scheduler-Served :
    (q idx : ℕ) (ts : ℕ → ℕ → Proc)
    → idx < nproc
    → q < nproc
    → ((k : ℕ) → runs (ts k q) ≡ true)
    → Served q ts idx nproc
rr_scheduler-Served q idx ts hi hq good = Served-within nproc q idx ts hi hq (omega arith) good
