-- ===== src/Sched/Conserving.antt =====
-- The scheduler as a whole: the policy in force never leaves the processor idle while a process is
-- runnable, and `setscheduler` accepts one policy too many.
use xmu_learning_os.Base.{
  Bool-cases, IsInt, Option, ap, arith, false, get_elem?, inl, inr, minus_one, none, refl, some,
  some_inj, suc, sym, true, zero, ℕ, ◌<◌, ◌∙◌, ◌≡◌,
}
use xmu_learning_os.Proc.{Proc, nproc}
use xmu_learning_os.Sched.{
  Lfsr, default_scheduler, fcfs_scheduler, fill_queues, mlq_levels, priority_scheduler, random,
  runs, sml_scheduler,
}
use xmu_learning_os.Sched.Choice.{
  default_scheduler_lem, fcfs_scheduler_lem, priority_scheduler_lem, rr_scheduler_lem,
  sml_scheduler_lem,
}
use xmu_learning_os.Sched.Levels.{fill_queues-bounded, fill_queues-slot, from_level-some}
use xmu_learning_os.Sched.Policies.{random_bounds}
use xmu_learning_os.Sched.Select.{
  Policy, Selection, ask, ask_at, choose, default_policy, fcfs_policy, getscheduler,
  priority_policy, rr_policy, scheduler_function, setscheduler, sml_policy,
}
use mathlib.Core.Path.{subst}

-- The promise of every policy.
abbrev pub Serves : (ℕ → Proc) → Option ℕ → Type 0
Serves t x =
    ((p : ℕ) → x ≡ some p → (p < nproc) × (runs (t p) ≡ true))
    × (x ≡ none → (q : ℕ) → q < nproc → runs (t q) ≡ false)

sml-Serves : (r : Lfsr) (t : ℕ → Proc) → Serves t (sml_scheduler r t).0
unfolding sml_scheduler
sml-Serves r t = (chosen, idle)
  where
    chosen : (p : ℕ) → (sml_scheduler r t).0 ≡ some p → (p < nproc) × (runs (t p) ≡ true)
    chosen p e =
        let q = fill_queues nproc t in
        let (b, full, at_b) = from_level-some mlq_levels 0 q r p e in
        let size = fill_queues-bounded nproc t b in
        let (o, slot, now, lev, small) =
          fill_queues-slot nproc t b (random (q.idxs b) r).0
            (random_bounds (q.idxs b) r full (omega arith)) in
        let same : o ≡ p = some_inj (sym slot ∙ at_b) in
        subst (λ z. (z < nproc) × (runs (t z) ≡ true)) same (small, now)

    idle : (sml_scheduler r t).0 ≡ none → (q : ℕ) → q < nproc → runs (t q) ≡ false
    idle e q h = elim (Bool-cases (runs (t q))) [
      | inl good ↦
          let (p, some_p, small, now, least) = sml_scheduler_lem r t q h good in cc (sym some_p ∙ e)
      | inr bad ↦ bad
    ]

ask_lem :
    (s : Selection) (t : ℕ → Proc) (chosen : Policy)
    → s.idx < nproc
    → (x : Option ℕ) × (s' : Selection) × (ask chosen s t ≡ some (x, s'))
      × Serves t x
      × (s'.ready_process ≡ s.ready_process)
      × (s'.idx < nproc)
unfolding ask
ask_lem s t default_policy h =
    let (x, r) = default_scheduler s.lfsr t in
    (
      (default_scheduler s.lfsr t).0,
      record s { lfsr = (default_scheduler s.lfsr t).1 },
      refl,
      default_scheduler_lem s.lfsr t,
      refl,
      h,
    )
ask_lem s t priority_policy h =
    let (r, i) = priority_scheduler_lem t in
    (priority_scheduler t, s, refl, (λ p c. ((r p c).0, (r p c).1), i), refl, h)
ask_lem s t fcfs_policy h =
    let (r, i) = fcfs_scheduler_lem t in
    (fcfs_scheduler t, s, refl, (λ p c. ((r p c).0, (r p c).1), i), refl, h)
ask_lem s t rr_policy h =
    let (x, i, c, (l, r, n)) = rr_scheduler_lem s.idx t h in
    (
      x,
      record s { idx = i },
      rw (c, ask),
      (λ p o. (subst (λ z. z < nproc) (r p o).0 l, (r p o).1), λ o. (n o).1),
      refl,
      l,
    )
ask_lem s t sml_policy h = (
  (sml_scheduler s.lfsr t).0,
  record s { lfsr = (sml_scheduler s.lfsr t).1 },
  refl,
  sml-Serves s.lfsr t,
  refl,
  h,
)

choose-ask :
    (s : Selection) (t : ℕ → Proc) (chosen : Policy)
    → s.ready_process ≡ some chosen
    → choose s t ≡ ask chosen s t
unfolding choose
choose-ask s t chosen e = ap (λ o. ask_at o s t) e

-- Whichever policy is in force, from an index in the table the call returns: it gives a runnable
-- process of the table, or none and nothing is runnable. The policy stays, and the index in range.
pub choose_lem :
    (s : Selection) (t : ℕ → Proc) (chosen : Policy)
    → s.ready_process ≡ some chosen
    → s.idx < nproc
    → (x : Option ℕ) × (s' : Selection) × (choose s t ≡ some (x, s'))
      × Serves t x
      × (s'.ready_process ≡ s.ready_process)
      × (s'.idx < nproc)
choose_lem s t chosen e h =
    let (x, s', c, serves, same, small) = ask_lem s t chosen h in
    (x, s', choose-ask s t chosen e ∙ c, serves, same, small)

-- The numbers of the policies: DEFAULT, PRIORITY, FCFS, CFS and SML of `schedulerName`.
pub data IsNumbered : ℕ → Policy → Type 0 where
  numbers_default : IsNumbered 0 default_policy
  numbers_priority : IsNumbered 1 priority_policy
  numbers_fcfs : IsNumbered 2 fcfs_policy
  numbers_cfs : IsNumbered 3 rr_policy
  numbers_sml : IsNumbered 4 sml_policy

policy_at :
    (n : ℕ) → n < 5 → (p : Policy) × IsNumbered n p × (get_elem? scheduler_function n ≡ some p)
policy_at zero h = (default_policy, numbers_default, refl)
policy_at (suc zero) h = (priority_policy, numbers_priority, refl)
policy_at (suc (suc zero)) h = (fcfs_policy, numbers_fcfs, refl)
policy_at (suc (suc (suc zero))) h = (rr_policy, numbers_cfs, refl)
policy_at (suc (suc (suc (suc zero)))) h = (sml_policy, numbers_sml, refl)
policy_at (suc (suc (suc (suc (suc n))))) h = absurd (omega arith)

-- `setscheduler` returns each number below 5, installs the policy of that number and reports the
-- number from then on; it refuses the numbers above 5 and those below 0, and nothing changes. It
-- accepts 5, the length of the table, and then no policy is installed.
pub setscheduler_lem :
    (sid : ℕ) (s : Selection)
    → IsInt sid
    → (sid < 5
        → ((setscheduler sid s).0 ≡ sid)
          × (getscheduler (setscheduler sid s).1 ≡ sid)
          × ((chosen : Policy) × IsNumbered sid chosen
              × ((setscheduler sid s).1.ready_process ≡ some chosen)))
      × (5 < sid → setscheduler sid s ≡ (minus_one, s))
      × (sid ≡ 5 → ((setscheduler sid s).0 ≡ 5) × ((setscheduler sid s).1.ready_process ≡ none))
unfolding setscheduler getscheduler
setscheduler_lem sid s w = (
  λ h. (ground arith, ground arith, let (p, c, e) = policy_at sid h in (p, c, ground arith)),
  λ h. ground arith,
  λ h. (ground arith, ground arith),
)
