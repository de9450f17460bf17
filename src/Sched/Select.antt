-- ===== src/Sched/Select.antt =====
-- Lab/code/sdh.h and, of Lab/code/proc.c, `getscheduler`, `setscheduler` and a round of `scheduler`:
-- the policy in force, its static state, and the calls that read and change it.
use xmu_learning_os.Base.{
  List, Option, [], get_elem?, if◌then◌else◌, minus_one, none, slt, some, ℕ, ◌||◌, ◌∷◌,
}
use xmu_learning_os.Proc.{Kernel, Proc}
use xmu_learning_os.Proc.Sleep.{dispatch}
use xmu_learning_os.Sched.{
  Lfsr, default_scheduler, fcfs_scheduler, priority_scheduler, rr_scheduler, sml_scheduler,
}

pub data Policy : Type 0 where
  default_policy priority_policy fcfs_policy rr_policy sml_policy : Policy

-- `schedulerFunction`
abbrev pub scheduler_function : List Policy
scheduler_function = default_policy ∷ priority_policy ∷ fcfs_policy ∷ rr_policy ∷ sml_policy ∷ []

-- `sizeof(schedulerName) / sizeof(char *)`
abbrev pub scheduler_names : ℕ
scheduler_names = 5

-- `ready_process` (none where it was read past the end of the array), `schedSelected`, and the
-- static variables of `random` and `rrScheduler`.
pub record Selection : Type 0 where
  pub ready_process : Option Policy
  pub sched_selected : ℕ
  pub lfsr : Lfsr
  pub idx : ℕ

abbrev pub boot : Selection
boot = record {
  ready_process = some default_policy;
  sched_selected = 0;
  lfsr = record { z1 = 12345; z2 = 12345; z3 = 12345; z4 = 12345 };
  idx = 63;
}

unfoldable pub getscheduler : Selection → ℕ
getscheduler s = s.sched_selected

unfoldable pub setscheduler : ℕ → Selection → ℕ × Selection
setscheduler sid s =
    if slt sid 0 || slt scheduler_names sid
    then (minus_one, s)
    else (sid, record s { ready_process = get_elem? scheduler_function sid; sched_selected = sid })

-- The call of a policy. `none` is a call through a bad pointer, or a loop out of fuel.
unfoldable pub ask : Policy → Selection → (ℕ → Proc) → Option (Option ℕ × Selection)
ask default_policy s t = let (p, r) = default_scheduler s.lfsr t in some (p, record s { lfsr = r })
ask priority_policy s t = some (priority_scheduler t, s)
ask fcfs_policy s t = some (fcfs_scheduler t, s)
ask rr_policy s t = elim (rr_scheduler s.idx t) [
  | none ↦ none
  | some (p, i) ↦ some (p, record s { idx = i })
]
ask sml_policy s t = let (p, r) = sml_scheduler s.lfsr t in some (p, record s { lfsr = r })

unfoldable pub ask_at : Option Policy → Selection → (ℕ → Proc) → Option (Option ℕ × Selection)
ask_at none s t = none
ask_at (some policy) s t = ask policy s t

unfoldable pub choose : Selection → (ℕ → Proc) → Option (Option ℕ × Selection)
unfolding ask_at
choose s t = ask_at s.ready_process s t

-- A round of `scheduler` up to `swtch`.
unfoldable pub schedule : {S : Type 0} → Selection → Kernel S → Option (Selection × Kernel S)
schedule s k = elim (choose s k.procs) [ none ↦ none | some (p, s') ↦ some (s', dispatch p k) ]
