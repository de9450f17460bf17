-- ===== src/Tests/SchedTests.antt =====
-- The theorems on the scheduler at a concrete table.
use xmu_learning_os.Base.{Option, arith, none, refl, some, ℕ, ◌<◌, ◌≡◌}
use xmu_learning_os.Proc.{nproc}
use xmu_learning_os.Samples.{busy}
use xmu_learning_os.Sched.{rr_scheduler}
use xmu_learning_os.Sched.Choice.{RoundRobin, rr_scheduler_lem}
use xmu_learning_os.Sched.Conserving.{Serves, choose_lem, setscheduler_lem}
use xmu_learning_os.Sched.Fairness.{Served, rr_scheduler-Served}
use xmu_learning_os.Sched.Select.{Selection, boot, choose, default_policy, setscheduler}

rr_scheduler_lem_example :
    (x : Option ℕ) × (i : ℕ) × (rr_scheduler 5 busy ≡ some (x, i)) × RoundRobin 5 busy x i
rr_scheduler_lem_example = rr_scheduler_lem 5 busy (omega arith)

choose_lem_example :
    (x : Option ℕ) × (s' : Selection) × (choose boot busy ≡ some (x, s'))
    × Serves busy x
    × (s'.ready_process ≡ boot.ready_process)
    × (s'.idx < nproc)
choose_lem_example = choose_lem boot busy default_policy refl (omega arith)

setscheduler_lem_example :
    ((setscheduler 5 boot).0 ≡ 5) × ((setscheduler 5 boot).1.ready_process ≡ none)
setscheduler_lem_example = (setscheduler_lem 5 boot (omega arith)).2 refl

-- The round robin goes on from the last process, and round the table.
rr_runs : rr_scheduler 9 busy ≡ some (some 3, 3)
unfolding rr_scheduler
rr_runs = refl

rr_scheduler-Served_example : Served 5 (λ k. busy) 5 nproc
rr_scheduler-Served_example =
    rr_scheduler-Served 5 5 (λ k. busy) (omega arith) (omega arith) (λ k. refl)
