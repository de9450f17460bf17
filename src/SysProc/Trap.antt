-- ===== src/SysProc/Trap.antt =====
-- Lab/code/trap.c: what `trap` does on a system call, on a tick of the clock, and on a fault. The
-- interrupts of devices are their drivers'.
use xmu_learning_os.Base.{
  Bool, List, Option, [], add32, false, if◌then◌else◌, none, not, some, update, ℕ, ◌&&◌, ◌==◌, ◌||◌,
  ◌∷◌,
}
use xmu_learning_os.Proc.{Chan, Kernel, is_running}
use xmu_learning_os.Proc.Sleep.{update_statistics, wakeup, yield}
use xmu_learning_os.Sched.Select.{Selection, getscheduler}

-- `NON_PREEMPTIVE_SCHED`
abbrev pub non_preemptive : List ℕ
non_preemptive = 2 ∷ []

abbrev pub holds_number : List ℕ → ℕ → Bool
holds_number [] n = false
holds_number (x ∷ xs) n = (n == x) || holds_number xs n

module _ {S : Type 0} where
  -- The clock on the first processor; `channel` is `&ticks`.
  unfoldable pub tick : Chan → Kernel S → Kernel S
  unfolding update_statistics wakeup
  tick channel k = wakeup channel (update_statistics (record k { ticks = add32 k.ticks 1 }))

  -- A fault of the process `cur`: `none` is a panic.
  unfoldable pub fault : Option ℕ → Bool → Kernel S → Option (Kernel S)
  fault none user k = none
  fault (some cur) user k =
      if user
      then some (record k { procs = update k.procs cur (record (k.procs cur) { killed = 1 }) })
      else none

  -- Whether the process has to exit: it is killed, and was in user space.
  abbrev pub must_exit : ℕ → Bool → Kernel S → Bool
  must_exit cur user k = not ((k.procs cur).killed == 0) && user

  -- The end of `trap` on a tick: the running process gives up the processor where the policy in force
  -- is preemptive.
  unfoldable pub preempt : ℕ → Selection → Kernel S → Kernel S
  unfolding yield getscheduler
  preempt cur s k =
      if is_running (k.procs cur).state && not (holds_number non_preemptive (getscheduler s))
      then yield cur k
      else k
