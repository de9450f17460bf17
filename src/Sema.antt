-- ===== src/Sema.antt =====
-- Lab/code/proc.c, `sem_init` to `sem_signal`: the counting semaphores. A call holds the semaphore's
-- lock; `sem_wait` is a loop of rounds, each of which returns or sleeps.
pub mod Waiting
use xmu_learning_os.Base.{
  Bool, add32, if◌then◌else◌, minus_one, sle, slt, sub32, update, ℕ, ◌&&◌, ◌==◌,
}
use xmu_learning_os.Proc.{Kernel, sema_at}
use xmu_learning_os.Proc.Sleep.{sleep, wakeup}
use xmu_learning_os.Proc.Wait.{Round, fails, returns, waits}

pub record Semaphore : Type 0 where
  pub value : ℕ
  pub active : ℕ

abbrev pub max_sema_num : ℕ
max_sema_num = 32

-- The semaphores beside the kernel that they put processes to sleep in.
pub record World (S : Type 0) : Type 0 where
  pub kernel : Kernel S
  pub sema : ℕ → Semaphore

-- `(sem >= 0) && (sem < MAX_SEMA_NUM)`
abbrev pub in_range : ℕ → Bool
in_range sem = sle 0 sem && slt sem max_sema_num

module _ {S : Type 0} where
  unfoldable pub sem_init : ℕ → ℕ → World S → ℕ × World S
  sem_init sem value w =
      if in_range sem
      then (
        0,
        if (w.sema sem).active == 0
            then record w { sema = update w.sema sem (record { value = value; active = 1 }) }
            else w,
      )
      else (minus_one, w)

  unfoldable pub sem_destroy : ℕ → World S → ℕ × World S
  sem_destroy sem w =
      if in_range sem
      then (0, record w { sema = update w.sema sem (record (w.sema sem) { active = 0 }) })
      else (minus_one, w)

  -- A test of `sema[sem].value` against `count`, the first or one after a sleep.
  unfoldable pub sem_wait_round : ℕ → ℕ → ℕ → World S → Round ℕ × World S
  sem_wait_round cur sem count w =
      let s = w.sema sem in
      if in_range sem
      then if sle count s.value
        then (
          returns 0,
          record w { sema = update w.sema sem (record s { value = sub32 s.value count }) },
        )
        else (waits, record w { kernel = sleep cur (sema_at sem) w.kernel })
      else (fails, w)

  unfoldable pub sem_signal : ℕ → ℕ → World S → ℕ × World S
  sem_signal sem count w =
      let s = w.sema sem in
      if in_range sem
      then (
        0,
        record {
          kernel = wakeup (sema_at sem) w.kernel;
          sema = update w.sema sem (record s { value = add32 s.value count });
        },
      )
      else (minus_one, w)
