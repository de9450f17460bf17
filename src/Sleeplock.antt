-- ===== src/Sleeplock.antt =====
-- Lab/code/sleeplock.c: a lock whose waiters sleep on `chan`, the lock's address. A call that waits
-- is a loop of rounds; the inner spin lock makes each round a single step.
use xmu_learning_os.Base.{Bool, Option, if◌then◌else◌, none, not, some, ℕ, ◌==◌}
use xmu_learning_os.Proc.{Chan, Kernel}
use xmu_learning_os.Proc.Sleep.{sleep, wakeup}

pub record Sleeplock : Type 0 where
  pub locked : ℕ
  pub pid : ℕ

unfoldable pub initsleeplock : Sleeplock
initsleeplock = record { locked = 0; pid = 0 }

module _ {S : Type 0} (chan : Chan) where
  -- `none` where the caller sleeps.
  unfoldable pub acquiresleep_round : ℕ → Sleeplock → Kernel S → Option Sleeplock × Kernel S
  acquiresleep_round cur lk k =
      if not (lk.locked == 0)
      then (none, sleep cur chan k)
      else (some (record { locked = 1; pid = (k.procs cur).pid }), k)

  unfoldable pub releasesleep : Sleeplock → Kernel S → Sleeplock × Kernel S
  releasesleep lk k = (record { locked = 0; pid = 0 }, wakeup chan k)

-- Whether it is locked, by whomever.
unfoldable pub holdingsleep : Sleeplock → Bool
holdingsleep lk = not (lk.locked == 0)
