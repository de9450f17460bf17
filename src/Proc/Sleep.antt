-- ===== src/Proc/Sleep.antt =====
-- Lab/code/proc.c: `sleep`, `wakeup1`, `wakeup`, `kill`, `yield`, the dispatch of `scheduler`,
-- `setpriority` and `update_statistics`, each as the change of the table that it makes while it
-- holds `ptable.lock`.
use xmu_learning_os.Base.{
  Bool, Option, add32, each, each-at, first, if◌then◌else◌, ltb, minus_one, none, not, sle, some,
  update, ℕ, ◌&&◌, ◌==◌, ◌≡◌,
}
use xmu_learning_os.Proc.{
  Chan, Kernel, Proc, State, is_sleeping, is_unused, nproc, null, runnable, running, same_chan,
  sleeping,
}

module _ {S : Type 0} where
  -- Write one process, or pass over all of them.
  abbrev pub put : Kernel S → ℕ → Proc → Kernel S
  put k i p = record k { procs = update k.procs i p }

  abbrev pub for_all : (Proc → Proc) → Kernel S → Kernel S
  for_all f k = record k { procs = each nproc f k.procs }

-- `if(p->state == SLEEPING && p->chan == chan) p->state = RUNNABLE`
unfoldable pub wake : Chan → Proc → Proc
wake c p = if is_sleeping p.state && same_chan p.chan c then record p { state = runnable } else p

-- The switch of `update_statistics`; the counters are `int`.
unfoldable pub count_tick : State → Proc → Proc
count_tick sleeping p = record p { stime = add32 p.stime 1 }
count_tick runnable p = record p { retime = add32 p.retime 1 }
count_tick running p = record p { rutime = add32 p.rutime 1 }
count_tick _ p = p

abbrev pub has_pid : ℕ → Proc → Bool
has_pid pid p = p.pid == pid

abbrev pub is_used_pid : ℕ → Proc → Bool
is_used_pid pid p = p.pid == pid && not (is_unused p.state)

-- What `kill` does to the process that it finds.
unfoldable pub kill_proc : Proc → Proc
kill_proc p = record p { killed = 1; state = if is_sleeping p.state then runnable else p.state }

module _ {S : Type 0} where
  unfoldable pub wakeup : Chan → Kernel S → Kernel S
  wakeup c k = for_all (wake c) k

  -- `sleep` up to `sched()`, and after it. The lock `lk` is released in between.
  unfoldable pub sleep : ℕ → Chan → Kernel S → Kernel S
  sleep cur c k = put k cur (record (k.procs cur) { chan = c; state = sleeping })

  unfoldable pub awake : ℕ → Kernel S → Kernel S
  awake cur k = put k cur (record (k.procs cur) { chan = null })

  unfoldable pub yield : ℕ → Kernel S → Kernel S
  yield cur k = put k cur (record (k.procs cur) { state = runnable })

  -- What `scheduler` does to the process that the policy chose.
  unfoldable pub dispatch : Option ℕ → Kernel S → Kernel S
  dispatch none k = k
  dispatch (some i) k = put k i (record (k.procs i) { state = running })

  unfoldable pub kill : ℕ → Kernel S → ℕ × Kernel S
  kill pid k = elim (first (has_pid pid) nproc 0 k.procs) [
    | none ↦ (minus_one, k)
    | some i ↦ (0, put k i (kill_proc (k.procs i)))
  ]

  unfoldable pub setpriority : ℕ → ℕ → Kernel S → ℕ × Kernel S
  setpriority pid priority k =
      if sle 0 pid && sle 0 priority
      then elim (first (is_used_pid pid) nproc 0 k.procs) [
        | none ↦ (minus_one, k)
        | some i ↦ (pid, put k i (record (k.procs i) { priority = priority }))
      ]
      else (minus_one, k)

  unfoldable pub update_statistics : Kernel S → Kernel S
  update_statistics k = for_all (λ p. count_tick p.state p) k

  -- `wakeup` makes exactly the sleepers on its channel runnable, and changes nothing else.
  pub wakeup-procs :
      (c : Chan) (k : Kernel S) (i : ℕ)
      → (wakeup c k).procs i ≡ (if ltb i nproc then wake c (k.procs i) else k.procs i)
  unfolding wakeup
  wakeup-procs c k i = each-at nproc (wake c) k.procs i
