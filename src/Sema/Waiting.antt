-- ===== src/Sema/Waiting.antt =====
-- No signal is lost: a process that sleeps in `sem_wait` finds its semaphore too low for the count
-- that it asks for, but for two calls that raise a value and wake nobody. All calls of the semaphores
-- are a step relation, whatever their arguments.
use xmu_learning_os.Base.{Bool, IsNonneg, arith, false, slt, true, update, ℕ, ◌<◌, ◌≡◌, ◌≢◌}
use xmu_learning_os.Proc.{Kernel, is_sleeping, nproc, sema_at}
use xmu_learning_os.Proc.Abandoned.{wake-Keeps, wake-asleep}
use xmu_learning_os.Proc.Sleep.{sleep, wakeup-procs}
use xmu_learning_os.Sema.{World, sem_destroy, sem_init, sem_signal, sem_wait_round}

-- Beside the semaphores: the count that each process asked for last, and the semaphores whose value
-- was set by `sem_init` over sleepers, or raised by `sem_wait` with a negative count, and that were not
-- set up again since while nobody slept.
pub record Ghost : Type 0 where
  pub wants : ℕ → ℕ
  pub raised : ℕ → Bool

module _ {S : Type 0} where
  -- `i` sleeps on the semaphore `sem`.
  abbrev pub Blocked : Kernel S → ℕ → ℕ → Type 0
  Blocked k i sem = (is_sleeping (k.procs i).state ≡ true) × ((k.procs i).chan ≡ sema_at sem)

  abbrev pub NoLostSignal : Ghost → World S → Type 0
  NoLostSignal g w =
      (i sem : ℕ)
      → i < nproc
      → Blocked w.kernel i sem
      → g.raised sem ≡ false
      → slt (w.sema sem).value (g.wants i) ≡ true

  -- A call of another part of the kernel puts nobody to sleep on a semaphore.
  abbrev pub IsOther : Kernel S → Kernel S → Type 0
  IsOther k k' = (i sem : ℕ) → i < nproc → Blocked k' i sem → Blocked k i sem

  pub data Step (g : Ghost) (w : World S) : Ghost → World S → Type 0 where
    inits_free :
        (sem value : ℕ)
        → ((i : ℕ) → i < nproc → ¬ Blocked w.kernel i sem)
        → Step g w (record g { raised = update g.raised sem false }) (sem_init sem value w).1
    inits_active : (sem value : ℕ) → (w.sema sem).active ≢ 0 → Step g w g (sem_init sem value w).1
    inits_over :
        (i sem value : ℕ)
        → i < nproc
        → Blocked w.kernel i sem
        → Step g w (record g { raised = update g.raised sem true }) (sem_init sem value w).1
    destroys : (sem : ℕ) → Step g w g (sem_destroy sem w).1
    waits_for :
        (cur sem count : ℕ)
        → IsNonneg count
        → is_sleeping (w.kernel.procs cur).state ≡ false
        → Step g w
            (record g { wants = update g.wants cur count })
            (sem_wait_round cur sem count w).1
    waits_negative :
        (cur sem count : ℕ)
        → slt count 0 ≡ true
        → is_sleeping (w.kernel.procs cur).state ≡ false
        → Step g w
            (record { wants = update g.wants cur count; raised = update g.raised sem true })
            (sem_wait_round cur sem count w).1
    signals : (sem count : ℕ) → Step g w g (sem_signal sem count w).1
    others : {k : Kernel S} → IsOther w.kernel k → Step g w g (record w { kernel = k })

  pub data Reach (g : Ghost) (w : World S) : Ghost → World S → Type 0 where
    here : Reach g w g w
    next :
        {g' g'' : Ghost} {w' w'' : World S}
        → Reach g w g' w'
        → Step g' w' g'' w''
        → Reach g w g'' w''

  init_free-NoLostSignal :
      (g : Ghost) (w : World S) (sem value : ℕ)
      → ((i : ℕ) → i < nproc → ¬ Blocked w.kernel i sem)
      → NoLostSignal g w
      → NoLostSignal (record g { raised = update g.raised sem false }) (sem_init sem value w).1
  unfolding sem_init
  init_free-NoLostSignal g w sem value free h i sem' hi b r = ground (arith, h i sem' hi, free i hi)

  init_active-NoLostSignal :
      (g : Ghost) (w : World S) (sem value : ℕ)
      → (w.sema sem).active ≢ 0
      → NoLostSignal g w
      → NoLostSignal g (sem_init sem value w).1
  unfolding sem_init
  init_active-NoLostSignal g w sem value a h i sem' hi b r = ground (arith, h i sem' hi)

  init-NoLostSignal :
      (g : Ghost) (w : World S) (sem value : ℕ)
      → NoLostSignal g w
      → NoLostSignal (record g { raised = update g.raised sem true }) (sem_init sem value w).1
  unfolding sem_init
  init-NoLostSignal g w sem value h i sem' hi b r = ground (arith, h i sem' hi)

  destroy-NoLostSignal :
      (g : Ghost) (w : World S) (sem : ℕ) → NoLostSignal g w → NoLostSignal g (sem_destroy sem w).1
  unfolding sem_destroy
  destroy-NoLostSignal g w sem h i sem' hi b r = ground (arith, h i sem' hi)

  wait-NoLostSignal :
      (g : Ghost) (w : World S) (cur sem count : ℕ)
      → IsNonneg count
      → is_sleeping (w.kernel.procs cur).state ≡ false
      → NoLostSignal g w
      → NoLostSignal
          (record g { wants = update g.wants cur count })
          (sem_wait_round cur sem count w).1
  unfolding sem_wait_round sleep
  wait-NoLostSignal g w cur sem count n off h i sem' hi b r = ground (arith, h i sem' hi)

  wait_negative-NoLostSignal :
      (g : Ghost) (w : World S) (cur sem count : ℕ)
      → is_sleeping (w.kernel.procs cur).state ≡ false
      → NoLostSignal g w
      → NoLostSignal
          (record { wants = update g.wants cur count; raised = update g.raised sem true })
          (sem_wait_round cur sem count w).1
  unfolding sem_wait_round sleep
  wait_negative-NoLostSignal g w cur sem count off h i sem' hi b r = ground (arith, h i sem' hi)

  signal-NoLostSignal :
      (g : Ghost) (w : World S) (sem count : ℕ)
      → NoLostSignal g w
      → NoLostSignal g (sem_signal sem count w).1
  unfolding sem_signal
  signal-NoLostSignal g w sem count h i sem' hi b r = ground (
    arith,
    h i sem' hi,
    wakeup-procs (sema_at sem) w.kernel i,
    wake-Keeps (sema_at sem) (w.kernel.procs i),
    wake-asleep (sema_at sem) (w.kernel.procs i),
  )

  Step-NoLostSignal :
      {g g' : Ghost} {w w' : World S} → Step g w g' w' → NoLostSignal g w → NoLostSignal g' w'
  Step-NoLostSignal {g} {w = w} (inits_free sem v free) h = init_free-NoLostSignal g w sem v free h
  Step-NoLostSignal {g} {w = w} (inits_active sem v a) h = init_active-NoLostSignal g w sem v a h
  Step-NoLostSignal {g} {w = w} (inits_over i sem v l b) h = init-NoLostSignal g w sem v h
  Step-NoLostSignal {g} {w = w} (destroys sem) h = destroy-NoLostSignal g w sem h
  Step-NoLostSignal {g} {w = w} (waits_for cur sem c n a) h = wait-NoLostSignal g w cur sem c n a h
  Step-NoLostSignal {g} {w = w} (waits_negative cur sem c n a) h =
      wait_negative-NoLostSignal g w cur sem c a h
  Step-NoLostSignal {g} {w = w} (signals sem c) h = signal-NoLostSignal g w sem c h
  Step-NoLostSignal (others o) h = λ i sem hi b r. h i sem hi (o i sem hi b) r

  -- In every state reached from one where it holds, a process that sleeps on a semaphore asked for
  -- more than the semaphore has, unless the semaphore counts as raised: `sem_init` was called over
  -- sleepers, or `sem_wait` with a negative count, and no `sem_init` since found nobody asleep. The
  -- calls may have any arguments.
  pub Reach-NoLostSignal :
      {g : Ghost} {w : World S} {g' : Ghost} {w' : World S}
      → NoLostSignal g w
      → Reach g w g' w'
      → NoLostSignal g' w'
  Reach-NoLostSignal h here = h
  Reach-NoLostSignal h (next r s) = Step-NoLostSignal s (Reach-NoLostSignal h r)
