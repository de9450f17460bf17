-- ===== src/Tests/SemaTests.antt =====
-- The theorem on semaphores at a concrete kernel.
use xmu_learning_os.Base.{arith, false, refl, true, update, ℕ, ◌≡◌}
use xmu_learning_os.Proc.{is_sleeping}
use xmu_learning_os.Proc.Sleep.{sleep}
use xmu_learning_os.Samples.{alone}
use xmu_learning_os.Sema.{World, sem_destroy, sem_init, sem_wait_round}
use xmu_learning_os.Sema.Waiting.{Ghost, NoLostSignal, Reach-NoLostSignal, here, next, waits_for}

abbrev two_units : World ℕ
two_units = record { kernel = alone; sema = λ i. record { value = 2; active = 1 } }

abbrev fresh : Ghost
fresh = record { wants = λ i. 0; raised = λ i. false }

two_units-NoLostSignal : NoLostSignal fresh two_units
two_units-NoLostSignal i sem hi b r = ground arith

-- The init process asks for three units of two, and sleeps.
Reach-NoLostSignal_example :
    NoLostSignal (record fresh { wants = update (λ i. 0) 0 3 }) (sem_wait_round 0 4 3 two_units).1
Reach-NoLostSignal_example =
    Reach-NoLostSignal {g = fresh} two_units-NoLostSignal
      (next here (waits_for 0 4 3 (omega arith) refl))

-- When the semaphore is destroyed and set up with five units, the process that asked for three sleeps
-- on.
abbrev renewed : World ℕ
renewed = (sem_init 4 5 (sem_destroy 4 (sem_wait_round 0 4 3 two_units).1).1).1

sem_init_wakes_nobody :
    ((renewed.sema 4).value ≡ 5) × (is_sleeping (renewed.kernel.procs 0).state ≡ true)
unfolding sem_init sem_destroy sem_wait_round sleep
sem_init_wakes_nobody = (refl, refl)
