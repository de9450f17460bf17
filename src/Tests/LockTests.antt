-- ===== src/Tests/LockTests.antt =====
-- The theorems on spin locks and system call arguments at concrete inputs.
use xmu_learning_os.Base.{
  add32, arith, false, get_word, if◌then◌else◌, none, refl, some, true, update, ℕ, ◌+◌, ◌<◌, ◌==◌,
  ◌≡◌, ◌≢◌, ◌≤◌,
}
use xmu_learning_os.Spinlock.{Cpu, acquire_spin, acquire_start, holding, initlock, pushcli}
use xmu_learning_os.Spinlock.Exclusion.{
  Exclusive, Machine, Reach-Exclusive, calls, here, inside, next, out, spinning, wins,
}
use xmu_learning_os.Spinlock.Nesting.{pop_times, pop_times-push_times, push_times}
use xmu_learning_os.Syscall.{Caller, argint, argptr, fetchint, fetchstr, scan_string}
use xmu_learning_os.Syscall.InBounds.{argptr_lem, fetchstr_lem}

abbrev running_cpu : Cpu
running_cpu = record { interrupts = true; ncli = 0; intena = false }

-- `pushcli` and `popcli` three times.
pop_times-push_times_example :
    (◌≢◌ {A = ℕ} 3 0 → (push_times 3 running_cpu).interrupts ≡ false)
    × ((d : Cpu) × (pop_times 3 (push_times 3 running_cpu) ≡ some d)
        × (d.ncli ≡ 0)
        × (d.interrupts ≡ true))
pop_times-push_times_example =
    pop_times-push_times 3 running_cpu (omega arith)
      (record { bounded = omega arith; off_inside = λ z. absurd (z refl) })

-- A caller with 4096 bytes whose argument 1 is the address 256, where `ab` stands.
abbrev caller : Caller
caller = record {
  sz = 4096;
  esp = 4000;
  memory = λ a. if a == 4009 then 1 else if a == 256 then 97 else if a == 257 then 98 else 0;
}

argptr_lem_example :
    (add32 (add32 4000 4) 4 + 4 ≤ 4096)
    × (256 ≡ get_word caller.memory (add32 (add32 4000 4) 4))
    × (256 + 16 ≤ 4096)
unfolding argptr argint fetchint get_word
argptr_lem_example = argptr_lem 1 16 caller 256 (omega arith) (omega arith) refl

fetchstr_lem_example :
    (◌≡◌ {A = ℕ} 256 256)
    × (256 + 2 < 4096)
    × (caller.memory (256 + 2) ≡ 0)
    × ((k : ℕ) → 256 ≤ k → k < 256 + 2 → caller.memory k ≢ 0)
unfolding fetchstr scan_string
fetchstr_lem_example = fetchstr_lem 256 caller 256 2 refl

-- Two processors with interrupts off, and a new lock; the first takes it.
abbrev two_cpus : Machine
two_cpus = record {
  lock = record { locked = 0; cpu = none };
  cpus = λ i. running_cpu;
  phase = λ i. out;
}

abbrev called : Machine
called = record two_cpus {
  cpus = update two_cpus.cpus 0 (pushcli running_cpu);
  phase = update two_cpus.phase 0 spinning;
}

abbrev taken : Machine
taken = record called {
  lock = record { locked = 1; cpu = some 0 };
  phase = update called.phase 0 inside;
}

Reach-Exclusive_example : Exclusive taken
unfolding initlock acquire_start acquire_spin holding
Reach-Exclusive_example =
    Reach-Exclusive {w = two_cpus} {v = taken} (record { new = refl; nobody = λ i. refl })
      (next (next here (calls 0 refl refl)) (wins 0 refl refl))
