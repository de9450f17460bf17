-- ===== src/Spinlock/Exclusion.antt =====
-- Processors that acquire and release one lock, in any order.
use xmu_learning_os.Base.{arith, false, none, some, true, update, ℕ, ◌≡◌, ◌≢◌}
use xmu_learning_os.Spinlock.{
  Cpu, Spinlock, acquire_spin, acquire_start, holding, initlock, release,
}

-- A processor is out, in the loop of `acquire`, or past it.
pub data Phase : Type 0 where
  out spinning inside : Phase

pub record Machine : Type 0 where
  pub lock : Spinlock
  pub cpus : ℕ → Cpu
  pub phase : ℕ → Phase

-- A call that panics makes no step, and neither does a round of the loop that finds the lock taken.
pub data Step : Machine → Machine → Type 0 where
  calls :
      {w : Machine} (i : ℕ) {c : Cpu}
      → w.phase i ≡ out
      → acquire_start i w.lock (w.cpus i) ≡ some c
      → Step w (record w { cpus = update w.cpus i c; phase = update w.phase i spinning })
  wins :
      {w : Machine} (i : ℕ) {lk : Spinlock}
      → w.phase i ≡ spinning
      → acquire_spin i w.lock ≡ some lk
      → Step w (record w { lock = lk; phase = update w.phase i inside })
  leaves :
      {w : Machine} (i : ℕ) {lk : Spinlock} {c : Cpu}
      → w.phase i ≡ inside
      → release i w.lock (w.cpus i) ≡ some (lk, c)
      → Step w (record w { lock = lk; cpus = update w.cpus i c; phase = update w.phase i out })

pub data Reach (w : Machine) : Machine → Type 0 where
  here : Reach w w
  next : {v v' : Machine} → Reach w v → Step v v' → Reach w v'

-- A processor holds the lock exactly while it is past `acquire`, and there is one such at most.
pub record Exclusive (w : Machine) : Type 0 where
  pub held : (i : ℕ) → w.phase i ≡ inside → holding i w.lock ≡ true
  pub holds : (i : ℕ) → holding i w.lock ≡ true → w.phase i ≡ inside
  pub free : w.lock.locked ≡ 0 → (i : ℕ) → w.phase i ≢ inside
  pub one : (i j : ℕ) → w.phase i ≡ inside → w.phase j ≡ inside → i ≡ j

release-free :
    (i : ℕ) (lk : Spinlock) (c : Cpu) (lk' : Spinlock) (c' : Cpu)
    → release i lk c ≡ some (lk', c')
    → (lk'.locked ≡ 0) × (lk'.cpu ≡ none)
unfolding release
release-free i lk c lk' c' e = ground arith

acquire_spin-won :
    (i : ℕ) (lk lk' : Spinlock)
    → acquire_spin i lk ≡ some lk'
    → (lk.locked ≡ 0) × (lk'.locked ≡ 1) × (lk'.cpu ≡ some i)
unfolding acquire_spin
acquire_spin-won i lk lk' e = ground arith

Step-Exclusive : {w w' : Machine} → Step w w' → Exclusive w → Exclusive w'
unfolding holding
Step-Exclusive (calls {w} i p e) inv = record {
  held = λ j h. ground (arith, inv.held j);
  holds = λ j h. ground (arith, inv.holds j);
  free = λ z j h. ground (arith, inv.free z j);
  one = λ j k h g. ground (arith, inv.one j k);
}
Step-Exclusive (wins {w} i {lk} p e) inv =
    let (was, now, mine) = acquire_spin-won i w.lock lk e in
    record {
      held = λ j h. ground (arith, inv.free was j);
      holds = λ j h. ground (arith, inv.holds j);
      free = λ z j h. ground arith;
      one = λ j k h g. ground (arith, inv.free was j, inv.free was k);
    }
Step-Exclusive (leaves {w} i {lk} {c} p e) inv =
    let (now, none_left) = release-free i w.lock (w.cpus i) lk c e in
    record {
      held = λ j h. ground (arith, inv.one i j);
      holds = λ j h. ground arith;
      free = λ z j h. ground (arith, inv.one i j);
      one = λ j k h g. ground (arith, inv.one j k);
    }

-- A new lock, and every processor out.
pub record Starts (w : Machine) : Type 0 where
  pub new : w.lock ≡ initlock
  pub nobody : (i : ℕ) → w.phase i ≡ out

Starts-Exclusive : {w : Machine} → Starts w → Exclusive w
unfolding initlock holding
Starts-Exclusive {w} s = record {
  held = λ i h. absurd (cc (s.nobody i, h));
  holds = λ i h. (let z : false ≡ true = rw s.new at h in cc);
  free = λ z i h. absurd (cc (s.nobody i, h));
  one = λ i j h g. absurd (cc (s.nobody i, h));
}

-- Whatever processors do with a lock through `acquire` and `release`, at most one is between the two
-- at a time, and `holding` tells which.
pub Reach-Exclusive : {w v : Machine} → Starts w → Reach w v → Exclusive v
Reach-Exclusive s here = Starts-Exclusive s
Reach-Exclusive s (next r t) = Step-Exclusive t (Reach-Exclusive s r)
