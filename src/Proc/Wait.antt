-- ===== src/Proc/Wait.antt =====
-- Lab/code/proc.c: `wait`, `wait2` and `join`. Each is a loop of rounds under `ptable.lock`; a
-- round passes over the table and returns, or puts the caller to sleep on itself.
use xmu_learning_os.Base.{
  Bool, false, if◌then◌else◌, none, not, some, suc, true, update, zero, ℕ, ◌&&◌, ◌+◌, ◌==◌, ◌||◌,
}
use xmu_learning_os.Proc.{Kernel, Proc, is_zombie, nproc, proc_at, same_ref, unused}
use xmu_learning_os.Proc.Sleep.{sleep}
use xmu_learning_os.Services.{Services}

-- What a pass over the table finds.
pub data Scan : Type 0 where
  exited : ℕ → Scan
  havekids : Bool → Scan

-- The `for` loop of all three: `child` is the test that `continue` skips by.
unfoldable pub scan : (Proc → Bool) → ℕ → ℕ → Bool → (ℕ → Proc) → Scan
scan child zero i kids t = havekids kids
scan child (suc n) i kids t = elim (child (t i)) [
  | false ↦ scan child n (i + 1) kids t
  | true ↦ elim (is_zombie (t i).state) [ true ↦ exited i | false ↦ scan child n (i + 1) true t ]
]

-- The outcome of a round, with what the caller is given.
pub data Round (R : Type 0) : Type 0 where
  returns : R → Round R
  fails : Round R
  waits : Round R

abbrev pub is_child : ℕ → Proc → Bool
is_child cur p = same_ref p.parent (some cur)

abbrev pub is_thread_child : ℕ → Proc → Bool
is_thread_child cur p = same_ref p.parent (some cur) && p.isthread == 1

-- The fields that `wait` and `join` reset.
unfoldable pub reset : Proc → Proc
reset p = record p {
  kstack = 0;
  pid = 0;
  parent = none;
  name = update p.name 0 0;
  killed = 0;
  state = unused;
}

-- `wait2` resets the statistics too.
unfoldable pub reset_all : Proc → Proc
unfolding reset
reset_all p = record (reset p) { ctime = 0; retime = 0; rutime = 0; stime = 0; priority = 0 }

-- The value and what goes out through `*retime`, `*rutime` and `*stime`.
pub record Times : Type 0 where
  pub pid : ℕ
  pub retime : ℕ
  pub rutime : ℕ
  pub stime : ℕ

-- The value of `join` and what goes out through `*stack`.
pub record Joined : Type 0 where
  pub pid : ℕ
  pub stack : ℕ

module _ (V : Services) where
  -- Where no child has exited: fail, or sleep on the caller.
  unfoldable pub no_zombie : {R : Type 0} → ℕ → Bool → Kernel V.St → Round R × Kernel V.St
  no_zombie cur kids k =
      if not kids || not ((k.procs cur).killed == 0)
      then (fails, k)
      else (waits, sleep cur (proc_at cur) k)

  unfoldable pub wait_round : ℕ → Kernel V.St → Round ℕ × Kernel V.St
  wait_round cur k = elim (scan (is_child cur) nproc 0 false k.procs) [
    | havekids kids ↦ no_zombie cur kids k
    | exited i ↦
        let p = k.procs i in
        (
          returns p.pid,
          record k {
            sv = V.freevm p.pgdir (V.kfree p.kstack k.sv);
            procs = update k.procs i (reset p);
          },
        )
  ]

  unfoldable pub wait2_round : ℕ → Kernel V.St → Round Times × Kernel V.St
  wait2_round cur k = elim (scan (is_child cur) nproc 0 false k.procs) [
    | havekids kids ↦ no_zombie cur kids k
    | exited i ↦
        let p = k.procs i in
        (
          returns (record { pid = p.pid; retime = p.retime; rutime = p.rutime; stime = p.stime }),
          record k {
            sv = V.freevm p.pgdir (V.kfree p.kstack k.sv);
            procs = update k.procs i (reset_all p);
          },
        )
  ]

  unfoldable pub join_round : ℕ → Kernel V.St → Round Joined × Kernel V.St
  join_round cur k = elim (scan (is_thread_child cur) nproc 0 false k.procs) [
    | havekids kids ↦ no_zombie cur kids k
    | exited i ↦
        let p = k.procs i in
        (
          returns (record { pid = p.pid; stack = p.stack }),
          record k { sv = V.kfree p.kstack k.sv; procs = update k.procs i (reset p) },
        )
  ]
