-- ===== src/Spinlock.antt =====
-- Lab/code/spinlock.c, with `ncli` and `intena` of `struct cpu` in Lab/code/proc.h. A processor is
-- its index, `interrupts` is its flag FL_IF. The debugging fields `name` and `pcs` are left out.
pub mod Exclusion
pub mod Nesting
use xmu_learning_os.Base.{
  Bool, Option, add32, false, if◌then◌else◌, none, not, slt, some, sub32, ℕ, ◌&&◌, ◌==◌, ◌||◌,
}

pub record Cpu : Type 0 where
  pub interrupts : Bool
  pub ncli : ℕ
  pub intena : Bool

-- `lk->cpu` is `none` where it is null.
pub record Spinlock : Type 0 where
  pub locked : ℕ
  pub cpu : Option ℕ

unfoldable pub initlock : Spinlock
initlock = record { locked = 0; cpu = none }

unfoldable pub pushcli : Cpu → Cpu
pushcli c = record {
  interrupts = false;
  ncli = add32 c.ncli 1;
  intena = if c.ncli == 0 then c.interrupts else c.intena;
}

-- `none` is a panic.
unfoldable pub popcli : Cpu → Option Cpu
popcli c =
    let n = sub32 c.ncli 1 in
    if c.interrupts || slt n 0
    then none
    else some (record c { ncli = n; interrupts = (n == 0) && c.intena })

abbrev pub is_cpu : Option ℕ → ℕ → Bool
is_cpu none i = false
is_cpu (some j) i = j == i

unfoldable pub holding : ℕ → Spinlock → Bool
holding i lk = not (lk.locked == 0) && is_cpu lk.cpu i

-- `acquire` up to the loop, and one round of the loop. The round that wins has the store to
-- `lk->cpu` in it, which is a later one: between the two `lk->cpu` is null.
unfoldable pub acquire_start : ℕ → Spinlock → Cpu → Option Cpu
unfolding holding pushcli
acquire_start i lk c = if holding i lk then none else some (pushcli c)

unfoldable pub acquire_spin : ℕ → Spinlock → Option Spinlock
acquire_spin i lk = if lk.locked == 0 then some (record { locked = 1; cpu = some i }) else none

-- The stores to `lk->cpu` and `lk->locked` are one step, so their order is not modelled.
unfoldable pub release : ℕ → Spinlock → Cpu → Option (Spinlock × Cpu)
unfolding holding popcli
release i lk c =
    if not (holding i lk)
    then none
    else elim (popcli c) [ none ↦ none | some c' ↦ some (record { locked = 0; cpu = none }, c') ]
