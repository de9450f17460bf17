-- ===== src/Proc.antt =====
-- Lab/code/proc.h and the data of Lab/code/proc.c: processes, the process table and the kernel's
-- state. A `struct proc*` is an index into the table, and the null pointer is `none`.
pub mod Abandoned
pub mod Alloc
pub mod Create
pub mod Exit
pub mod Files
pub mod Fork
pub mod Listing
pub mod Pids
pub mod Reap
pub mod Scanning
pub mod Sleep
pub mod System
pub mod Table
pub mod Tame
pub mod Unique
pub mod Wait
pub mod Waiting
use xmu_learning_os.Base.{Bool, List, Option, false, none, some, true, ℕ, ◌==◌}

pub data State : Type 0 where
  unused embryo sleeping runnable running zombie : State

-- Where a process sleeps: no channel, a process, a semaphore, or another address.
pub data Chan : Type 0 where
  null : Chan
  proc_at : ℕ → Chan
  sema_at : ℕ → Chan
  other : ℕ → Chan

-- The registers of a trap frame that process management writes; the rest is copied whole.
pub record Trapframe : Type 0 where
  pub eax : ℕ
  pub ebp : ℕ
  pub esp : ℕ
  pub eip : ℕ
  pub others : List ℕ

pub record Context : Type 0 where
  pub edi : ℕ
  pub esi : ℕ
  pub ebx : ℕ
  pub ebp : ℕ
  pub eip : ℕ

pub record Proc : Type 0 where
  pub sz : ℕ
  pub pgdir : ℕ
  pub kstack : ℕ
  pub state : State
  pub pid : ℕ
  pub priority : ℕ
  pub parent : Option ℕ
  pub tf : Trapframe
  pub context : Context
  pub chan : Chan
  pub killed : ℕ
  pub ofile : ℕ → Option ℕ
  pub cwd : ℕ
  pub name : ℕ → ℕ
  pub isthread : ℕ
  pub stack : ℕ
  pub ctime : ℕ
  pub stime : ℕ
  pub retime : ℕ
  pub rutime : ℕ

-- The process table, the pid counter, the clock, the init process, and the state of the services.
pub record Kernel (S : Type 0) : Type 0 where
  pub procs : ℕ → Proc
  pub nextpid : ℕ
  pub ticks : ℕ
  pub initproc : Option ℕ
  pub sv : S

abbrev pub nproc : ℕ
nproc = 64

abbrev pub nofile : ℕ
nofile = 16

-- `p->state == s`
abbrev pub is_unused : State → Bool
is_unused unused = true
is_unused _ = false

abbrev pub is_sleeping : State → Bool
is_sleeping sleeping = true
is_sleeping _ = false

abbrev pub is_runnable : State → Bool
is_runnable runnable = true
is_runnable _ = false

abbrev pub is_running : State → Bool
is_running running = true
is_running _ = false

abbrev pub is_zombie : State → Bool
is_zombie zombie = true
is_zombie _ = false

-- `p == q` on pointers to processes.
abbrev pub same_ref : Option ℕ → Option ℕ → Bool
same_ref none none = true
same_ref (some a) (some b) = a == b
same_ref _ _ = false

-- `p->chan == chan`
abbrev pub same_chan : Chan → Chan → Bool
same_chan null null = true
same_chan (proc_at a) (proc_at b) = a == b
same_chan (sema_at a) (sema_at b) = a == b
same_chan (other a) (other b) = a == b
same_chan _ _ = false

-- A pointer to a process as a channel.
abbrev pub chan_of : Option ℕ → Chan
chan_of none = null
chan_of (some i) = proc_at i
