-- ===== src/Proc/Table.antt =====
-- Lab/code/proc.c: `getptable`, `userinit`, `mycpu` and the checks of `sched`; Lab/code/proc.h:
-- `struct proc_us`.
use xmu_learning_os.Base.{
  Bool, List, Option, [], add32, first, get_or, if◌then◌else◌, minus_one, none, not, slt, some, suc,
  update, zero, ℕ, ◌&&◌, ◌*◌, ◌+◌, ◌==◌, ◌||◌, ◌∷◌,
}
use xmu_learning_os.Proc.{Kernel, Proc, State, is_running, is_unused, nproc, runnable}
use xmu_learning_os.Proc.Alloc.{allocproc, pgsize}
use xmu_learning_os.Services.{Services}
use xmu_learning_os.Spinlock.{Cpu, Spinlock, holding}
use xmu_learning_os.Str.{safestrcpy}

-- `struct proc_us`
pub record Entry : Type 0 where
  pub sz : ℕ
  pub state : State
  pub pid : ℕ
  pub ppid : ℕ
  pub priority : ℕ
  pub name : ℕ → ℕ
  pub ctime : ℕ
  pub stime : ℕ
  pub retime : ℕ
  pub rutime : ℕ

-- `sizeof(struct proc_us)`
abbrev pub entry_size : ℕ
entry_size = 52

abbrev pub pid_of : (ℕ → Proc) → Option ℕ → ℕ
pid_of t none = minus_one
pid_of t (some i) = (t i).pid

abbrev pub entry_of : (ℕ → Proc) → Proc → Entry
entry_of t p = record {
  sz = p.sz;
  state = p.state;
  pid = p.pid;
  ppid = pid_of t p.parent;
  priority = p.priority;
  name = p.name;
  ctime = p.ctime;
  stime = p.stime;
  retime = p.retime;
  rutime = p.rutime;
}

-- The loop of `getptable`: `r` processes from `p` on are left, and `i` entries are filled.
unfoldable pub table_from : ℕ → ℕ → (ℕ → Proc) → ℕ → ℕ → ℕ → List Entry
table_from nproc' size t zero p i = []
table_from nproc' size t (suc r) p i =
    let skip = table_from nproc' size t r (p + 1) i in
    let rest = table_from nproc' size t r (p + 1) (i + 1) in
    if slt i nproc' && slt (add32 (entry_size * i) entry_size) size
    then if is_unused (t p).state then skip else entry_of t (t p) ∷ rest
    else []

-- The entries that the buffer gets, or `none` for -1.
unfoldable pub getptable : {S : Type 0} → ℕ → ℕ → ℕ → Kernel S → Option (List Entry)
unfolding table_from
getptable nproc' size buffer k =
    if buffer == 0 then none else some (table_from nproc' size k.procs nproc 0 0)

-- `mycpu`: `apicid` has the processors' identifiers. `none` is a panic.
unfoldable pub mycpu : ℕ → (ℕ → ℕ) → ℕ → Cpu → Option ℕ
mycpu ncpu apicid lapicid c = if c.interrupts then none else first (λ a. a == lapicid) ncpu 0 apicid

-- `sched` up to `swtch`: whether it panics.
unfoldable pub sched_panics : ℕ → Spinlock → Cpu → Proc → Bool
unfolding holding
sched_panics i lk c p =
    not (holding i lk) || not (c.ncli == 1) || is_running p.state || c.interrupts

-- The registers of `userinit` beside `esp` and `eip`: `cs`, `ds`, `es`, `ss`, `eflags`.
abbrev pub user_registers : List ℕ
user_registers = 27 ∷ 35 ∷ 35 ∷ 35 ∷ 512 ∷ []

-- "initcode"
abbrev pub initcode_name : ℕ → ℕ
initcode_name k = get_or (105 ∷ 110 ∷ 105 ∷ 116 ∷ 99 ∷ 111 ∷ 100 ∷ 101 ∷ []) k 0

-- `userinit`: `setupkvm`, `inituvm` of the first program, and `namei("/")` are parameters. `none` is a
-- panic, or a table without a free slot.
unfoldable pub userinit :
    (V : Services)
    → ℕ
    → (V.St → ℕ × V.St)
    → (ℕ → V.St → V.St)
    → (V.St → ℕ × V.St)
    → Kernel V.St
    → Option (Kernel V.St)
unfolding allocproc safestrcpy
userinit V forkret setup load root k =
    let (slot, k1) = allocproc V forkret k in
    elim slot [
      | none ↦ none
      | some i ↦
          let (pgdir, sv1) = setup k1.sv in
          let (cwd, sv2) = root (load pgdir sv1) in
          let p = k1.procs i in
          let p' : Proc = record p {
            pgdir = pgdir;
            sz = pgsize;
            tf = record { eax = 0; ebp = 0; esp = pgsize; eip = 0; others = user_registers };
            name = safestrcpy p.name initcode_name 16;
            cwd = cwd;
            state = runnable;
          } in
          if pgdir == 0
          then none
          else some (record k1 { sv = sv2; initproc = some i; procs = update k1.procs i p' })
    ]
