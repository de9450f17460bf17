-- ===== src/SysProc.antt =====
-- Lab/code/sysproc.c, with `syscall` of Lab/code/syscall.c: the system calls on processes, over the
-- kernel of Lab/code/proc.c. `cur` is the calling process and `c` its arguments and memory. What a
-- call writes to the user's memory is part of its result. A call that may sleep is a round.
pub mod Trap
use xmu_learning_os.Base.{
  List, Option, if◌then◌else◌, ltb, minus_one, none, not, slt, some, sub32, update, ℕ, ◌%◌, ◌&&◌,
  ◌*◌, ◌==◌, ◌^◌,
}
use xmu_learning_os.Printf.{arg}
use xmu_learning_os.Proc.{Chan, Kernel}
use xmu_learning_os.Proc.Alloc.{clone, fork, growproc}
use xmu_learning_os.Proc.Sleep.{kill, setpriority, sleep, yield}
use xmu_learning_os.Proc.Table.{Entry, entry_size, getptable}
use xmu_learning_os.Proc.Wait.{
  Joined, Round, Times, fails, join_round, returns, wait2_round, wait_round, waits,
}
use xmu_learning_os.Sched.Select.{Selection, getscheduler, setscheduler}
use xmu_learning_os.Sema.{World, sem_destroy, sem_init, sem_signal, sem_wait_round}
use xmu_learning_os.Services.{Services}
use xmu_learning_os.Syscall.{Caller, argint, argptr}
use xmu_learning_os.Vm.{V}

-- `NELEM(syscalls)`
abbrev pub nelem_syscalls : ℕ
nelem_syscalls = 35

-- `syscall`: the number is in `eax`, and so is the result. `syscalls` is the table.
unfoldable pub syscall :
    {S : Type 0} → (ℕ → Option (Kernel S → ℕ × Kernel S)) → ℕ → Kernel S → Kernel S
syscall syscalls cur k =
    let num = (k.procs cur).tf.eax in
    let (result, k') =
      call (if slt 0 num && slt num nelem_syscalls then syscalls num else none) k in
    let p = k'.procs cur in
    record k' { procs = update k'.procs cur (record p { tf = record (p.tf) { eax = result } }) }
  where
    call : {S : Type 0} → Option (Kernel S → ℕ × Kernel S) → Kernel S → ℕ × Kernel S
    call none k = (minus_one, k)
    call (some f) k = f k

-- One argument, and two: -1 where they cannot be fetched.
abbrev pub with_one : {A : Type 0} → Caller → A → (ℕ → A) → A
with_one c fail f = elim (argint 0 c) [ none ↦ fail | some a ↦ f a ]

abbrev pub with_two : {A : Type 0} → Caller → A → (ℕ → ℕ → A) → A
with_two c fail f = elim (argint 0 c) [
  | none ↦ fail
  | some a ↦ elim (argint 1 c) [ none ↦ fail | some b ↦ f a b ]
]

module _ {S : Type 0} (cur : ℕ) where
  unfoldable pub sys_kill : Caller → Kernel S → ℕ × Kernel S
  unfolding argint kill
  sys_kill c k = with_one c (minus_one, k) λ pid. kill pid k

  unfoldable pub sys_getpid : Kernel S → ℕ
  sys_getpid k = (k.procs cur).pid

  -- `none` where there is no parent to read.
  unfoldable pub sys_getppid : Kernel S → Option ℕ
  sys_getppid k = elim (k.procs cur).parent [ none ↦ none | some i ↦ some (k.procs i).pid ]

  unfoldable pub sys_uptime : Kernel S → ℕ
  sys_uptime k = k.ticks

  -- `sleep`: the clock where it starts, and a round of its loop. `channel` is `&ticks`.
  unfoldable pub sys_sleep_round : Chan → ℕ → ℕ → Kernel S → Round ℕ × Kernel S
  unfolding sleep
  sys_sleep_round channel n ticks0 k =
      if ltb (sub32 k.ticks ticks0) n
      then if not ((k.procs cur).killed == 0) then (fails, k) else (waits, sleep cur channel k)
      else (returns 0, k)

  unfoldable pub sys_setpriority : Caller → Kernel S → ℕ × Kernel S
  unfolding argint setpriority
  sys_setpriority c k = with_two c (minus_one, k) λ pid priority. setpriority pid priority k

  unfoldable pub sys_getptable : Caller → Kernel S → Option (List Entry)
  unfolding argint argptr getptable
  sys_getptable c k = with_two c none λ n size. elim (argptr 2 size c) [
    | none ↦ none
    | some buffer ↦ if size == n * entry_size % 2 ^ 32 then getptable n size buffer k else none
  ]

  unfoldable pub sys_yield : Kernel S → ℕ × Kernel S
  unfolding yield
  sys_yield k = (0, yield cur k)

  -- Semaphores, and a round of `sem_wait`.
  unfoldable pub sys_sem_init : Caller → World S → ℕ × World S
  unfolding argint sem_init
  sys_sem_init c w = with_two c (minus_one, w) λ sem value. sem_init sem value w

  unfoldable pub sys_sem_destroy : Caller → World S → ℕ × World S
  unfolding argint sem_destroy
  sys_sem_destroy c w = with_one c (minus_one, w) λ sem. sem_destroy sem w

  unfoldable pub sys_sem_wait_round : Caller → World S → Round ℕ × World S
  unfolding argint sem_wait_round
  sys_sem_wait_round c w = with_two c (fails, w) λ sem count. sem_wait_round cur sem count w

  unfoldable pub sys_sem_signal : Caller → World S → ℕ × World S
  unfolding argint sem_signal
  sys_sem_signal c w = with_two c (minus_one, w) λ sem count. sem_signal sem count w

unfoldable pub sys_getscheduler : Selection → ℕ
unfolding getscheduler
sys_getscheduler s = getscheduler s

unfoldable pub sys_setscheduler : Caller → Selection → ℕ × Selection
unfolding argint setscheduler
sys_setscheduler c s = with_one c (minus_one, s) λ sid. setscheduler sid s

module _ (V : Services) (forkret cur : ℕ) where
  unfoldable pub sys_fork : Kernel V.St → ℕ × Kernel V.St
  unfolding fork
  sys_fork k = fork V forkret cur k

  unfoldable pub sys_sbrk : Caller → Kernel V.St → ℕ × Kernel V.St
  unfolding argint growproc
  sys_sbrk c k =
      with_one c (minus_one, k)
        λ n.
          let addr = (k.procs cur).sz in
          let (r, k') = growproc V forkret cur n k in
          if slt r 0 then (minus_one, k') else (addr, k')

  -- The address of the stack is not checked.
  unfoldable pub sys_clone : (ℕ → ℕ → V.St → V.St) → Caller → Kernel V.St → ℕ × Kernel V.St
  unfolding argint clone
  sys_clone poke c k =
      with_two c (minus_one, k)
        λ func arg. elim (argint 2 c) [
          | none ↦ (minus_one, k)
          | some stack ↦ clone V forkret poke cur func arg stack k
        ]

  unfoldable pub sys_wait_round : Kernel V.St → Round ℕ × Kernel V.St
  unfolding wait_round
  sys_wait_round k = wait_round V cur k

  -- A result with where `join` writes the stack's address: any argument.
  unfoldable pub sys_join_round : Caller → Kernel V.St → (ℕ × Round Joined) × Kernel V.St
  unfolding argint join_round
  sys_join_round c k =
      with_one c ((0, fails), k) λ at_stack. let (r, k') = join_round V cur k in ((at_stack, r), k')

  -- The three places that `wait2` writes must be in the caller's memory.
  unfoldable pub sys_wait2_round : Caller → Kernel V.St → Round Times × Kernel V.St
  unfolding argptr wait2_round
  sys_wait2_round c k = elim (argptr 0 4 c) [
    | none ↦ (fails, k)
    | some a ↦ elim (argptr 1 4 c) [
      | none ↦ (fails, k)
      | some b ↦ elim (argptr 2 4 c) [ none ↦ (fails, k) | some d ↦ wait2_round V cur k ]
    ]
  ]
