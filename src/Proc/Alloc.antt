-- ===== src/Proc/Alloc.antt =====
-- Lab/code/proc.c: `allocproc`, `userinit`, `growproc`, `fork` and `clone`. Machine code addresses
-- (`forkret`) and the image of the first program are parameters.
use xmu_learning_os.Base.{
  Bool, Option, add32, first, if◌then◌else◌, minus_one, none, slt, some, suc, update, zero, ℕ, ◌-◌,
  ◌==◌,
}
use xmu_learning_os.Proc.{Context, Kernel, Proc, embryo, is_unused, nofile, nproc, runnable, unused}
use xmu_learning_os.Services.{Services}
use xmu_learning_os.Str.{safestrcpy}

abbrev pub pgsize : ℕ
pgsize = 4096

abbrev pub is_free : Proc → Bool
is_free p = is_unused p.state

-- The slot as `allocproc` leaves it before it asks for a stack.
unfoldable pub embryo_of : ℕ → ℕ → Proc → Proc
embryo_of pid now p = record p {
  state = embryo;
  priority = 10;
  pid = pid;
  ctime = now;
  retime = 0;
  rutime = 0;
  stime = 0;
}

abbrev pub start_context : ℕ → Context
start_context forkret = record { edi = 0; esi = 0; ebx = 0; ebp = 0; eip = forkret }

module _ (V : Services) (forkret : ℕ) where
  -- The stack and the context, or the slot given back.
  unfoldable pub alloc_stack : ℕ → Kernel V.St → Option ℕ × Kernel V.St
  alloc_stack i k =
      let (page, sv) = V.kalloc k.sv in
      let p = record (k.procs i) { kstack = page } in
      if page == 0
      then (none, record k { sv = sv; procs = update k.procs i (record p { state = unused }) })
      else (
        some i,
        record k {
          sv = sv;
          procs = update k.procs i (record p { context = start_context forkret });
        },
      )

  unfoldable pub allocproc : Kernel V.St → Option ℕ × Kernel V.St
  allocproc k = elim (first is_free nproc 0 k.procs) [
    | none ↦ (none, k)
    | some i ↦ alloc_stack i (record k {
      procs = update k.procs i (embryo_of k.nextpid k.ticks (k.procs i));
      nextpid = add32 k.nextpid 1;
    })
  ]

  -- `for(i = 0; i < NOFILE; i++) if(curproc->ofile[i]) np->ofile[i] = filedup(curproc->ofile[i]);`
  unfoldable pub dup_files : ℕ → (ℕ → Option ℕ) → (ℕ → Option ℕ) → V.St → (ℕ → Option ℕ) × V.St
  dup_files zero from to sv = (to, sv)
  dup_files (suc n) from to sv =
      let (to', sv') = dup_files n from to sv in
      elim (from n) [ none ↦ (to', sv') | some f ↦ (update to' n (some f), V.filedup f sv') ]

  -- `fork` from the copied page table on.
  unfoldable pub fork_into : ℕ → ℕ → ℕ → Kernel V.St → ℕ × Kernel V.St
  fork_into cur i pgdir k =
      let c = k.procs cur in
      let p = k.procs i in
      let (files, sv) = dup_files nofile c.ofile p.ofile k.sv in
      let child : Proc = record p {
        pgdir = pgdir;
        sz = c.sz;
        parent = some cur;
        tf = record (c.tf) { eax = 0 };
        ofile = files;
        cwd = c.cwd;
        name = safestrcpy p.name c.name 16;
        state = runnable;
      } in
      (p.pid, record k { sv = V.idup c.cwd sv; procs = update k.procs i child })

  unfoldable pub fork_copy : ℕ → ℕ → Kernel V.St → ℕ × Kernel V.St
  fork_copy cur i k =
      let c = k.procs cur in
      let (pgdir, sv) = V.copyuvm c.pgdir c.sz k.sv in
      let p = k.procs i in
      if pgdir == 0
      then (
        minus_one,
        record k {
          sv = V.kfree p.kstack sv;
          procs = update k.procs i (record p { pgdir = 0; kstack = 0; state = unused });
        },
      )
      else fork_into cur i pgdir (record k { sv = sv })

  unfoldable pub fork : ℕ → Kernel V.St → ℕ × Kernel V.St
  fork cur k =
      let (slot, k') = allocproc k in
      elim slot [ none ↦ (minus_one, k') | some i ↦ fork_copy cur i k' ]

  -- `clone` after the allocation: the thread shares the page table of its creator. The two words
  -- that it writes into the user stack are the effect `poke` on the services' state.
  unfoldable pub clone_into :
      (ℕ → ℕ → V.St → V.St) → ℕ → ℕ → ℕ → ℕ → ℕ → Kernel V.St → ℕ × Kernel V.St
  clone_into poke cur i func arg stack k =
      let c = k.procs cur in
      let p = k.procs i in
      let sv' =
        poke (add32 stack (pgsize - 4)) arg (poke (add32 stack (pgsize - 8)) minus_one k.sv) in
      let (files, sv) = dup_files nofile c.ofile p.ofile sv' in
      let top = add32 stack (pgsize - 8) in
      let child : Proc = record p {
        pgdir = c.pgdir;
        sz = c.sz;
        parent = some cur;
        tf = record (c.tf) { eax = 0; eip = func; esp = top; ebp = top };
        stack = stack;
        isthread = 1;
        ofile = files;
        cwd = c.cwd;
        name = safestrcpy p.name c.name 16;
        state = runnable;
      } in
      (p.pid, record k { sv = V.idup c.cwd sv; procs = update k.procs i child })

  unfoldable pub clone : (ℕ → ℕ → V.St → V.St) → ℕ → ℕ → ℕ → ℕ → Kernel V.St → ℕ × Kernel V.St
  clone poke cur func arg stack k =
      let (slot, k') = allocproc k in
      elim slot [ none ↦ (minus_one, k') | some i ↦ clone_into poke cur i func arg stack k' ]

  -- `growproc`: the size moves only when the page table was changed.
  unfoldable pub resize : ℕ → ℕ × V.St → Kernel V.St → ℕ × Kernel V.St
  resize cur (sz, sv) k =
      if sz == 0
      then (minus_one, record k { sv = sv })
      else (0, record k { sv = sv; procs = update k.procs cur (record (k.procs cur) { sz = sz }) })

  unfoldable pub growproc : ℕ → ℕ → Kernel V.St → ℕ × Kernel V.St
  growproc cur n k =
      let p = k.procs cur in
      let new = add32 p.sz n in
      if slt 0 n
      then resize cur (V.allocuvm p.pgdir p.sz new k.sv) k
      else if slt n 0
      then resize cur (V.deallocuvm p.pgdir p.sz new k.sv) k
      else (0, k)
