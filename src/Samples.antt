-- ===== src/Samples.antt =====
-- Concrete kernels for the tests: a page allocator that counts its pages, and small tables.
use xmu_learning_os.Base.{[], if◌then◌else◌, ltb, none, some, update, ℕ, ◌*◌, ◌+◌}
use xmu_learning_os.Proc.{Kernel, Proc, null, proc_at, runnable, running, sleeping, unused, zombie}
use xmu_learning_os.Services.{Services}

-- The state is the number of pages handed out; there are eight.
abbrev pub plain : Services
plain = record {
  St = ℕ;
  kalloc = λ n. if ltb n 8 then ((n + 1) * 4096, n + 1) else (0, n);
  kfree = λ v n. n;
  copyuvm = λ pgdir sz n. if ltb n 8 then ((n + 1) * 4096, n + 1) else (0, n);
  freevm = λ pgdir n. n;
  allocuvm = λ pgdir old new n. (new, n);
  deallocuvm = λ pgdir old new n. (new, n);
  filedup = λ f n. n;
  fileclose = λ f n. n;
  idup = λ ip n. n;
  iput = λ ip n. n;
  begin_op = λ n. n;
  end_op = λ n. n;
}

abbrev pub blank : Proc
blank = record {
  sz = 0;
  pgdir = 0;
  kstack = 0;
  state = unused;
  pid = 0;
  priority = 0;
  parent = none;
  tf = record { eax = 7; ebp = 0; esp = 0; eip = 0; others = [] };
  context = record { edi = 0; esi = 0; ebx = 0; ebp = 0; eip = 0 };
  chan = null;
  killed = 0;
  ofile = λ i. none;
  cwd = 1;
  name = λ i. 0;
  isthread = 0;
  stack = 0;
  ctime = 0;
  stime = 0;
  retime = 0;
  rutime = 0;
}

-- The init process runs alone.
abbrev pub alone : Kernel ℕ
alone = record {
  procs = update (λ i. blank) 0 (record blank { state = running; pid = 1; sz = 4096 });
  nextpid = 2;
  ticks = 5;
  initproc = some 0;
  sv = 0;
}

-- The init process sleeps in `wait`, and its child runs.
abbrev pub family : Kernel ℕ
family = record alone {
  procs =
      update (update (λ i. blank) 0 (record blank { state = sleeping; pid = 1; chan = proc_at 0 }))
        1 (record blank { state = running; pid = 2; parent = some 0 });
  nextpid = 3;
}

-- The child has exited, and the init process runs.
abbrev pub bereft : Kernel ℕ
bereft = record family {
  procs =
      update (update (λ i. blank) 0 (record blank { state = running; pid = 1 })) 1
        (record blank { state = zombie; pid = 2; parent = some 0 });
}

-- Three runnable processes.
abbrev pub busy : ℕ → Proc
busy =
    update
      (update (update (λ i. blank) 3 (record blank { state = runnable; priority = 10; ctime = 4 }))
        5 (record blank { state = runnable; priority = 2; ctime = 9 }))
      9 (record blank { state = runnable; priority = 20; ctime = 1 })
