-- ===== src/Tests/FileTests.antt =====
-- The theorems on files at a concrete process.
use xmu_learning_os.Base.{
  [], arith, first, get_word, if◌then◌else◌, none, ok, refl, some, ℕ, ◌+◌, ◌-◌, ◌<◌, ◌==◌, ◌^◌, ◌≡◌,
}
use xmu_learning_os.File.{Environment, World, fd_inode, filedup}
use xmu_learning_os.Proc.{other}
use xmu_learning_os.Samples.{alone}
use xmu_learning_os.SysFile.{argfd, fdalloc, set_ofile, sys_close, sys_dup}
use xmu_learning_os.SysFile.Descriptors.{duplicated, sys_close-sys_dup}
use xmu_learning_os.Syscall.{Caller, argint, fetchint}
use xmu_learning_os.Tests.FsTests.{disk}

-- The init process has the file 0 open as its descriptor 0.
abbrev with_file : World ℕ
with_file = record {
  ftable = λ i. record {
    kind = fd_inode;
    ref = if i == 0 then 1 else 0;
    readable = 1;
    writable = 1;
    pipe = 0;
    ip = 0;
    off = 0;
  };
  pipes = λ p. record { content = λ k. 0; nread = 0; nwrite = 0; readopen = 0; writeopen = 0 };
  kmem = record { use_lock = 0; memory = λ a. 0; freelist = [] };
  kernel = record alone {
    procs = λ i. record (alone.procs i) { ofile = λ fd. if fd == 0 then some 0 else none };
  };
  fs = disk;
}

-- The log's operations do nothing, and there are no devices.
abbrev no_devices : Environment
no_devices = record {
  begin_transaction = λ s. ok (tt, s);
  end_transaction = λ s. ok (tt, s);
  devsw = record { reader = λ m. none; writer = λ m. none };
  reader = λ p. other p;
  writer = λ p. other (p + 1);
  kernel_end = 4096;
}

-- A caller whose first argument is a number below 256.
abbrev with_arg : ℕ → Caller
with_arg n = record { sz = 4096; esp = 4000; memory = λ a. if a == 4004 then n else 0 }

abbrev after_dup : World ℕ
after_dup = duplicated 0 0 1 with_file

sys_close-sys_dup_example : sys_close 0 no_devices 1 (with_arg 1) after_dup ≡ ok (0, with_file)
unfolding sys_dup fdalloc filedup argfd argint fetchint get_word first set_ofile
sys_close-sys_dup_example =
    sys_close-sys_dup 0 no_devices 1 (with_arg 0) (with_arg 1) with_file after_dup 1 refl
      (omega arith) refl (λ i. few i)
  where
    few : (i : ℕ) → (with_file.ftable i).ref < 2 ^ 31 - 1
    few i = ground arith
