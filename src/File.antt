-- ===== src/File.antt =====
-- Lab/code/file.h, Lab/code/file.c and `pipealloc` of Lab/code/pipe.c: the table of open files over
-- pipes, the page allocator and the file system. A `struct file*` is an index into `ftable`, a pipe
-- is the address of its page. `reader` and `writer` are the addresses that the ends of a pipe sleep
-- on. The log's transactions are an interface (Lab/code/log.c is modelled by its blocks), and so
-- are the drivers in `devsw`.
pub mod PipeAlloc
pub mod Transfer
use xmu_learning_os.Base.{
  Bool, List, M, Option, add32, change, false, first, gets, if◌then◌else◌, none, not, ok, panic_if,
  panicking, pure, slt, some, stopped, sub32, true, update, ℕ, ◌==◌, ◌>>=◌, ◌>>◌,
}
use xmu_learning_os.Fs.{F, Fs}
use xmu_learning_os.Fs.Content.{Devices}
use xmu_learning_os.Fs.Release.{iput}
use xmu_learning_os.Kalloc.{Kmem, kfree}
use xmu_learning_os.Pipe.{Pipe, pipeclose}
use xmu_learning_os.Proc.{Chan, Kernel}

abbrev pub nfile : ℕ
nfile = 100

-- `FD_NONE, FD_PIPE, FD_INODE`
pub data FileKind : Type 0 where
  fd_none fd_pipe fd_inode : FileKind

pub record OpenFile : Type 0 where
  pub kind : FileKind
  pub ref : ℕ
  pub readable : ℕ
  pub writable : ℕ
  pub pipe : ℕ
  pub ip : ℕ
  pub off : ℕ

pub record World (S : Type 0) : Type 0 where
  pub ftable : ℕ → OpenFile
  pub pipes : ℕ → Pipe
  pub kmem : Kmem
  pub kernel : Kernel S
  pub fs : Fs

pub record Environment : Type 0 where
  pub begin_transaction : F (Unit {0})
  pub end_transaction : F (Unit {0})
  pub devsw : Devices
  pub reader : ℕ → Chan
  pub writer : ℕ → Chan
  pub kernel_end : ℕ

-- What a call that may wait comes to: its `int`, or the bytes that it has read, or that it sleeps,
-- with what it has left to write.
pub data Outcome : Type 0 where
  number : ℕ → Outcome
  bytes : List ℕ → Outcome
  sleeps : List ℕ → Outcome

module _ {S : Type 0} where
  abbrev pub put_file : ℕ → OpenFile → M (World S) (Unit {0})
  put_file i f = change λ w. record w { ftable = update w.ftable i f }

  abbrev pub file_at : ℕ → M (World S) OpenFile
  file_at i = gets λ w. w.ftable i

  -- An operation of the file system.
  unfoldable pub in_fs : {A : Type 0} → F A → M (World S) A
  in_fs m w = elim (m w.fs) [ ok (a, s) ↦ ok (a, record w { fs = s }) | stopped e ↦ stopped e ]

  -- `none` is the null pointer.
  unfoldable pub filealloc : M (World S) (Option ℕ)
  filealloc w = elim (first (λ f. f.ref == 0) nfile 0 w.ftable) [
    | none ↦ ok (none, w)
    | some i ↦
        ok (some i, record w { ftable = update w.ftable i (record (w.ftable i) { ref = 1 }) })
  ]

  unfoldable pub filedup : ℕ → M (World S) ℕ
  filedup i = do
    f ← file_at i
    panic_if (slt f.ref 1)
    put_file i (record f { ref = add32 f.ref 1 })
    pure i

  module _ (env : Environment) (pid : ℕ) where
    -- `pipeclose`, with the `kfree` of the pipe's page.
    unfoldable pub close_pipe : ℕ → Bool → M (World S) (Unit {0})
    unfolding pipeclose kfree
    close_pipe p writable w =
        let (freed, v) =
          pipeclose (env.reader p) (env.writer p) writable
            (record { kernel = w.kernel; pipe = w.pipes p }) in
        let w' = record w { kernel = v.kernel; pipes = update w.pipes p v.pipe } in
        if freed
        then elim (kfree env.kernel_end p w.kmem) [
          | none ↦ stopped panicking
          | some m ↦ ok (tt, record w' { kmem = m })
        ]
        else ok (tt, w')

    -- What the last `fileclose` does to what the file was open on.
    unfoldable pub close_kind : OpenFile → M (World S) (Unit {0})
    unfolding close_pipe in_fs iput
    close_kind f = elim f.kind [
      | fd_none ↦ pure tt
      | fd_pipe ↦ close_pipe f.pipe (not (f.writable == 0))
      | fd_inode ↦ in_fs (do env.begin_transaction; iput pid f.ip; env.end_transaction)
    ]

    unfoldable pub fileclose : ℕ → M (World S) (Unit {0})
    unfolding close_kind
    fileclose i = do
      f ← file_at i
      panic_if (slt f.ref 1)
      elim (slt 0 (sub32 f.ref 1)) [
        | true ↦ put_file i (record f { ref = sub32 f.ref 1 })
        | false ↦ (do put_file i (record f { ref = 0; kind = fd_none }); close_kind f)
      ]
