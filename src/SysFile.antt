-- ===== src/SysFile.antt =====
-- Lab/code/sysfile.c: the system calls on files. `cur` is the process, `pid` its number and `c` its
-- arguments and memory; what a call writes to the user's memory is part of its result. This file
-- has the file descriptors: `argfd`, `fdalloc`, `dup`, `read`, `write`, `close`, `fstat`, `pipe`.
pub mod Descriptors
pub mod Links
pub mod Open
pub mod Paths
use xmu_learning_os.Base.{
  Bool, M, Option, bytes_at, change, false, first, gets, minus_one, none, not, ok, pure, slt, some,
  true, update, ℕ, ◌>>=◌, ◌>>◌, ◌||◌,
}
use xmu_learning_os.File.{Environment, Outcome, World, fileclose, filedup, number}
use xmu_learning_os.File.PipeAlloc.{pipealloc}
use xmu_learning_os.File.Transfer.{fileread, filestat, filewrite}
use xmu_learning_os.Fs.Content.{Stat}
use xmu_learning_os.Proc.{nofile}
use xmu_learning_os.Syscall.{Caller, argint, argptr}

abbrev pub is_free : Option ℕ → Bool
is_free none = true
is_free (some f) = false

-- `sizeof(struct stat)`
abbrev pub stat_size : ℕ
stat_size = 20

module _ {S : Type 0} (cur : ℕ) where
  -- `myproc()->ofile[fd] = f;`
  unfoldable pub set_ofile : ℕ → Option ℕ → World S → World S
  set_ofile fd f w =
      let k = w.kernel in
      let p = k.procs cur in
      let p' = record p { ofile = update p.ofile fd f } in
      record w { kernel = record k { procs = update k.procs cur p' } }

  -- The descriptor and the file.
  unfoldable pub argfd : ℕ → Caller → World S → Option (ℕ × ℕ)
  unfolding argint
  argfd n c w = elim (argint n c) [
    | none ↦ none
    | some fd ↦ elim (slt fd 0 || not (slt fd nofile)) [
      | true ↦ none
      | false ↦ elim ((w.kernel.procs cur).ofile fd) [ none ↦ none | some f ↦ some (fd, f) ]
    ]
  ]

  unfoldable pub fdalloc : ℕ → M (World S) (Option ℕ)
  unfolding set_ofile
  fdalloc f w = elim (first is_free nofile 0 (w.kernel.procs cur).ofile) [
    | none ↦ ok (none, w)
    | some fd ↦ ok (some fd, set_ofile fd (some f) w)
  ]

  -- The end of `dup`, with what `fdalloc` returned, and `dup` of the file `f`.
  unfoldable pub dup_to : ℕ → Option ℕ → M (World S) ℕ
  unfolding filedup
  dup_to f none = pure minus_one
  dup_to f (some fd) = filedup f >>= λ i. pure fd

  unfoldable pub dup_file : ℕ → M (World S) ℕ
  unfolding fdalloc dup_to
  dup_file f = fdalloc f >>= dup_to f

  unfoldable pub sys_dup : Caller → M (World S) ℕ
  unfolding argfd dup_file
  sys_dup c = do
    arg ← gets (argfd 0 c)
    elim arg [ none ↦ pure minus_one | some (old, f) ↦ dup_file f ]

  -- The file, the address and the size of `read` and `write`.
  unfoldable pub transfer_args : Caller → World S → Option (ℕ × ℕ × ℕ)
  unfolding argfd argint argptr
  transfer_args c w = elim (argfd 0 c w) [
    | none ↦ none
    | some (fd, f) ↦ elim (argint 2 c) [
      | none ↦ none
      | some n ↦ elim (argptr 1 n c) [ none ↦ none | some p ↦ some (f, p, n) ]
    ]
  ]

  module _ (env : Environment) (pid : ℕ) where
    unfoldable pub sys_read : Caller → M (World S) Outcome
    unfolding transfer_args fileread
    sys_read c = do
      arg ← gets (transfer_args c)
      elim arg [ none ↦ pure (number minus_one) | some (f, p, n) ↦ fileread env pid cur f n ]

    unfoldable pub sys_write : Caller → M (World S) Outcome
    unfolding transfer_args filewrite
    sys_write c = do
      arg ← gets (transfer_args c)
      elim arg [
        | none ↦ pure (number minus_one)
        | some (f, p, n) ↦ filewrite env pid cur f (bytes_at c.memory p n)
      ]

    unfoldable pub sys_close : Caller → M (World S) ℕ
    unfolding argfd set_ofile fileclose
    sys_close c = do
      arg ← gets (argfd 0 c)
      elim arg [
        | none ↦ pure minus_one
        | some (fd, f) ↦ (do change (set_ofile fd none); fileclose env pid f; pure 0)
      ]

    -- The metadata with the result 0, or `none` for -1.
    unfoldable pub sys_fstat : Caller → M (World S) (Option Stat)
    unfolding argfd argptr filestat
    sys_fstat c = do
      arg ← gets (argfd 0 c)
      elim arg [
        | none ↦ pure none
        | some (fd, f) ↦ elim (argptr 1 stat_size c) [
          | none ↦ pure none
          | some st ↦ filestat env pid cur f
        ]
      ]

    -- `pipe` once `pipealloc` has succeeded: both descriptors.
    unfoldable pub pipe_descriptors : ℕ → ℕ → M (World S) (Option (ℕ × ℕ))
    unfolding fdalloc set_ofile fileclose
    pipe_descriptors rf wf = do
      fd0 ← fdalloc rf
      fd1 ← (elim fd0 [ none ↦ pure none | some n ↦ fdalloc wf ])
      elim fd1 [
        | none ↦ (do
          elim fd0 [ none ↦ pure tt | some n ↦ change (set_ofile n none) ]
          fileclose env pid rf
          fileclose env pid wf
          pure none)
        | some n1 ↦ elim fd0 [ none ↦ pure none | some n0 ↦ pure (some (n0, n1)) ]
      ]

    unfoldable pub sys_pipe : Caller → M (World S) (Option (ℕ × ℕ))
    unfolding argptr pipealloc pipe_descriptors
    sys_pipe c = elim (argptr 0 8 c) [
      | none ↦ pure none
      | some fd ↦ (do
        files ← pipealloc env pid
        elim files [ none ↦ pure none | some (rf, wf) ↦ pipe_descriptors rf wf ])
    ]
