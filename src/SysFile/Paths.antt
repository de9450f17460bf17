-- ===== src/SysFile/Paths.antt =====
-- Lab/code/sysfile.c: the system calls `link`, `unlink`, `open`, `mkdir`, `mknod`, `chdir`.
use xmu_learning_os.Base.{
  M, Option, change, gets, if◌then◌else◌, minus_one, none, pure, some, update, ℕ, ◌%◌, ◌>>=◌, ◌>>◌,
  ◌||◌,
}
use xmu_learning_os.File.{
  Environment, World, fd_inode, file_at, filealloc, fileclose, in_fs, put_file,
}
use xmu_learning_os.Fs.{F, t_dev, t_dir}
use xmu_learning_os.Fs.Inodes.{iunlock}
use xmu_learning_os.Fs.Release.{iunlockput}
use xmu_learning_os.SysFile.{fdalloc}
use xmu_learning_os.SysFile.Links.{link, unlink}
use xmu_learning_os.SysFile.Open.{create_and_put, find_dir, o_rdwr, o_wronly, open_path, path_arg}
use xmu_learning_os.Syscall.{Caller, argint}

module _ {S : Type 0} (cur : ℕ) (env : Environment) (pid : ℕ) where
  -- An operation of the file system, given the process's directory, inside a transaction.
  unfoldable pub transaction : {A : Type 0} → (ℕ → F A) → M (World S) A
  unfolding in_fs
  transaction m w =
      in_fs (do env.begin_transaction; a ← m (w.kernel.procs cur).cwd; env.end_transaction; pure a)
        w

  unfoldable pub sys_link : Caller → M (World S) ℕ
  unfolding path_arg transaction link
  sys_link c = elim (path_arg 0 c) [
    | none ↦ pure minus_one
    | some old ↦ elim (path_arg 1 c) [
      | none ↦ pure minus_one
      | some new ↦ transaction (λ cwd. link env.devsw pid cwd old new)
    ]
  ]

  unfoldable pub sys_unlink : Caller → M (World S) ℕ
  unfolding path_arg transaction unlink
  sys_unlink c = elim (path_arg 0 c) [
    | none ↦ pure minus_one
    | some path ↦ transaction (λ cwd. unlink env.devsw pid cwd path)
  ]

  -- `open` gives up at the locked inode `i`.
  unfoldable pub give_up : ℕ → M (World S) ℕ
  unfolding in_fs iunlockput
  give_up i = do in_fs (do iunlockput pid i; env.end_transaction); pure minus_one

  unfoldable pub open_inode : ℕ → ℕ → M (World S) ℕ
  unfolding filealloc fdalloc fileclose give_up in_fs iunlock
  open_inode i omode = do
    new ← filealloc
    elim new [
      | none ↦ give_up i
      | some f ↦ (do
        found ← fdalloc cur f
        elim found [
          | none ↦ (do fileclose env pid f; give_up i)
          | some fd ↦ (do
            in_fs (do iunlock i; env.end_transaction)
            file ← file_at f
            put_file f (record file {
              kind = fd_inode;
              ip = i;
              off = 0;
              readable = if o_wronly omode then 0 else 1;
              writable = if o_wronly omode || o_rdwr omode then 1 else 0;
            })
            pure fd)
        ])
    ]

  unfoldable pub sys_open : Caller → M (World S) ℕ
  unfolding path_arg argint in_fs open_path open_inode
  sys_open c = elim (path_arg 0 c) [
    | none ↦ pure minus_one
    | some path ↦ elim (argint 1 c) [
      | none ↦ pure minus_one
      | some omode ↦ (do
        p ← gets (λ w. w.kernel.procs cur)
        in_fs env.begin_transaction
        found ← in_fs (open_path env.devsw pid p.cwd path omode)
        elim found [
          | none ↦ (do in_fs env.end_transaction; pure minus_one)
          | some i ↦ open_inode i omode
        ])
    ]
  ]

  unfoldable pub sys_mkdir : Caller → M (World S) ℕ
  unfolding path_arg transaction create_and_put
  sys_mkdir c = transaction (elim (path_arg 0 c) [
    | none ↦ λ cwd. pure minus_one
    | some path ↦ create_and_put env.devsw pid path t_dir 0 0
  ])

  -- The numbers of the device are `short`s.
  unfoldable pub sys_mknod : Caller → M (World S) ℕ
  unfolding path_arg argint transaction create_and_put
  sys_mknod c = transaction (elim (path_arg 0 c) [
    | none ↦ λ cwd. pure minus_one
    | some path ↦ elim (argint 1 c) [
      | none ↦ λ cwd. pure minus_one
      | some major ↦ elim (argint 2 c) [
        | none ↦ λ cwd. pure minus_one
        | some minor ↦ create_and_put env.devsw pid path t_dev (major % 65536) (minor % 65536)
      ]
    ]
  ])

  unfoldable pub set_cwd : ℕ → World S → World S
  set_cwd i w =
      let k = w.kernel in
      record w {
        kernel = record k { procs = update k.procs cur (record (k.procs cur) { cwd = i }) };
      }

  unfoldable pub sys_chdir : Caller → M (World S) ℕ
  unfolding path_arg transaction find_dir set_cwd
  sys_chdir c = do
    found ← transaction (elim (path_arg 0 c) as (λ _. ℕ → F (Option ℕ)) [
      | none ↦ λ cwd. pure none
      | some path ↦ λ cwd. find_dir env.devsw pid cwd path
    ])
    elim found [ none ↦ pure minus_one | some i ↦ (do change (set_cwd i); pure 0) ]
