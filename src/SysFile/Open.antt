-- ===== src/SysFile/Open.antt =====
-- Lab/code/sysfile.c: `create`, the parts of `open`, `mkdir`, `mknod` and `chdir` that work on the file
-- system, and the arguments of `exec`.
use xmu_learning_os.Base.{
  Bool, Bytes, List, Option, [], add32, bytes_at, false, if◌then◌else◌, minus_one, none, not,
  panic_if, pure, slt, some, suc, true, when, zero, ℕ, ◌%◌, ◌&&◌, ◌*◌, ◌+◌, ◌/◌, ◌==◌, ◌>>=◌, ◌>>◌,
  ◌∷◌,
}
use xmu_learning_os.Fs.{F, inode, put_inode, t_dir, t_file}
use xmu_learning_os.Fs.Content.{Devices}
use xmu_learning_os.Fs.Directory.{dirlink, dirlookup}
use xmu_learning_os.Fs.Inodes.{ialloc, ilock, iunlock, iupdate}
use xmu_learning_os.Fs.Names.{namei, nameiparent}
use xmu_learning_os.Fs.Release.{iput, iunlockput}
use xmu_learning_os.SysFile.Links.{add_links, dot, dot_dot}
use xmu_learning_os.Syscall.{Caller, argint, argstr, fetchint, fetchstr}

-- `O_WRONLY`, `O_RDWR`, `O_CREATE`
abbrev pub o_wronly : ℕ → Bool
o_wronly m = m % 2 == 1

abbrev pub o_rdwr : ℕ → Bool
o_rdwr m = m / 2 % 2 == 1

abbrev pub o_create : ℕ → Bool
o_create m = m / 512 % 2 == 1

abbrev pub maxarg : ℕ
maxarg = 32

-- The string that `argstr` finds.
abbrev pub string_at : Caller → ℕ × ℕ → List ℕ
string_at c (p, n) = bytes_at c.memory p n

unfoldable pub path_arg : ℕ → Caller → Option (List ℕ)
unfolding argstr
path_arg n c = elim (argstr n c) [ none ↦ none | some s ↦ some (string_at c s) ]

module _ (devsw : Devices) (pid : ℕ) where
  -- `create` where the name is there.
  unfoldable pub open_existing : ℕ → ℕ → ℕ → F (Option ℕ)
  unfolding iunlockput ilock
  open_existing d i kind = do
    iunlockput pid d
    ilock pid i
    ip ← inode i
    elim ((kind == t_file) && (ip.kind == t_file)) [
      | true ↦ pure (some i)
      | false ↦ (do iunlockput pid i; pure none)
    ]

  -- The entries `.` and `..`.
  unfoldable pub add_dots : ℕ → ℕ → F (Unit {0})
  unfolding add_links dirlink
  add_dots d i = do
    add_links d 1
    ip ← inode i
    a ← dirlink devsw pid i dot ip.inum
    panic_if (slt a 0)
    dp ← inode d
    b ← dirlink devsw pid i dot_dot dp.inum
    panic_if (slt b 0)

  -- `create` where the name is not there; `ialloc` panics when there is no inode.
  unfoldable pub create_new : ℕ → Bytes → ℕ → ℕ → ℕ → F (Option ℕ)
  unfolding ialloc ilock iupdate add_dots dirlink iunlockput
  create_new d name kind major minor = do
    dp ← inode d
    i ← ialloc dp.dev kind
    ilock pid i
    ip ← inode i
    put_inode i (record ip { major = major; minor = minor; nlink = 1 })
    iupdate i
    when (kind == t_dir) (add_dots d i)
    ip' ← inode i
    n ← dirlink devsw pid d name ip'.inum
    panic_if (slt n 0)
    iunlockput pid d
    pure (some i)

  -- The new inode, locked.
  unfoldable pub create : ℕ → List ℕ → ℕ → ℕ → ℕ → F (Option ℕ)
  unfolding nameiparent ilock dirlookup open_existing create_new
  create cwd path kind major minor = do
    r ← nameiparent devsw pid cwd path (λ k. 0)
    elim (r.0) [
      | none ↦ pure none
      | some d ↦ (do
        ilock pid d
        found ← dirlookup devsw pid d (r.1)
        elim found [
          | some (i, off) ↦ open_existing d i kind
          | none ↦ create_new d (r.1) kind major minor
        ])
    ]

  -- `create`, and the inode is put back.
  unfoldable pub create_and_put : List ℕ → ℕ → ℕ → ℕ → ℕ → F ℕ
  unfolding create iunlockput
  create_and_put path kind major minor cwd = do
    found ← create cwd path kind major minor
    elim found [ none ↦ pure minus_one | some i ↦ (do iunlockput pid i; pure 0) ]

  -- The inode that `open` opens, locked.
  unfoldable pub open_path : ℕ → List ℕ → ℕ → F (Option ℕ)
  unfolding create namei ilock iunlockput
  open_path cwd path omode = elim (o_create omode) [
    | true ↦ create cwd path t_file 0 0
    | false ↦ (do
      found ← namei devsw pid cwd path
      elim found [
        | none ↦ pure none
        | some i ↦ (do
          ilock pid i
          ip ← inode i
          elim ((ip.kind == t_dir) && not (omode == 0)) [
            | true ↦ (do iunlockput pid i; pure none)
            | false ↦ pure (some i)
          ])
      ])
  ]

  -- The directory that `chdir` goes to.
  unfoldable pub find_dir : ℕ → List ℕ → F (Option ℕ)
  unfolding namei ilock iunlockput iunlock iput
  find_dir cwd path = do
    found ← namei devsw pid cwd path
    elim found [
      | none ↦ pure none
      | some i ↦ (do
        ilock pid i
        ip ← inode i
        elim (ip.kind == t_dir) [
          | false ↦ (do iunlockput pid i; pure none)
          | true ↦ (do iunlock i; iput pid cwd; pure (some i))
        ])
    ]

-- `exec`: the loop over `argv`, with `n` places left from the `i`th on.
unfoldable pub argv_from : ℕ → ℕ → ℕ → Caller → Option (List (List ℕ))
unfolding fetchint fetchstr
argv_from zero i uargv c = none
argv_from (suc n) i uargv c =
    let rest = argv_from n (i + 1) uargv c in
    elim (fetchint (add32 uargv (4 * i)) c) [
      | none ↦ none
      | some uarg ↦ if uarg == 0 then some [] else elim (fetchstr uarg c) [
        | none ↦ none
        | some s ↦ elim rest [ none ↦ none | some r ↦ some (string_at c s ∷ r) ]
      ]
    ]

-- The path and the arguments that `sys_exec` passes on.
unfoldable pub exec_args : Caller → Option (List ℕ × List (List ℕ))
unfolding path_arg argint argv_from
exec_args c = elim (path_arg 0 c) [
  | none ↦ none
  | some path ↦ elim (argint 1 c) [
    | none ↦ none
    | some uargv ↦ elim (argv_from maxarg 0 uargv c) [ none ↦ none | some args ↦ some (path, args) ]
  ]
]
