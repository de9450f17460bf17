-- ===== src/SysFile/Links.antt =====
-- Lab/code/sysfile.c: `link` and `unlink`, as operations of the file system. `cwd` is the inode of
-- the process's directory. `nlink` is a `short`.
use xmu_learning_os.Base.{
  Bool, Bytes, List, [], false, leb, minus_one, none, not, panic_if, pure, slt, some, suc, true,
  when, zero, ℕ, ◌%◌, ◌+◌, ◌-◌, ◌==◌, ◌>>=◌, ◌>>◌, ◌||◌, ◌∷◌,
}
use xmu_learning_os.Fs.{F, inode, put_inode, t_dir}
use xmu_learning_os.Fs.Content.{Devices, writei}
use xmu_learning_os.Fs.Directory.{
  bytes_of, dirlink, dirlookup, entries, memory_of, namecmp, read_dirent,
}
use xmu_learning_os.Fs.Inodes.{ilock, iunlock, iupdate}
use xmu_learning_os.Fs.Names.{namei, nameiparent}
use xmu_learning_os.Fs.Release.{iput, iunlockput}

abbrev pub below_one : ℕ → Bool
below_one n = (n == 0) || leb 32768 n

-- `ip->nlink += k; iupdate(ip);`
unfoldable pub add_links : ℕ → ℕ → F (Unit {0})
unfolding iupdate
add_links i k = do
  ip ← inode i
  put_inode i (record ip { nlink = (ip.nlink + k) % 65536 })
  iupdate i

-- -1 as a `short`
abbrev pub one_less : ℕ
one_less = 65535

-- "." and ".."
abbrev pub dot : Bytes
dot = memory_of (46 ∷ [])

abbrev pub dot_dot : Bytes
dot_dot = memory_of (46 ∷ 46 ∷ [])

module _ (devsw : Devices) (pid : ℕ) where
  -- From `ilock(dp)` to `iunlockput(dp)`: a negative result leads to `bad`.
  unfoldable pub link_under : ℕ → ℕ → Bytes → F ℕ
  unfolding ilock dirlink iunlockput
  link_under d i name = do
    ilock pid d
    dp ← inode d
    ip ← inode i
    r ← (elim (dp.dev == ip.dev) [
      | false ↦ pure minus_one
      | true ↦ dirlink devsw pid d name ip.inum
    ])
    iunlockput pid d
    pure r

  -- The path `bad`.
  unfoldable pub undo_link : ℕ → F ℕ
  unfolding ilock add_links iunlockput
  undo_link i = do ilock pid i; add_links i one_less; iunlockput pid i; pure minus_one

  unfoldable pub link_inode : ℕ → ℕ → List ℕ → F ℕ
  unfolding ilock iunlockput add_links iunlock nameiparent link_under undo_link iput
  link_inode cwd i new = do
    ilock pid i
    ip ← inode i
    elim (ip.kind == t_dir) [
      | true ↦ (do iunlockput pid i; pure minus_one)
      | false ↦ (do
        add_links i 1
        iunlock i
        r ← nameiparent devsw pid cwd new (λ k. 0)
        elim (r.0) [
          | none ↦ undo_link i
          | some d ↦ (do
            n ← link_under d i (r.1)
            elim (slt n 0) [ true ↦ undo_link i | false ↦ (do iput pid i; pure 0) ])
        ])
    ]

  unfoldable pub link : ℕ → List ℕ → List ℕ → F ℕ
  unfolding namei link_inode
  link cwd old new = do
    found ← namei devsw pid cwd old
    elim found [ none ↦ pure minus_one | some i ↦ link_inode cwd i new ]

  -- The loop of `isdirempty`, with `r` entries left.
  unfoldable pub no_entry_from : ℕ → ℕ → ℕ → F Bool
  unfolding read_dirent
  no_entry_from zero i off = pure true
  no_entry_from (suc r) i off = do
    de ← read_dirent devsw pid i off
    elim (de.number == 0) [ true ↦ no_entry_from r i (off + 16) | false ↦ pure false ]

  unfoldable pub isdirempty : ℕ → F Bool
  unfolding no_entry_from
  isdirempty i = do dp ← inode i; no_entry_from (entries dp - 2) i 32

  unfoldable pub remove_entry : ℕ → ℕ → ℕ → F ℕ
  unfolding writei bytes_of add_links iunlockput
  remove_entry d i off = do
    n ← writei devsw d (bytes_of 0 (λ k. 0)) off
    panic_if (not (n == 16))
    ip ← inode i
    when (ip.kind == t_dir) (add_links d one_less)
    iunlockput pid d
    add_links i one_less
    iunlockput pid i
    pure 0

  unfoldable pub unlink_entry : ℕ → ℕ → ℕ → F ℕ
  unfolding ilock isdirempty iunlockput remove_entry
  unlink_entry d i off = do
    ilock pid i
    ip ← inode i
    panic_if (below_one ip.nlink)
    may ← (elim (ip.kind == t_dir) [ true ↦ isdirempty i | false ↦ pure true ])
    elim may [
      | true ↦ remove_entry d i off
      | false ↦ (do iunlockput pid i; iunlockput pid d; pure minus_one)
    ]

  unfoldable pub unlink_in : ℕ → Bytes → F ℕ
  unfolding namecmp dirlookup iunlockput unlink_entry
  unlink_in d name = elim ((namecmp name dot == 0) || (namecmp name dot_dot == 0)) [
    | true ↦ (do iunlockput pid d; pure minus_one)
    | false ↦ (do
      found ← dirlookup devsw pid d name
      elim found [
        | none ↦ (do iunlockput pid d; pure minus_one)
        | some (i, off) ↦ unlink_entry d i off
      ])
  ]

  unfoldable pub unlink : ℕ → List ℕ → F ℕ
  unfolding nameiparent ilock unlink_in
  unlink cwd path = do
    r ← nameiparent devsw pid cwd path (λ k. 0)
    elim (r.0) [ none ↦ pure minus_one | some d ↦ (do ilock pid d; unlink_in d (r.1)) ]
