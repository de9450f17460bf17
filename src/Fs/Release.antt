-- ===== src/Fs/Release.antt =====
-- Lab/code/fs.c: `iput` and `iunlockput`.
use xmu_learning_os.Base.{not, sub32, when, ℕ, ◌&&◌, ◌==◌, ◌>>=◌, ◌>>◌}
use xmu_learning_os.Fs.{F, inode, put_inode}
use xmu_learning_os.Fs.Content.{itrunc}
use xmu_learning_os.Fs.Inodes.{acquire_inode, iunlock, iupdate, release_inode}

-- The last step of `iput`.
unfoldable pub drop_inode_ref : ℕ → F (Unit {0})
drop_inode_ref i = do ip ← inode i; put_inode i (record ip { ref = sub32 ip.ref 1 })

-- What `iput` does to an inode with no links and no other references.
unfoldable pub free_inode : ℕ → F (Unit {0})
unfolding itrunc iupdate
free_inode i = do
  itrunc i
  ip ← inode i
  put_inode i (record ip { kind = 0 })
  iupdate i
  ip' ← inode i
  put_inode i (record ip' { valid = 0 })

module _ (pid : ℕ) where
  unfoldable pub iput : ℕ → F (Unit {0})
  unfolding acquire_inode free_inode release_inode drop_inode_ref
  iput i = do
    acquire_inode pid i
    ip ← inode i
    when (not (ip.valid == 0) && (ip.nlink == 0) && (ip.ref == 1)) (free_inode i)
    release_inode i
    drop_inode_ref i

  unfoldable pub iunlockput : ℕ → F (Unit {0})
  unfolding iunlock iput
  iunlockput i = do iunlock i; iput i
