-- ===== src/Fs.antt =====
-- Lab/code/fs.h, Lab/code/stat.h, and the top of Lab/code/fs.c: the state of the file system, and
-- its access to blocks. What `bread` returns for a block is its current content as bytes (the
-- buffer cache of Lab/code/bio.c over the disk); `write_block` is a change of a buffer's data
-- followed by `log_write`, with the log of Lab/code/log.c. An inode is its index in `icache`. A
-- `short` is its 16-bit pattern. Block numbers are far below 2 ^ 32.
pub mod Access
pub mod Blocks
pub mod Content
pub mod Directory
pub mod Inodes
pub mod Names
pub mod Release
use xmu_learning_os.Base.{
  Bytes, M, change, fill, get_word, gets, none, ok, panicking, some, stopped, update, ℕ, ◌%◌, ◌*◌,
  ◌+◌, ◌/◌, ◌>>=◌, ◌>>◌,
}
use xmu_learning_os.Log.{Log, log_write}
use xmu_learning_os.Pipe.Fifo.{size}
use xmu_learning_os.Sleeplock.{Sleeplock}

abbrev pub bsize : ℕ
bsize = 512

abbrev pub rootino : ℕ
rootino = 1

abbrev pub rootdev : ℕ
rootdev = 1

abbrev pub ndirect : ℕ
ndirect = 28

abbrev pub nindirect : ℕ
nindirect = 128

abbrev pub maxfile : ℕ
maxfile = 156

abbrev pub ninode : ℕ
ninode = 50

abbrev pub ndev : ℕ
ndev = 10

abbrev pub dirsiz : ℕ
dirsiz = 14

-- `T_DIR`, `T_FILE`, `T_DEV`
abbrev pub t_dir : ℕ
t_dir = 1

abbrev pub t_file : ℕ
t_file = 2

abbrev pub t_dev : ℕ
t_dev = 3

pub record Superblock : Type 0 where
  pub size : ℕ
  pub nblocks : ℕ
  pub ninodes : ℕ
  pub nlog : ℕ
  pub logstart : ℕ
  pub inodestart : ℕ
  pub bmapstart : ℕ

-- `struct inode`
pub record Inode : Type 0 where
  pub dev : ℕ
  pub inum : ℕ
  pub ref : ℕ
  pub lock : Sleeplock
  pub valid : ℕ
  pub kind : ℕ
  pub major : ℕ
  pub minor : ℕ
  pub nlink : ℕ
  pub size : ℕ
  pub addrs : ℕ → ℕ

pub record Fs : Type 0 where
  pub content : ℕ → ℕ → Bytes
  pub log : Log
  pub sb : Superblock
  pub inodes : ℕ → Inode

abbrev pub F : Type 0 → Type 0
F A = M Fs A

-- `IBLOCK`, and where in the block the inode is.
abbrev pub iblock : ℕ → Superblock → ℕ
iblock i sb = i / 4 + sb.inodestart

abbrev pub ioffset : ℕ → ℕ
ioffset i = i % 4 * 128

-- `BPB` and `BBLOCK`
abbrev pub bpb : ℕ
bpb = 4096

abbrev pub bblock : ℕ → Superblock → ℕ
bblock b sb = b / bpb + sb.bmapstart

abbrev pub bread : ℕ → ℕ → F Bytes
bread d b = gets λ s. s.content d b

abbrev pub put_content : ℕ → ℕ → Bytes → Fs → Fs
put_content d b w s = record s { content = update s.content d (update (s.content d) b w) }

-- New data in a buffer, and `log_write`.
unfoldable pub write_block : ℕ → ℕ → Bytes → F (Unit {0})
write_block d b w s = elim (log_write b s.log) [
  | none ↦ stopped panicking
  | some l ↦ ok (tt, put_content d b w (record s { log = l }))
]

unfoldable pub superblock_of : Bytes → Superblock
superblock_of w = record {
  size = get_word w 0;
  nblocks = get_word w 4;
  ninodes = get_word w 8;
  nlog = get_word w 12;
  logstart = get_word w 16;
  inodestart = get_word w 20;
  bmapstart = get_word w 24;
}

-- `readsb(dev, &sb)`
unfoldable pub readsb : ℕ → F (Unit {0})
unfolding superblock_of
readsb d = change λ s. record s { sb = superblock_of (s.content d 1) }

unfoldable pub bzero : ℕ → ℕ → F (Unit {0})
unfolding write_block
bzero d b = do w ← bread d b; write_block d b (fill w 0 0 bsize)

-- The inode at an index, and a write of it.
abbrev pub inode : ℕ → F Inode
inode i = gets λ s. s.inodes i

abbrev pub put_inode : ℕ → Inode → F (Unit {0})
put_inode i ip = change λ s. record s { inodes = update s.inodes i ip }
