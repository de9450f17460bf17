-- ===== src/Fs/Inodes.antt =====
-- Lab/code/fs.c: the inode cache: `iinit`, `ialloc`, `iupdate`, `iget`, `idup`, `ilock`, `iunlock`.
-- A process whose `acquiresleep` finds the lock taken waits: the run stops there. What `releasesleep`
-- wakes is in the process table and no part of this state.
pub mod Cache
pub mod Dinode
pub mod Unique
pub mod Update
use xmu_learning_os.Base.{
  Bool, Bytes, Option, add32, change, each, false, fill, get_half, get_word, gets, if◌then◌else◌,
  ltb, none, not, ok, panic_if, panicking, pure, put_half, put_word, put_words, slt, some, stopped,
  suc, true, update, waiting, when, zero, ℕ, ◌&&◌, ◌*◌, ◌+◌, ◌-◌, ◌==◌, ◌>>=◌, ◌>>◌, ◌||◌,
}
use xmu_learning_os.Fs.{
  F, Inode, bread, iblock, inode, ioffset, ninode, put_inode, readsb, write_block,
}
use xmu_learning_os.Pipe.Fifo.{size}
use xmu_learning_os.Sleeplock.{holdingsleep, initsleeplock}

-- What `iinit` does to the cache.
unfoldable pub init_locks : (ℕ → Inode) → ℕ → Inode
init_locks t = each ninode (λ ip. record ip { lock = initsleeplock }) t

unfoldable pub iinit : ℕ → F (Unit {0})
unfolding init_locks readsb
iinit d = do change (λ s. record s { inodes = init_locks s.inodes }); readsb d

abbrev pub naddrs : ℕ
naddrs = 29

-- The fields of an inode from and to the `struct dinode` at offset `a` of a block.
unfoldable pub load_dinode : Bytes → ℕ → Inode → Inode
load_dinode w a ip = record ip {
  kind = get_half w a;
  major = get_half w (a + 2);
  minor = get_half w (a + 4);
  nlink = get_half w (a + 6);
  size = get_word w (a + 8);
  addrs = λ k. if ltb k naddrs then get_word w (a + 12 + 4 * k) else ip.addrs k;
}

unfoldable pub store_dinode : Inode → Bytes → ℕ → Bytes
store_dinode ip w a =
    let w1 = put_half w a ip.kind in
    let w2 = put_half w1 (a + 2) ip.major in
    let w3 = put_half w2 (a + 4) ip.minor in
    let w4 = put_half w3 (a + 6) ip.nlink in
    let w5 = put_word w4 (a + 8) ip.size in put_words w5 (a + 12) naddrs ip.addrs

unfoldable pub iupdate : ℕ → F (Unit {0})
unfolding write_block store_dinode
iupdate i = do
  ip ← inode i
  sb ← gets λ s. s.sb
  w ← bread ip.dev (iblock ip.inum sb)
  write_block ip.dev (iblock ip.inum sb) (store_dinode ip w (ioffset ip.inum))

-- How the scan of `iget` ends: at the cached inode, or with the first empty slot.
pub data Place : Type 0 where
  cached : ℕ → Place
  vacant : Option ℕ → Place

abbrev pub is_cached : ℕ → ℕ → Inode → Bool
is_cached d n ip = slt 0 ip.ref && (ip.dev == d) && (ip.inum == n)

-- `if (empty == 0 && ip->ref == 0) empty = ip;`
abbrev pub first_empty : Option ℕ → ℕ → Inode → Option ℕ
first_empty (some e) i ip = some e
first_empty none i ip = if ip.ref == 0 then some i else none

unfoldable pub find_place : ℕ → ℕ → ℕ → ℕ → Option ℕ → (ℕ → Inode) → Place
find_place d k zero i empty t = vacant empty
find_place d k (suc n) i empty t =
    let rest = find_place d k n (i + 1) (first_empty empty i (t i)) t in
    if is_cached d k (t i) then cached i else rest

abbrev pub fresh_inode : ℕ → ℕ → Inode → Inode
fresh_inode d k ip = record ip { dev = d; inum = k; ref = 1; valid = 0 }

unfoldable pub iget : ℕ → ℕ → F ℕ
unfolding find_place
iget d k s = elim (find_place d k ninode 0 none s.inodes) [
  | cached i ↦ ok (
    i,
    record s {
      inodes = update s.inodes i (record (s.inodes i) { ref = add32 (s.inodes i).ref 1 });
    },
  )
  | vacant (some i) ↦ ok (i, record s { inodes = update s.inodes i (fresh_inode d k (s.inodes i)) })
  | vacant none ↦ stopped panicking
]

unfoldable pub idup : ℕ → F ℕ
idup i = do ip ← inode i; put_inode i (record ip { ref = add32 ip.ref 1 }); pure i

-- The loop of `ialloc` from `inum` on, with `r` inodes left.
unfoldable pub ialloc_from : ℕ → ℕ → ℕ → ℕ → F ℕ
unfolding iget write_block
ialloc_from zero inum d t s = stopped panicking
ialloc_from (suc r) inum d t s =
    let b = iblock inum s.sb in
    let w = s.content d b in
    let rest = ialloc_from r (inum + 1) d t s in
    elim (get_half w (ioffset inum) == 0) [
      | true ↦
          (do
            write_block d b (put_half (fill w (ioffset inum) 0 128) (ioffset inum) t)
            iget d inum)
            s
      | false ↦ rest
    ]

unfoldable pub ialloc : ℕ → ℕ → F ℕ
unfolding ialloc_from
ialloc d t s = ialloc_from (s.sb.ninodes - 1) 1 d t s

module _ (pid : ℕ) where
  -- `acquiresleep(&ip->lock)` where it does not sleep, and `releasesleep(&ip->lock)`.
  unfoldable pub acquire_inode : ℕ → F (Unit {0})
  acquire_inode i s =
      let ip = s.inodes i in
      if ip.lock.locked == 0
      then put_inode i (record ip { lock = record { locked = 1; pid = pid } }) s
      else stopped waiting

  -- What `ilock` reads where the cached inode is not valid.
  unfoldable pub load_inode : ℕ → F (Unit {0})
  unfolding load_dinode
  load_inode i = do
    ip ← inode i
    sb ← gets λ s. s.sb
    w ← bread ip.dev (iblock ip.inum sb)
    put_inode i (record (load_dinode w (ioffset ip.inum) ip) { valid = 1 })
    panic_if (get_half w (ioffset ip.inum) == 0)

  unfoldable pub ilock : ℕ → F (Unit {0})
  unfolding acquire_inode load_inode
  ilock i = do
    ip ← inode i
    panic_if (slt ip.ref 1)
    acquire_inode i
    when (ip.valid == 0) (load_inode i)

unfoldable pub release_inode : ℕ → F (Unit {0})
release_inode i = do ip ← inode i; put_inode i (record ip { lock = record { locked = 0; pid = 0 } })

unfoldable pub iunlock : ℕ → F (Unit {0})
unfolding release_inode holdingsleep
iunlock i = do ip ← inode i; panic_if (not (holdingsleep ip.lock) || slt ip.ref 1); release_inode i
