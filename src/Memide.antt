-- ===== src/Memide.antt =====
-- Lab/code/memide.c, the disk in memory, and `bread` and `bwrite` of Lab/code/bio.c on it, after
-- `bget`. A panic is `none`.
pub mod RoundTrip
use xmu_learning_os.Base.{
  Bool, Bytes, Option, copy, false, if◌then◌else◌, leb, none, not, some, true, update, ℕ, ◌&&◌, ◌*◌,
  ◌==◌, ◌||◌,
}
use xmu_learning_os.Bio.{Bcache, Buf}
use xmu_learning_os.Fs.{bsize}
use xmu_learning_os.Sleeplock.{holdingsleep}

-- The image from `memdisk` on, and its size in blocks.
pub record Memdisk : Type 0 where
  pub image : Bytes
  pub disksize : ℕ

-- `(b->flags & (B_VALID|B_DIRTY)) == B_VALID`
abbrev pub is_done : Buf → Bool
is_done b = b.valid && not b.dirty

-- What `iderw` moves between the image and the buffer.
unfoldable pub transfer : Memdisk → Buf → Memdisk × Buf
unfolding copy
transfer m b =
    let p = b.blockno * bsize in
    if b.dirty
    then (
      record m { image = copy m.image p b.bytes 0 bsize },
      record b { dirty = false; valid = true },
    )
    else (m, record b { bytes = copy b.bytes 0 m.image p bsize; valid = true })

unfoldable pub iderw : ℕ → Memdisk → Bcache → Option (Memdisk × Bcache)
unfolding transfer
iderw i m c =
    let b = c.buf i in
    if not (holdingsleep b.lock) || is_done b || not (b.dev == 1) || leb m.disksize b.blockno
    then none
    else let (m', b') = transfer m b in some (m', record c { buf = update c.buf i b' })

-- `bread` once `bget` has given the buffer.
unfoldable pub bread_into : ℕ → Memdisk → Bcache → Option (Memdisk × Bcache)
unfolding iderw
bread_into i m c = let rw = iderw i m c in if not (c.buf i).valid then rw else some (m, c)

unfoldable pub bwrite_from : ℕ → Memdisk → Bcache → Option (Memdisk × Bcache)
unfolding iderw
bwrite_from i m c =
    let rw = iderw i m (record c { buf = update c.buf i (record (c.buf i) { dirty = true }) }) in
    if not (holdingsleep (c.buf i).lock) then none else rw
