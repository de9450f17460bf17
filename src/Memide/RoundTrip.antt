-- ===== src/Memide/RoundTrip.antt =====
-- What `bwrite` puts on the disk in memory is what `bread` gives later.
use xmu_learning_os.Base.{
  Bytes, ap, arith, copy, false, inl, inr, refl, some, true, update, ℕ, ◌*◌, ◌+◌, ◌-◌, ◌<◌, ◌∙◌,
  ◌≡◌, ◌≤◌, ◌⊎◌,
}
use xmu_learning_os.Bio.{Bcache, Buf}
use xmu_learning_os.Fs.{bsize}
use xmu_learning_os.Memide.{Memdisk, bread_into, bwrite_from, iderw, is_done, transfer}
use xmu_learning_os.Proc.Sleep.{put}
use xmu_learning_os.Sleeplock.{holdingsleep}

copy_inside :
    (to : Bytes) (p : ℕ) (from : Bytes) (n k : ℕ) → k < n → copy to p from 0 n (p + k) ≡ from k
unfolding copy
copy_inside to p from n k l =
    let same : 0 + (p + k - p) ≡ k = omega arith in ground (arith, ap from same)

copy_outside :
    (to : Bytes) (p : ℕ) (from : Bytes) (n a : ℕ)
    → (a < p) ⊎ (p + n ≤ a)
    → copy to p from 0 n a ≡ to a
unfolding copy
copy_outside to p from n a (inl l) = ground arith
copy_outside to p from n a (inr l) = ground arith

copy_back : (to : Bytes) (from : Bytes) (p n k : ℕ) → k < n → copy to 0 from p n k ≡ from (p + k)
unfolding copy
copy_back to from p n k l = ground arith

-- `bwrite` on a locked buffer of a block of the disk succeeds: the block holds the bytes of the
-- buffer, every other byte of the disk stays, and the buffer is clean.
bwrite_lem :
    (i : ℕ) (m : Memdisk) (c : Bcache)
    → holdingsleep (c.buf i).lock ≡ true
    → (c.buf i).dev ≡ 1
    → (c.buf i).blockno < m.disksize
    → (m' : Memdisk) × (c' : Bcache) × (bwrite_from i m c ≡ some (m', c'))
      × (m'.disksize ≡ m.disksize)
      × ((k : ℕ) → k < bsize → m'.image ((c.buf i).blockno * bsize + k) ≡ (c.buf i).bytes k)
      × ((a : ℕ)
          → (a < (c.buf i).blockno * bsize) ⊎ ((c.buf i).blockno * bsize + bsize ≤ a)
          → m'.image a ≡ m.image a)
      × (is_done (c'.buf i) ≡ true)
unfolding bwrite_from iderw transfer copy
bwrite_lem i m c h d l =
    let c1 : Bcache = record c { buf = update c.buf i (record (c.buf i) { dirty = true }) } in
    let b : Buf = record (c1.buf i) { dirty = false; valid = true } in
    let p = (c.buf i).blockno * bsize in
    let m1 : Memdisk = record m { image = copy m.image p (c.buf i).bytes 0 bsize } in
    (
      m1,
      record c1 { buf = update c1.buf i b },
      ground arith,
      refl,
      λ k u. copy_inside m.image p (c.buf i).bytes bsize k u,
      λ a u. copy_outside m.image p (c.buf i).bytes bsize a u,
      ground arith,
    )

bread_lem :
    (j : ℕ) (m : Memdisk) (c : Bcache)
    → holdingsleep (c.buf j).lock ≡ true
    → (c.buf j).dev ≡ 1
    → (c.buf j).blockno < m.disksize
    → (c.buf j).valid ≡ false
    → (c.buf j).dirty ≡ false
    → (c' : Bcache) × (bread_into j m c ≡ some (m, c'))
      × ((k : ℕ) → k < bsize → (c'.buf j).bytes k ≡ m.image ((c.buf j).blockno * bsize + k))
unfolding bread_into iderw transfer
bread_lem j m c h d l v w =
    let p = (c.buf j).blockno * bsize in
    let b : Buf = record (c.buf j) {
      bytes = copy (c.buf j).bytes 0 m.image p bsize;
      valid = true;
    } in
    (
      record c { buf = update c.buf j b },
      ground arith,
      λ k u. ground (arith, copy_back (c.buf j).bytes m.image p bsize k u),
    )

-- `bwrite` on a locked buffer of a block of the disk succeeds, and leaves the buffer clean and the
-- bytes of all other blocks as they are. A later `bread` of the block into any buffer that is
-- locked and not valid, of any cache, succeeds, gives the bytes that were written, and leaves the
-- disk as it is.
pub bread_into-bwrite_from :
    (i j : ℕ) (m : Memdisk) (c later : Bcache)
    → holdingsleep (c.buf i).lock ≡ true
    → (c.buf i).dev ≡ 1
    → (c.buf i).blockno < m.disksize
    → holdingsleep (later.buf j).lock ≡ true
    → (later.buf j).dev ≡ 1
    → (later.buf j).blockno ≡ (c.buf i).blockno
    → (later.buf j).valid ≡ false
    → (later.buf j).dirty ≡ false
    → (m' : Memdisk) × (c' : Bcache) × (r : Bcache) × (bwrite_from i m c ≡ some (m', c'))
      × (is_done (c'.buf i) ≡ true)
      × ((a : ℕ)
          → (a < (c.buf i).blockno * bsize) ⊎ ((c.buf i).blockno * bsize + bsize ≤ a)
          → m'.image a ≡ m.image a)
      × (bread_into j m' later ≡ some (m', r))
      × ((k : ℕ) → k < bsize → (r.buf j).bytes k ≡ (c.buf i).bytes k)
bread_into-bwrite_from i j m c later h d l h' d' n v w =
    let (m', c', e, size, put, kept, clean) = bwrite_lem i m c h d l in
    let (r, f, got) = bread_lem j m' later h' d' (omega (arith, n, size, l)) v w in
    (m', c', r, e, clean, kept, f, λ k u. got k u ∙ ap (λ b. m'.image (b * bsize + k)) n ∙ put k u)
