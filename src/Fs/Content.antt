-- ===== src/Fs/Content.antt =====
-- Lab/code/fs.c: the content of inodes: `bmap`, `itrunc`, `stati`, `readi`, `writei`. A buffer in
-- memory is the list of its bytes.
pub mod Address
pub mod InPlace
pub mod Reading
pub mod RoundTrip
pub mod Writing
use xmu_learning_os.Base.{
  List, Option, [], add32, bytes_at, drop, false, for_each, get_word, gets, if◌then◌else◌, leb,
  length, ltb, minus_one, none, not, ok, panic, pure, put_bytes, put_word, some, suc, take, true,
  update, when, zero, ℕ, ◌%◌, ◌&&◌, ◌*◌, ◌++◌, ◌+◌, ◌-◌, ◌/◌, ◌==◌, ◌>>=◌, ◌>>◌, ◌||◌,
}
use xmu_learning_os.Fs.{
  F, bread, bsize, inode, maxfile, ndev, ndirect, nindirect, put_inode, t_dev, write_block,
}
use xmu_learning_os.Fs.Blocks.{balloc, bfree}
use xmu_learning_os.Fs.Inodes.{iupdate}

-- `if ((addr = ip->addrs[k]) == 0) ip->addrs[k] = addr = balloc(ip->dev);`
unfoldable pub own_block : ℕ → ℕ → F ℕ
unfolding balloc
own_block i k = do
  ip ← inode i
  if ip.addrs k == 0
      then (do b ← balloc ip.dev; put_inode i (record ip { addrs = update ip.addrs k b }); pure b)
      else pure (ip.addrs k)

-- The entry `k` of the indirect block `a`.
unfoldable pub indirect_block : ℕ → ℕ → ℕ → F ℕ
unfolding balloc write_block
indirect_block d a k = do
  w ← bread d a
  if get_word w (4 * k) == 0
      then (do b ← balloc d; w' ← bread d a; write_block d a (put_word w' (4 * k) b); pure b)
      else pure (get_word w (4 * k))

unfoldable pub bmap : ℕ → ℕ → F ℕ
unfolding own_block indirect_block
bmap i bn =
    if ltb bn ndirect
    then own_block i bn
    else if ltb (bn - ndirect) nindirect
    then (do a ← own_block i ndirect; ip ← inode i; indirect_block ip.dev a (bn - ndirect))
    else panic

-- The loops of `itrunc`, for one direct block and for one entry of the indirect block.
unfoldable pub free_direct : ℕ → ℕ → F (Unit {0})
unfolding bfree
free_direct i k = do
  ip ← inode i
  when (not (ip.addrs k == 0))
      (do bfree ip.dev (ip.addrs k); put_inode i (record ip { addrs = update ip.addrs k 0 }))

unfoldable pub free_indirect : ℕ → ℕ → ℕ → F (Unit {0})
unfolding bfree
free_indirect d a k = do
  w ← bread d a
  when (not (get_word w (4 * k) == 0)) (bfree d (get_word w (4 * k)))

unfoldable pub free_entries : ℕ → F (Unit {0})
unfolding free_indirect bfree for_each
free_entries i = do
  ip ← inode i
  when (not (ip.addrs ndirect == 0)) (do
    for_each nindirect 0 (free_indirect ip.dev (ip.addrs ndirect))
    bfree ip.dev (ip.addrs ndirect)
    put_inode i (record ip { addrs = update ip.addrs ndirect 0 }))

unfoldable pub itrunc : ℕ → F (Unit {0})
unfolding free_direct free_entries iupdate for_each
itrunc i = do
  for_each ndirect 0 (free_direct i)
  free_entries i
  ip ← inode i
  put_inode i (record ip { size = 0 })
  iupdate i

pub record Stat : Type 0 where
  pub kind : ℕ
  pub dev : ℕ
  pub ino : ℕ
  pub nlink : ℕ
  pub size : ℕ

unfoldable pub stati : ℕ → F Stat
stati i = gets λ s.
    let ip = s.inodes i in
    record { kind = ip.kind; dev = ip.dev; ino = ip.inum; nlink = ip.nlink; size = ip.size }

-- `min(left, BSIZE - off % BSIZE)`
abbrev pub chunk : ℕ → ℕ → ℕ
chunk off left = let m = bsize - off % bsize in if ltb left m then left else m

-- The loop of `readi`, with `left` bytes to go. Each round takes a byte or more, so `left` rounds
-- are enough.
unfoldable pub read_loop : ℕ → ℕ → ℕ → ℕ → F (List ℕ)
unfolding bmap
read_loop zero i off left = pure []
read_loop (suc f) i off left = elim (left == 0) [
  | true ↦ pure []
  | false ↦ (do
    b ← bmap i (off / bsize)
    ip ← inode i
    w ← bread ip.dev b
    let m = chunk off left
    rest ← read_loop f i (off + m) (left - m)
    pure (bytes_at w (off % bsize) m ++ rest))
]

-- The loop of `writei` over the bytes of the buffer that are left.
unfoldable pub write_loop : ℕ → ℕ → ℕ → List ℕ → F (Unit {0})
unfolding bmap write_block
write_loop zero i off cs = pure tt
write_loop (suc f) i off cs = elim (length cs == 0) [
  | true ↦ pure tt
  | false ↦ (do
    b ← bmap i (off / bsize)
    ip ← inode i
    w ← bread ip.dev b
    let m = chunk off (length cs)
    write_block ip.dev b (put_bytes w (off % bsize) (take m cs))
    write_loop f i (off + m) (drop m cs))
]

-- `devsw`: what the drivers put there. A reader returns its bytes, or nothing for -1; a writer
-- returns its `int`.
pub record Devices : Type 0 where
  pub reader : ℕ → Option (ℕ → ℕ → F (Option (List ℕ)))
  pub writer : ℕ → Option (ℕ → List ℕ → F ℕ)

module _ (devsw : Devices) where
  unfoldable pub read_device : ℕ → ℕ → F (Option (List ℕ))
  read_device i n s =
      let ip = s.inodes i in
      elim (if leb ndev ip.major then none else devsw.reader ip.major) [
        | none ↦ ok (none, s)
        | some f ↦ f i n s
      ]

  -- `none` is the result -1, and else the result is the number of bytes.
  unfoldable pub readi : ℕ → ℕ → ℕ → F (Option (List ℕ))
  unfolding read_device read_loop
  readi i off n = do
    ip ← inode i
    if ip.kind == t_dev
        then read_device i n
        else if ltb ip.size off || ltb (add32 off n) off
        then pure none
        else (do
          let m = if ltb ip.size (add32 off n) then ip.size - off else n
          cs ← read_loop m i off m
          pure (some cs))

  unfoldable pub write_device : ℕ → List ℕ → F ℕ
  write_device i cs s =
      let ip = s.inodes i in
      elim (if leb ndev ip.major then none else devsw.writer ip.major) [
        | none ↦ ok (minus_one, s)
        | some f ↦ f i cs s
      ]

  -- The end of `writei`, where `off` has come to the end of what is written.
  unfoldable pub grow_inode : ℕ → ℕ → ℕ → F (Unit {0})
  unfolding iupdate
  grow_inode i off n = do
    ip ← inode i
    when (ltb 0 n && ltb ip.size off) (do put_inode i (record ip { size = off }); iupdate i)

  unfoldable pub writei : ℕ → List ℕ → ℕ → F ℕ
  unfolding write_device write_loop grow_inode
  writei i cs off = do
    ip ← inode i
    let n = length cs
    if ip.kind == t_dev
        then write_device i cs
        else if ltb ip.size off || ltb (add32 off n) off
        then pure minus_one
        else if ltb (maxfile * bsize) (add32 off n)
        then pure minus_one
        else (do write_loop n i off cs; grow_inode i (off + n) n; pure n)
