-- ===== src/Fs/Blocks.antt =====
-- Lab/code/fs.c: `balloc` and `bfree`, on the bitmap of used blocks.
pub mod Allocate
pub mod Bits
pub mod Marks
use xmu_learning_os.Base.{
  Bool, Bytes, Option, first, gets, if◌then◌else◌, ltb, none, not, panic_if, panicking, pure, some,
  stopped, suc, update, zero, ℕ, ◌%◌, ◌+◌, ◌-◌, ◌/◌, ◌==◌, ◌>>=◌, ◌>>◌, ◌^◌,
}
use xmu_learning_os.Fs.{F, Superblock, bblock, bpb, bread, bzero, readsb, write_block}

-- `bp->data[bi/8] & (1 << (bi % 8))`
abbrev pub is_marked : Bytes → ℕ → Bool
is_marked w bi = not (w (bi / 8) / 2 ^ (bi % 8) % 2 == 0)

-- `|= m` where the bit is 0, and `&= ~m` where it is 1.
abbrev pub mark : Bytes → ℕ → Bytes
mark w bi = update w (bi / 8) (w (bi / 8) + 2 ^ (bi % 8))

abbrev pub unmark : Bytes → ℕ → Bytes
unmark w bi = update w (bi / 8) (w (bi / 8) - 2 ^ (bi % 8))

-- The inner loop of `balloc` over the bitmap block of `b`.
unfoldable pub find_clear : ℕ → Superblock → Bytes → Option ℕ
find_clear b sb w =
    first (λ used. not used) (if ltb (sb.size - b) bpb then sb.size - b else bpb) 0
      (λ bi. is_marked w bi)

-- What `balloc` does with the clear bit `bi` of the bitmap block of `b`.
unfoldable pub claim : ℕ → ℕ → ℕ → F ℕ
unfolding bzero write_block
claim d b bi = do
  sb ← gets λ s. s.sb
  w ← bread d (bblock b sb)
  write_block d (bblock b sb) (mark w bi)
  bzero d (b + bi)
  pure (b + bi)

-- The outer loop, with `r` bitmap blocks left.
unfoldable pub balloc_from : ℕ → ℕ → ℕ → F ℕ
unfolding find_clear claim
balloc_from zero b d s = stopped panicking
balloc_from (suc r) b d s = elim (find_clear b s.sb (s.content d (bblock b s.sb))) [
  | none ↦ balloc_from r (b + bpb) d s
  | some bi ↦ claim d b bi s
]

-- The number of bitmap blocks.
abbrev pub bitmap_blocks : Superblock → ℕ
bitmap_blocks sb = (sb.size + (bpb - 1)) / bpb

unfoldable pub balloc : ℕ → F ℕ
unfolding balloc_from
balloc d s = balloc_from (bitmap_blocks s.sb) 0 d s

unfoldable pub bfree : ℕ → ℕ → F (Unit {0})
unfolding readsb write_block
bfree d b = do
  readsb d
  sb ← gets λ s. s.sb
  w ← bread d (bblock b sb)
  panic_if (not (is_marked w (b % bpb)))
  write_block d (bblock b sb) (unmark w (b % bpb))
