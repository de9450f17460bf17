-- ===== src/Fs/Blocks/Marks.antt =====
-- What `balloc` of Lab/code/fs.c does to the bitmap, bit by bit, and to all other blocks.
use xmu_learning_os.Base.{
  Bool-cases, Bytes, ap, arith, false, fill, inl, inr, ok, sym, true, ℕ, ◌%◌, ◌/◌, ◌<◌, ◌==◌, ◌∙◌,
  ◌≡◌, ◌≢◌, ◌⊎◌,
}
use xmu_learning_os.Fs.{Fs, Superblock, bblock, bpb}
use xmu_learning_os.Fs.Blocks.{balloc, is_marked, mark}
use xmu_learning_os.Fs.Blocks.Allocate.{FirstFree, balloc-FirstFree, claimed}
use xmu_learning_os.Fs.Blocks.Bits.{bit, bit-set, bit-set_bounded, bit-set_other}
use mathlib.Core.Path.{subst}

-- Bit `i` of a block.
abbrev pub bit_at : Bytes → ℕ → ℕ
bit_at w i = bit (w (i / 8)) (i % 8)

-- The bit that the bitmap has for the block `b`.
abbrev pub mark_bit : Fs → ℕ → ℕ → ℕ
mark_bit s d b = bit_at (s.content d (bblock b s.sb)) (b % bpb)

-- Bit `i` is 1 in `w'`, and all else is as in `w`.
unfoldable pub SetsBit : Bytes → Bytes → ℕ → Type 0
SetsBit w w' i =
    (bit_at w' i ≡ 1)
    × ((j : ℕ) → j ≢ i → bit_at w' j ≡ bit_at w j)
    × ((b : ℕ) → b ≢ i / 8 → w' b ≡ w b)
    × (w (i / 8) < 256 → w' (i / 8) < 256)

mark-SetsBit : (w : Bytes) (i : ℕ) → bit_at w i ≡ 0 → SetsBit w (mark w i) i
unfolding SetsBit
mark-SetsBit w i h =
    let x = w (i / 8) in
    let r = i % 8 in
    (
      ground (arith, bit-set r x h),
      λ j d. elim (Bool-cases (i / 8 == j / 8)) [
        | inl e ↦
            let near : j % 8 ≢ r = λ q. d (ground arith) in
            let same : i / 8 ≡ j / 8 = ground arith in
            ground (arith, bit-set_other r (j % 8) x near h, ap w same)
        | inr e ↦ ground arith
      ],
      λ b d. ground arith,
      λ l. ground (arith, bit-set_bounded 8 r x (omega arith) l h),
    )

-- The first block of the disk without a mark is taken.
unfoldable pub Taken : ℕ → Fs → ℕ → Fs → Type 0
unfolding SetsBit
Taken d s bl s' =
    (bl < s.sb.size)
    × (mark_bit s d bl ≡ 0)
    × ((x : ℕ) → x < bl → mark_bit s d x ≡ 1)
    × ((bblock bl s.sb ≡ bl)
        ⊎ SetsBit (s.content d (bblock bl s.sb)) (s'.content d (bblock bl s.sb)) (bl % bpb))
    × ((k : ℕ) → k < 512 → s'.content d bl k ≡ 0)
    × ((e n : ℕ) → (e ≢ d) ⊎ ((n ≢ bl) × (n ≢ bblock bl s.sb)) → s'.content e n ≡ s.content e n)
    × (s'.sb ≡ s.sb)
    × (s'.inodes ≡ s.inodes)

clear_bit : (w : Bytes) (i : ℕ) → is_marked w i ≡ false → bit_at w i ≡ 0
clear_bit w i h = ground arith

set_bit : (w : Bytes) (i : ℕ) → is_marked w i ≡ true → bit_at w i ≡ 1
set_bit w i h = ground arith

-- The contents that a claim of the block `b` leaves.
claimed-Sets :
    (c : ℕ → ℕ → Bytes) (sb : Superblock) (d b : ℕ)
    → bit_at (c d (bblock b sb)) (b % bpb) ≡ 0
    → (bblock b sb ≡ b) ⊎ SetsBit (c d (bblock b sb)) (claimed c sb d b d (bblock b sb)) (b % bpb)
unfolding claimed
claimed-Sets c sb d b h = elim (Bool-cases (b == bblock b sb)) [
  | inl e ↦ inl (ground arith)
  | inr n ↦
      let kept : claimed c sb d b d (bblock b sb) ≡ mark (c d (bblock b sb)) (b % bpb) =
        ground arith in
      inr (
        subst (λ w. SetsBit (c d (bblock b sb)) w (b % bpb)) (sym kept)
          (mark-SetsBit (c d (bblock b sb)) (b % bpb) h))
]

claimed_zero :
    (c : ℕ → ℕ → Bytes) (sb : Superblock) (d b k : ℕ) → k < 512 → claimed c sb d b d b k ≡ 0
unfolding claimed fill
claimed_zero c sb d b k h = ground arith

claimed_other :
    (c : ℕ → ℕ → Bytes) (sb : Superblock) (d b e n : ℕ)
    → (e ≢ d) ⊎ ((n ≢ b) × (n ≢ bblock b sb))
    → claimed c sb d b e n ≡ c e n
unfolding claimed
claimed_other c sb d b e n (inl h) = ground arith
claimed_other c sb d b e n (inr h) = ground arith

-- A `balloc` that does not panic returns the first block of the disk whose bit in the bitmap is 0.
-- Afterwards that bit is 1 and every other bit of the bitmap block is as it was, unless the bitmap
-- block is the very block that is taken; the block taken is zero, and no other block, and nothing of
-- the inodes, changes.
pub balloc_lem : (d : ℕ) (s : Fs) (bl : ℕ) (s' : Fs) → balloc d s ≡ ok (bl, s') → Taken d s bl s'
unfolding Taken FirstFree
balloc_lem d s bl s' e =
    let (lo, hi, free, full, c, sb, inodes) = balloc-FirstFree d s bl s' e in
    let m = bblock bl s.sb in
    let clear = clear_bit (s.content d m) (bl % bpb) free in
    (
      hi,
      clear,
      λ x h. set_bit (s.content d (bblock x s.sb)) (x % bpb) (full x (omega arith) h),
      subst (λ t. (m ≡ bl) ⊎ SetsBit (s.content d m) (t d m) (bl % bpb)) (sym c)
          (claimed-Sets s.content s.sb d bl clear),
      λ k h. ap (λ t. t d bl k) c ∙ claimed_zero s.content s.sb d bl k h,
      λ x n h. ap (λ t. t x n) c ∙ claimed_other s.content s.sb d bl x n h,
      sb,
      inodes,
    )
