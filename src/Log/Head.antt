-- ===== src/Log/Head.antt =====
-- The header block: what `write_head` writes is what `read_head` reads.
use xmu_learning_os.Base.{Bool-cases, arith, inl, inr, refl, suc, zero, ℕ, ◌<◌, ◌==◌, ◌≡◌}
use xmu_learning_os.Log.{Block, fill_head, read_blocks}

pub fill_head-count : (n : ℕ) (block : ℕ → ℕ) (w : Block) → fill_head n block w 0 ≡ w 0
unfolding fill_head
fill_head-count zero block w = refl
fill_head-count (suc n) block w = ground (arith, fill_head-count n block w)

pub fill_head-entry :
    (n : ℕ) (block : ℕ → ℕ) (w : Block) (i : ℕ) → i < n → fill_head n block w (suc i) ≡ block i
unfolding fill_head
fill_head-entry zero block w i h = absurd (omega arith)
fill_head-entry (suc n) block w i h = elim (Bool-cases (i == n)) [
  | inl e ↦ ground arith
  | inr d ↦ ground (arith, fill_head-entry n block w i)
]

pub read_blocks-entry :
    (n : ℕ) (w : Block) (block : ℕ → ℕ) (i : ℕ) → i < n → read_blocks n w block i ≡ w (suc i)
unfolding read_blocks
read_blocks-entry zero w block i h = absurd (omega arith)
read_blocks-entry (suc n) w block i h = elim (Bool-cases (i == n)) [
  | inl e ↦ ground arith
  | inr d ↦ ground (arith, read_blocks-entry n w block i)
]
