-- ===== src/Log/Copy.antt =====
-- What the copy loops of the log leave on the disk, wherever the machine stops.
use xmu_learning_os.Base.{
  Bool-cases, arith, inl, inr, refl, suc, zero, ℕ, ◌-◌, ◌<◌, ◌==◌, ◌≡◌, ◌≢◌, ◌≤◌,
}
use xmu_learning_os.Log.{Store, bwrite, copy_blocks}

module _ (from to : ℕ → ℕ) where
  pub copy-power : (n : ℕ) (s : Store) → (copy_blocks from to n s).power ≡ s.power - n
  unfolding copy_blocks bwrite
  copy-power zero s = omega arith
  copy-power (suc n) s = omega (arith, copy-power n s)

  -- Other blocks stay as they are.
  pub copy-seen_other :
      (n : ℕ) (s : Store) (b : ℕ)
      → ((i : ℕ) → i < n → to i ≢ b)
      → (copy_blocks from to n s).seen b ≡ s.seen b
  unfolding copy_blocks bwrite
  copy-seen_other zero s b h = refl
  copy-seen_other (suc n) s b h =
      ground (arith, h n (omega arith), copy-seen_other n s b (λ i l. h i (omega arith)))

  pub copy-disk_other :
      (n : ℕ) (s : Store) (b : ℕ)
      → ((i : ℕ) → i < n → to i ≢ b)
      → (copy_blocks from to n s).disk b ≡ s.disk b
  unfolding copy_blocks bwrite
  copy-disk_other zero s b h = refl
  copy-disk_other (suc n) s b h =
      ground (arith, h n (omega arith), copy-disk_other n s b (λ i l. h i (omega arith)))

  -- Without power the disk stays as it is.
  pub copy-disk_off :
      (n : ℕ) (s : Store) (b : ℕ) → s.power ≡ 0 → (copy_blocks from to n s).disk b ≡ s.disk b
  unfolding copy_blocks bwrite
  copy-disk_off zero s b h = refl
  copy-disk_off (suc n) s b h = ground (arith, copy-power n s, copy-disk_off n s b h)

  -- Where no block that is read is written, each block written shows the block read.
  pub copy-seen_done :
      (n : ℕ) (s : Store) (i : ℕ)
      → i < n
      → ((j : ℕ) → j < n → to j ≢ from i)
      → ((j : ℕ) → j < n → to j ≡ to i → j ≡ i)
      → (copy_blocks from to n s).seen (to i) ≡ s.seen (from i)
  unfolding copy_blocks bwrite
  copy-seen_done zero s i h apart distinct = absurd (omega arith)
  copy-seen_done (suc n) s i h apart distinct = elim (Bool-cases (i == n)) [
    | inl e ↦ ground (arith, copy-seen_other n s (from i) (λ j l. apart j (omega arith)))
    | inr d ↦ ground (
      arith,
      distinct n (omega arith),
      copy-seen_done n s i (ground arith) (λ j l. apart j (omega arith))
          (λ j l. distinct j (omega arith)),
    )
  ]

  -- With enough power it is on the disk, and else the disk has it or what it had.
  pub copy-disk_done :
      (n : ℕ) (s : Store) (i : ℕ)
      → i < n
      → n ≤ s.power
      → ((j : ℕ) → j < n → to j ≢ from i)
      → ((j : ℕ) → j < n → to j ≡ to i → j ≡ i)
      → (copy_blocks from to n s).disk (to i) ≡ s.seen (from i)
  unfolding copy_blocks bwrite
  copy-disk_done zero s i h p apart distinct = absurd (omega arith)
  copy-disk_done (suc n) s i h p apart distinct = elim (Bool-cases (i == n)) [
    | inl e ↦
        ground (arith, copy-power n s, copy-seen_other n s (from i) (λ j l. apart j (omega arith)))
    | inr d ↦ ground (
      arith,
      distinct n (omega arith),
      copy-disk_done n s i (ground arith) (omega arith) (λ j l. apart j (omega arith))
          (λ j l. distinct j (omega arith)),
    )
  ]
