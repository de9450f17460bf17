-- ===== src/Log/Recovery.antt =====
-- What `recover_from_log` makes of a disk.
use xmu_learning_os.Base.{arith, suc, sym, ℕ, ◌<◌, ◌∙◌, ◌≡◌, ◌≢◌, ◌≤◌}
use xmu_learning_os.Log.{
  Block, Log, Store, bwrite, install_trans, read_blocks, read_head, reboot, recover_from_log, slot,
  write_head,
}
use xmu_learning_os.Log.Copy.{copy-disk_done, copy-disk_other, copy-power}
use xmu_learning_os.Log.Head.{read_blocks-entry}
use mathlib.Core.Path.{subst}

-- The log lies apart from the home of every entry, and no block has two entries.
abbrev pub IsPlaced : ℕ → ℕ → (ℕ → ℕ) → Type 0
IsPlaced start n block =
    (i : ℕ)
    → i < n
    → (block i ≢ start)
      × ((j : ℕ) → j < n → block i ≢ slot start j)
      × ((j : ℕ) → j < n → block j ≡ block i → j ≡ i)

-- The header on the disk lists these entries.
abbrev pub Lists : Block → ℕ → (ℕ → ℕ) → Type 0
Lists w n block = (w 0 ≡ n) × ((i : ℕ) → i < n → w (suc i) ≡ block i)

module _ (l : Log) (s : Store) (power : ℕ) where
  abbrev pub recovered : Store
  recovered = (recover_from_log l (reboot power s)).1

  -- The entries as `read_head` reads them.
  abbrev entries : ℕ → ℕ
  entries = read_blocks (s.disk l.start 0) (s.disk l.start) l.block

  -- An empty log leaves the disk alone, but for its own header.
  pub recover-empty : (b : ℕ) → s.disk l.start 0 ≡ 0 → b ≢ l.start → recovered.disk b ≡ s.disk b
  unfolding recover_from_log read_head install_trans write_head bwrite reboot
  recover-empty b e h = ground (
    arith,
    copy-disk_other (slot l.start) entries (s.disk l.start 0) (reboot power s) b
        (λ i d. absurd (omega arith)),
  )

  -- Blocks that are not listed stay.
  pub recover-other :
      (b n : ℕ) (block : ℕ → ℕ)
      → Lists (s.disk l.start) n block
      → b ≢ l.start
      → ((i : ℕ) → i < n → block i ≢ b)
      → recovered.disk b ≡ s.disk b
  unfolding recover_from_log read_head install_trans write_head bwrite reboot
  recover-other b n block lists h rest =
      let t = entries in
      ground (
        arith,
        copy-disk_other (slot l.start) t (s.disk l.start 0) (reboot power s) b (λ i d.
            subst (λ z. z ≢ b)
              (sym (
                read_blocks-entry (s.disk l.start 0) (s.disk l.start) l.block i d
                ∙ lists.1 i (omega arith)))
              (rest i (omega arith))),
      )

  -- Each listed block has the contents of its log block.
  pub recover-listed :
      (n : ℕ) (block : ℕ → ℕ) (i : ℕ)
      → Lists (s.disk l.start) n block
      → IsPlaced l.start n block
      → n ≤ power
      → i < n
      → recovered.disk (block i) ≡ s.disk (slot l.start i)
  unfolding recover_from_log read_head install_trans write_head bwrite reboot
  recover-listed n block i lists placed p h =
      let m = s.disk l.start 0 in
      let read = λ (j : ℕ) (d : j < m).
        read_blocks-entry m (s.disk l.start) l.block j d ∙ lists.1 j (omega arith) in
      ground (
        arith,
        placed i h,
        read i (omega arith),
        copy-power (slot l.start) entries m (reboot power s),
        copy-disk_done (slot l.start) entries m (reboot power s) i (omega arith) (omega arith)
            (λ j d. rw (read j d) ((placed j (omega arith)).1 i h))
            (λ j d e. (placed i h).2 j (omega arith) (sym (read j d) ∙ e ∙ read i (omega arith))),
      )
