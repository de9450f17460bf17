-- ===== src/Log/Crash.antt =====
-- The disk after each stage of a commit, wherever the machine stops in it: the log, the header, the
-- home blocks, the erased header.
use xmu_learning_os.Base.{arith, sym, update, ℕ, ◌-◌, ◌<◌, ◌∙◌, ◌≡◌, ◌≢◌, ◌≤◌}
use xmu_learning_os.Log.{
  Log, Store, bwrite, commit, fill_head, install_trans, slot, write_head, write_log,
}
use xmu_learning_os.Log.Copy.{
  copy-disk_done, copy-disk_off, copy-disk_other, copy-power, copy-seen_done,
}
use xmu_learning_os.Log.Head.{fill_head-count, fill_head-entry}
use xmu_learning_os.Log.Recovery.{IsPlaced, Lists}

-- A block outside the log.
abbrev pub IsHome : ℕ → ℕ → ℕ → Type 0
IsHome start n b = (b ≢ start) × ((j : ℕ) → j < n → slot start j ≢ b)

module _ (l : Log) (s : Store) (some_entry : 0 < l.n) (placed : IsPlaced l.start l.n l.block) where
  abbrev pub logged : Store
  logged = write_log l s

  abbrev pub headed : Store
  headed = write_head l logged

  abbrev pub installed : Store
  installed = install_trans l headed

  abbrev pub ended : Store
  ended = (commit l s).1

  pub slot_inj : (j i : ℕ) → slot l.start j ≡ slot l.start i → j ≡ i
  slot_inj j i e = omega arith

  pub headed-power : headed.power ≡ s.power - l.n - 1
  unfolding write_head bwrite write_log
  headed-power = omega (arith, copy-power l.block (slot l.start) l.n s)

  pub installed-power : installed.power ≡ s.power - l.n - 1 - l.n
  unfolding install_trans
  installed-power = omega (arith, copy-power (slot l.start) l.block l.n headed, headed-power)

  -- Outside the header the last write changes nothing, and without power neither.
  pub ended-disk : (b : ℕ) → b ≢ l.start → ended.disk b ≡ installed.disk b
  unfolding commit write_head bwrite
  ended-disk b h = ground arith

  pub ended-disk_off : (b : ℕ) → installed.power ≡ 0 → ended.disk b ≡ installed.disk b
  unfolding commit write_head bwrite
  ended-disk_off b h = ground arith

  -- The header is erased by the last write, if it is reached.
  pub ended-head : 0 < installed.power → ended.disk l.start 0 ≡ 0
  unfolding commit write_head bwrite fill_head
  ended-head h = ground arith

  pub headed-disk : (b : ℕ) → b ≢ l.start → headed.disk b ≡ logged.disk b
  unfolding write_head bwrite
  headed-disk b h = ground arith

  pub headed-disk_off : (b : ℕ) → logged.power ≡ 0 → headed.disk b ≡ logged.disk b
  unfolding write_head bwrite
  headed-disk_off b h = ground arith

  pub headed-Lists : 0 < logged.power → Lists (headed.disk l.start) l.n l.block
  unfolding write_head bwrite
  headed-Lists h =
      let w = update (logged.seen l.start) 0 l.n in
      (
        ground (arith, fill_head-count l.n l.block w),
        λ i d. ground (arith, fill_head-entry l.n l.block w i),
      )

  pub logged-power : logged.power ≡ s.power - l.n
  unfolding write_log
  logged-power = copy-power l.block (slot l.start) l.n s

  -- Writing the log changes no block outside its slots.
  pub logged-disk : (b : ℕ) → ((j : ℕ) → j < l.n → slot l.start j ≢ b) → logged.disk b ≡ s.disk b
  unfolding write_log
  logged-disk b h = copy-disk_other l.block (slot l.start) l.n s b h

  pub apart : (i j : ℕ) → i < l.n → j < l.n → slot l.start j ≢ l.block i
  apart i j h d e = (placed i h).1 j d (sym e)

  -- The slots have the new contents, in the cache, and with the power for it on the disk.
  pub logged-seen_slot : (i : ℕ) → i < l.n → logged.seen (slot l.start i) ≡ s.seen (l.block i)
  unfolding write_log
  logged-seen_slot i h =
      copy-seen_done l.block (slot l.start) l.n s i h (λ j d. apart i j h d) (λ j d. slot_inj j i)

  pub logged-disk_slot :
      (i : ℕ) → i < l.n → l.n ≤ s.power → logged.disk (slot l.start i) ≡ s.seen (l.block i)
  unfolding write_log
  logged-disk_slot i h p =
      copy-disk_done l.block (slot l.start) l.n s i h p (λ j d. apart i j h d) (λ j d. slot_inj j i)

  -- Installing changes no block that is not an entry.
  pub installed-disk :
      (b : ℕ) → ((j : ℕ) → j < l.n → l.block j ≢ b) → installed.disk b ≡ headed.disk b
  unfolding install_trans
  installed-disk b h = copy-disk_other (slot l.start) l.block l.n headed b h

  pub installed-disk_off : (b : ℕ) → headed.power ≡ 0 → installed.disk b ≡ headed.disk b
  unfolding install_trans
  installed-disk_off b h = copy-disk_off (slot l.start) l.block l.n headed b h

  pub headed-seen_slot : (i : ℕ) → i < l.n → headed.seen (slot l.start i) ≡ s.seen (l.block i)
  unfolding write_head bwrite
  headed-seen_slot i h = ground (arith, logged-seen_slot i h)

  pub installed-disk_entry :
      (i : ℕ) → i < l.n → l.n ≤ headed.power → installed.disk (l.block i) ≡ s.seen (l.block i)
  unfolding install_trans
  installed-disk_entry i h p =
      copy-disk_done (slot l.start) l.block l.n headed i h p (λ j d e. apart j i d h (sym e))
        (λ j d e. (placed i h).2 j d e)
      ∙ headed-seen_slot i h
