-- ===== src/Log/Atomic.antt =====
-- A commit is atomic: wherever the machine stops in it, recovery leaves all of the transaction on
-- the disk or nothing of it.
use xmu_learning_os.Base.{ap, arith, inl, inr, refl, sym, ℕ, ◌+◌, ◌<◌, ◌∙◌, ◌≡◌, ◌≢◌, ◌≤◌, ◌⊎◌}
use xmu_learning_os.Log.{Log, Store, initlog, reboot, slot}
use xmu_learning_os.Log.Crash.{
  IsHome, ended, ended-disk, ended-disk_off, ended-head, headed-Lists, headed-disk, headed-disk_off,
  headed-power, installed-disk, installed-disk_entry, installed-disk_off, installed-power,
  logged-disk, logged-disk_slot, logged-power,
}
use xmu_learning_os.Log.Recovery.{
  IsPlaced, Lists, recover-empty, recover-listed, recover-other, recovered,
}
use mathlib.Core.Path.{subst}
use native.Mathlib.Decide.{dec_lt}

module _ (l : Log) (s : Store) (power : ℕ) (filled : 0 < l.n)
    (placed : IsPlaced l.start l.n l.block) where
  abbrev stopped : Store
  stopped = ended l s filled placed

  abbrev pub fresh : Log
  fresh = record {
    start = l.start;
    size = l.size;
    outstanding = 0;
    committing = 0;
    n = 0;
    block = λ i. 0;
  }

  -- The disk after the machine has started again.
  abbrev pub restarted : Store
  restarted = (initlog l.start l.size (reboot power stopped)).1

  restarted-recovered : restarted ≡ recovered fresh stopped power
  unfolding initlog
  restarted-recovered = refl

  -- The outcome: nothing of the transaction, or all of it.
  abbrev pub Undone : Type 0
  Undone = (b : ℕ) → IsHome l.start l.n b → restarted.disk b ≡ s.disk b

  abbrev pub Done : Type 0
  Done =
      ((i : ℕ) → i < l.n → restarted.disk (l.block i) ≡ s.seen (l.block i))
      × ((b : ℕ)
          → IsHome l.start l.n b
          → ((i : ℕ) → i < l.n → l.block i ≢ b)
          → restarted.disk b ≡ s.disk b)

  stopped_early :
      (b : ℕ) → s.power ≤ l.n → ((j : ℕ) → j < l.n → slot l.start j ≢ b) → stopped.disk b ≡ s.disk b
  stopped_early b p h =
      ended-disk_off l s filled placed b (omega (arith, installed-power l s filled placed))
      ∙ installed-disk_off l s filled placed b (omega (arith, headed-power l s filled placed))
      ∙ headed-disk_off l s filled placed b (omega (arith, logged-power l s filled placed))
      ∙ logged-disk l s filled placed b h

  -- Stopped before the header was written.
  early : s.disk l.start 0 ≡ 0 → s.power ≤ l.n → Undone
  unfolding initlog
  early e p b home =
      recover-empty fresh stopped power b
        (ap (λ (w : ℕ → ℕ). w 0) (stopped_early l.start p (λ j d c. omega arith)) ∙ e) home.0
      ∙ stopped_early b p home.1

  stopped_other :
      (b : ℕ)
      → IsHome l.start l.n b
      → ((i : ℕ) → i < l.n → l.block i ≢ b)
      → stopped.disk b ≡ s.disk b
  stopped_other b home free =
      ended-disk l s filled placed b home.0
      ∙ installed-disk l s filled placed b free
      ∙ headed-disk l s filled placed b home.0
      ∙ logged-disk l s filled placed b home.1

  stopped_slot :
      (i : ℕ) → i < l.n → l.n ≤ s.power → stopped.disk (slot l.start i) ≡ s.seen (l.block i)
  stopped_slot i h p =
      ended-disk l s filled placed (slot l.start i) (λ c. omega arith)
      ∙ installed-disk l s filled placed (slot l.start i) (λ j d. (placed j d).1 i h)
      ∙ headed-disk l s filled placed (slot l.start i) (λ c. omega arith)
      ∙ logged-disk_slot l s filled placed i h p

  stopped-Lists : l.n < s.power → s.power ≤ l.n + 1 + l.n → Lists (stopped.disk l.start) l.n l.block
  stopped-Lists p q =
      subst (λ w. Lists w l.n l.block)
        (sym (
          ended-disk_off l s filled placed l.start
            (omega (arith, installed-power l s filled placed))
          ∙ installed-disk l s filled placed l.start (λ j d. (placed j d).0)))
        (headed-Lists l s filled placed (omega (arith, logged-power l s filled placed)))

  -- Stopped after it, and before it was erased.
  middle : l.n < s.power → s.power ≤ l.n + 1 + l.n → l.n ≤ power → Done
  unfolding initlog
  middle p q r =
      let lists = stopped-Lists p q in
      (
        λ i h.
            recover-listed fresh stopped power l.n l.block i lists placed r h
            ∙ stopped_slot i h (omega arith),
        λ b home free.
            recover-other fresh stopped power b l.n l.block lists home.0 free
            ∙ stopped_other b home free,
      )

  late : l.n + 1 + l.n < s.power → Done
  unfolding initlog
  late p =
      let empty = ended-head l s filled placed (omega (arith, installed-power l s filled placed)) in
      (
        λ i h.
            recover-empty fresh stopped power (l.block i) empty (placed i h).0
            ∙ ended-disk l s filled placed (l.block i) (placed i h).0
            ∙ installed-disk_entry l s filled placed i h
                (omega (arith, headed-power l s filled placed)),
        λ b home free. recover-empty fresh stopped power b empty home.0 ∙ stopped_other b home free,
      )

  -- From an empty log on the disk, with the entries of the transaction placed apart from the log,
  -- and with power for the recovery: wherever the commit stops, recovery leaves every block outside
  -- the log as it was, or all blocks of the transaction as they were written and the others as they
  -- were.
  pub commit_atomic : s.disk l.start 0 ≡ 0 → l.n ≤ power → Undone ⊎ Done
  commit_atomic e r = elim (dec_lt l.n s.power) [
    | no stop ↦ inl (early e (omega arith))
    | yes on ↦ elim (dec_lt (l.n + 1 + l.n) s.power) [
      | yes end ↦ inr (late end)
      | no stop ↦ inr (middle on (omega arith) r)
    ]
  ]
