-- ===== src/Proc/Waiting.antt =====
-- No exit is lost: a process that sleeps in `wait`, `wait2` or `join` has no exited child left that
-- it waits for. The kernel is a step relation, a step for each call under `ptable.lock`.
use xmu_learning_os.Base.{
  Bool, Bool-cases, arith, each, false, inl, inr, not, refl, some, sym, true, update, ℕ, ◌<◌, ◌==◌,
  ◌||◌, ◌∙◌, ◌≡◌, ◌≢◌,
}
use xmu_learning_os.Proc.{
  Chan, Kernel, Proc, chan_of, is_sleeping, is_zombie, nproc, proc_at, unused,
}
use xmu_learning_os.Proc.Abandoned.{
  abandon-Keeps, abandon-parent, abandon-wakes, wake_all, wake_all-asleep,
}
use xmu_learning_os.Proc.Exit.{become_zombie, drop_files}
use xmu_learning_os.Proc.Scanning.{Scan-cases, scan-no_zombie}
use xmu_learning_os.Proc.Sleep.{sleep, wake}
use xmu_learning_os.Proc.Tame.{IsTame}
use xmu_learning_os.Proc.Wait.{
  Joined, Times, is_child, is_thread_child, join_round, no_zombie, reset, reset_all, scan,
  wait2_round, wait_round,
}
use xmu_learning_os.Services.{Services}

-- `joins` says whether `join` is among the calls; a caller of `join` waits for threads only.
abbrev pub matters : Bool → Proc → Bool
matters joins p = not joins || p.isthread == 1

tame_pair :
    (joins : Bool) (p q p' q' : Proc) (i : ℕ)
    → IsTame p p'
    → IsTame q q'
    → (is_sleeping p.state ≡ true
        → p.chan ≡ proc_at i
        → q.parent ≡ some i
        → matters joins q ≡ true
        → is_zombie q.state ≡ false)
    → is_sleeping p'.state ≡ true
    → p'.chan ≡ proc_at i
    → q'.parent ≡ some i
    → matters joins q' ≡ true
    → is_zombie q'.state ≡ false
tame_pair joins p q p' q' i a (inl b) h s c r m = b.1
tame_pair joins p q p' q' i (inl a) (inr b) h s c r m = absurd (ground arith)
tame_pair joins p q p' q' i (inr a) (inr b) h s c r m =
    rw (b.0) (h (rw (a.0) at s) (sym (a.1) ∙ c) (sym (b.2) ∙ r) (rw (b.3) at m))

module _ {S : Type 0} where
  abbrev pub NoLostExit : Bool → Kernel S → Type 0
  NoLostExit joins k =
      (i j : ℕ)
      → i < nproc
      → j < nproc
      → is_sleeping (k.procs i).state ≡ true
      → (k.procs i).chan ≡ proc_at i
      → (k.procs j).parent ≡ some i
      → matters joins (k.procs j) ≡ true
      → is_zombie (k.procs j).state ≡ false

  pub tame-NoLostExit :
      (joins : Bool) (k k' : Kernel S)
      → ((j : ℕ) → IsTame (k.procs j) (k'.procs j))
      → NoLostExit joins k
      → NoLostExit joins k'
  tame-NoLostExit joins k k' t h i j hi hj =
      tame_pair joins (k.procs i) (k.procs j) (k'.procs i) (k'.procs j) i (t i) (t j) (h i j hi hj)

module _ (V : Services) where
  pub drop_files-IsTame :
      (cur : ℕ) (k : Kernel V.St) (j : ℕ) → IsTame (k.procs j) ((drop_files V cur k).procs j)
  unfolding drop_files
  drop_files-IsTame cur k j = ground arith

  pub drop_files-parent :
      (cur : ℕ) (k : Kernel V.St) → ((drop_files V cur k).procs cur).parent ≡ (k.procs cur).parent
  unfolding drop_files
  drop_files-parent cur k = ground arith

  -- `exit` wakes its parent, and wakes init where init adopts a child that has exited.
  pub become_zombie-NoLostExit :
      (joins : Bool) (cur : ℕ) (k : Kernel V.St)
      → cur < nproc
      → (k.procs cur).parent ≢ some cur
      → NoLostExit joins k
      → NoLostExit joins (become_zombie V cur k)
  unfolding become_zombie
  become_zombie-NoLostExit joins cur k hc own h i j hi hj =
      let up = chan_of (k.procs cur).parent in
      let w = each nproc (wake up) k.procs in
      ground (
        arith,
        h i j hi hj,
        wake_all up k.procs i,
        wake_all up k.procs j,
        wake_all-asleep up k.procs i hi,
        abandon-Keeps k.initproc cur nproc w i,
        abandon-Keeps k.initproc cur nproc w j,
        abandon-parent k.initproc cur nproc w j,
        abandon-wakes k.initproc cur nproc w j i,
      )

  pub sleep-NoLostExit :
      (joins : Bool) (cur : ℕ) (c : Chan) (k : Kernel V.St)
      → ((j : ℕ)
          → j < nproc
          → c ≡ proc_at cur
          → (k.procs j).parent ≡ some cur
          → matters joins (k.procs j) ≡ true
          → is_zombie (k.procs j).state ≡ false)
      → NoLostExit joins k
      → NoLostExit joins (sleep cur c k)
  unfolding sleep
  sleep-NoLostExit joins cur c k quiet h i j hi hj = ground (arith, h i j hi hj, quiet j hj)

  no_zombie-NoLostExit :
      (R : Type 0) (joins : Bool) (cur : ℕ) (kids : Bool) (k : Kernel V.St)
      → ((j : ℕ)
          → j < nproc
          → (k.procs j).parent ≡ some cur
          → matters joins (k.procs j) ≡ true
          → is_zombie (k.procs j).state ≡ false)
      → NoLostExit joins k
      → NoLostExit joins (no_zombie V {R = R} cur kids k).1
  unfolding no_zombie
  no_zombie-NoLostExit R joins cur kids k quiet h =
      elim (Bool-cases (not kids || not ((k.procs cur).killed == 0))) [
        | inl e ↦ rw e h
        | inr e ↦ rw e (sleep-NoLostExit joins cur (proc_at cur) k (λ j l _. quiet j l) h)
      ]

  reap-NoLostExit :
      (joins : Bool) (i : ℕ) (p : Proc) (sv : V.St) (k : Kernel V.St)
      → p.state ≡ unused
      → NoLostExit joins k
      → NoLostExit joins (record k { sv = sv; procs = update k.procs i p })
  reap-NoLostExit joins i p sv k u h =
      tame-NoLostExit joins k (record k { sv = sv; procs = update k.procs i p }) (λ j. ground arith)
        h

  pub wait_round-NoLostExit :
      (joins : Bool) (cur : ℕ) (k : Kernel V.St)
      → NoLostExit joins k
      → NoLostExit joins (wait_round V cur k).1
  unfolding wait_round reset
  wait_round-NoLostExit joins cur k h =
      elim (Scan-cases (scan (is_child cur) nproc 0 false k.procs)) [
        | inl (i, e) ↦
            rw (e, wait_round)
              (reap-NoLostExit joins i (reset (k.procs i))
                (V.freevm (k.procs i).pgdir (V.kfree (k.procs i).kstack k.sv)) k refl h)
        | inr (b, e) ↦
            rw (e, wait_round)
              (no_zombie-NoLostExit ℕ joins cur b k
                (λ j l r m.
                  scan-no_zombie (is_child cur) nproc 0 false b k.procs j e (omega arith)
                    (omega arith) (ground arith))
                h)
      ]

  pub wait2_round-NoLostExit :
      (joins : Bool) (cur : ℕ) (k : Kernel V.St)
      → NoLostExit joins k
      → NoLostExit joins (wait2_round V cur k).1
  unfolding wait2_round reset_all
  wait2_round-NoLostExit joins cur k h =
      elim (Scan-cases (scan (is_child cur) nproc 0 false k.procs)) [
        | inl (i, e) ↦
            rw (e, wait2_round)
              (reap-NoLostExit joins i (reset_all (k.procs i))
                (V.freevm (k.procs i).pgdir (V.kfree (k.procs i).kstack k.sv)) k refl h)
        | inr (b, e) ↦
            rw (e, wait2_round)
              (no_zombie-NoLostExit Times joins cur b k
                (λ j l r m.
                  scan-no_zombie (is_child cur) nproc 0 false b k.procs j e (omega arith)
                    (omega arith) (ground arith))
                h)
      ]

  pub join_round-NoLostExit :
      (cur : ℕ) (k : Kernel V.St) → NoLostExit true k → NoLostExit true (join_round V cur k).1
  unfolding join_round reset
  join_round-NoLostExit cur k h =
      elim (Scan-cases (scan (is_thread_child cur) nproc 0 false k.procs)) [
        | inl (i, e) ↦
            rw (e, join_round)
              (reap-NoLostExit true i (reset (k.procs i)) (V.kfree (k.procs i).kstack k.sv) k refl
                h)
        | inr (b, e) ↦
            rw (e, join_round)
              (no_zombie-NoLostExit Joined true cur b k
                (λ j l r m.
                  scan-no_zombie (is_thread_child cur) nproc 0 false b k.procs j e (omega arith)
                    (omega arith) (ground arith))
                h)
      ]
