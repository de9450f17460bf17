-- ===== src/Proc/Unique.antt =====
-- No two slots in use have one identifier: every step of the process table, and every run.
use xmu_learning_os.Base.{
  Bool, Bool-cases, Option, ap, arith, each, each-at, false, inl, inr, not, refl, suc, sym, update,
  zero, ℕ, ◌+◌, ◌<◌, ◌==◌, ◌^◌, ◌||◌, ◌∙◌, ◌≡◌, ◌≤◌,
}
use xmu_learning_os.Proc.{Kernel, Proc, chan_of, is_unused, nproc, proc_at, running, unused}
use xmu_learning_os.Proc.Alloc.{growproc, resize}
use xmu_learning_os.Proc.Exit.{abandon, abandon_at, become_zombie, drop_files}
use xmu_learning_os.Proc.Pids.{
  Issues, Numbered, Survives, Survives-refl, awake-Issues, clone-Issues, dispatch-Issues,
  fork-Issues, Issues-Numbered, kill-Issues, setpriority-Issues, sleep-Issues,
  update_statistics-Issues, wakeup-Issues, yield-Issues,
}
use xmu_learning_os.Proc.Scanning.{Scan-cases}
use xmu_learning_os.Proc.Sleep.{wake}
use xmu_learning_os.Proc.System.{
  Reach, Step, clones, counts, dispatches, exit-some, exits, forks, grows, here, join_rounds, kills,
  next, resumes, sets_priority, sleeps, wait2_rounds, wait_rounds, wakes, yields,
}
use xmu_learning_os.Proc.Wait.{
  Joined, Times, is_child, is_thread_child, join_round, no_zombie, reset, reset_all, scan,
  wait2_round, wait_round,
}
use xmu_learning_os.Services.{Services}
use mathlib.Core.Path.{subst}

-- The identifier, and whether the slot is in use, stay.
abbrev SamePid : Proc → Proc → Type 0
SamePid p q = (q.pid ≡ p.pid) × (is_unused q.state ≡ is_unused p.state)

abandon_at-SamePid :
    (initproc : Option ℕ) (cur i : ℕ) (t : ℕ → Proc) (j : ℕ)
    → SamePid (t j) (abandon_at initproc cur i t j)
unfolding abandon_at wake
abandon_at-SamePid initproc cur i t j =
    let t' = update t i (record (t i) { parent = initproc }) in
    ground (arith, each-at nproc (wake (chan_of initproc)) t' j)

abandon-SamePid :
    (initproc : Option ℕ) (cur n : ℕ) (t : ℕ → Proc) (j : ℕ)
    → SamePid (t j) (abandon n initproc cur t j)
unfolding abandon
abandon-SamePid initproc cur zero t j = (refl, refl)
abandon-SamePid initproc cur (suc n) t j =
    let (p, u) = abandon-SamePid initproc cur n t j in
    let (q, v) = abandon_at-SamePid initproc cur n (abandon n initproc cur t) j in (q ∙ p, v ∙ u)

module _ (V : Services) where
  drop_files-SamePid :
      (cur : ℕ) (k : Kernel V.St) (j : ℕ) → SamePid (k.procs j) ((drop_files V cur k).procs j)
  unfolding drop_files
  drop_files-SamePid cur k j = ground arith

  become_zombie-Survives :
      (cur : ℕ) (k : Kernel V.St)
      → is_unused (k.procs cur).state ≡ false
      → (j : ℕ) → Survives (k.procs j) ((become_zombie V cur k).procs j)
  unfolding become_zombie wake
  become_zombie-Survives cur k e j =
      let up = chan_of (k.procs cur).parent in
      let w = each nproc (wake up) k.procs in
      ground (arith, each-at nproc (wake up) k.procs j, abandon-SamePid k.initproc cur nproc w j)

  exit-Issues :
      (cur : ℕ) (k : Kernel V.St)
      → (k.procs cur).state ≡ running
      → Issues k (become_zombie V cur (drop_files V cur k))
  unfolding become_zombie drop_files
  exit-Issues cur k e =
      let d = drop_files V cur k in
      let used = (drop_files-SamePid cur k cur).1 ∙ ap is_unused e in
      inl
        (λ j. ground (arith, drop_files-SamePid cur k j, become_zombie-Survives cur d used j), refl)

  no_zombie-Issues :
      (R : Type 0) (cur : ℕ) (kids : Bool) (k : Kernel V.St)
      → (k.procs cur).state ≡ running
      → Issues k (no_zombie V {R = R} cur kids k).1
  unfolding no_zombie
  no_zombie-Issues R cur kids k e =
      elim (Bool-cases (not kids || not ((k.procs cur).killed == 0))) [
        | inl b ↦ rw b (inl (λ j. Survives-refl (k.procs j), refl))
        | inr b ↦ rw b (sleep-Issues cur (proc_at cur) k e)
      ]

  reap-Issues :
      (i : ℕ) (p : Proc) (sv : V.St) (k : Kernel V.St)
      → p.state ≡ unused
      → Issues k (record k { sv = sv; procs = update k.procs i p })
  reap-Issues i p sv k u = inl (λ j. ground arith, refl)

  wait_round-Issues :
      (cur : ℕ) (k : Kernel V.St) → (k.procs cur).state ≡ running → Issues k (wait_round V cur k).1
  unfolding wait_round reset
  wait_round-Issues cur k h = elim (Scan-cases (scan (is_child cur) nproc 0 false k.procs)) [
    | inl (i, e) ↦
        rw (e, wait_round)
          (reap-Issues i (reset (k.procs i))
            (V.freevm (k.procs i).pgdir (V.kfree (k.procs i).kstack k.sv)) k refl)
    | inr (b, e) ↦ rw (e, wait_round) (no_zombie-Issues ℕ cur b k h)
  ]

  wait2_round-Issues :
      (cur : ℕ) (k : Kernel V.St) → (k.procs cur).state ≡ running → Issues k (wait2_round V cur k).1
  unfolding wait2_round reset_all
  wait2_round-Issues cur k h = elim (Scan-cases (scan (is_child cur) nproc 0 false k.procs)) [
    | inl (i, e) ↦
        rw (e, wait2_round)
          (reap-Issues i (reset_all (k.procs i))
            (V.freevm (k.procs i).pgdir (V.kfree (k.procs i).kstack k.sv)) k refl)
    | inr (b, e) ↦ rw (e, wait2_round) (no_zombie-Issues Times cur b k h)
  ]

  join_round-Issues :
      (cur : ℕ) (k : Kernel V.St) → (k.procs cur).state ≡ running → Issues k (join_round V cur k).1
  unfolding join_round reset
  join_round-Issues cur k h = elim (Scan-cases (scan (is_thread_child cur) nproc 0 false k.procs)) [
    | inl (i, e) ↦
        rw (e, join_round)
          (reap-Issues i (reset (k.procs i)) (V.kfree (k.procs i).kstack k.sv) k refl)
    | inr (b, e) ↦ rw (e, join_round) (no_zombie-Issues Joined cur b k h)
  ]

module _ (V : Services) (forkret : ℕ) (poke : ℕ → ℕ → V.St → V.St) (joins : Bool) where
  growproc-Issues : (cur n : ℕ) (k : Kernel V.St) → Issues k (growproc V forkret cur n k).1
  unfolding growproc resize
  growproc-Issues cur n k = inl (λ j. ground arith, ground arith)

  Step-Issues : {k k' : Kernel V.St} → Step V forkret poke joins k k' → Issues k k'
  Step-Issues {k} (forks cur u) = fork-Issues V forkret cur k
  Step-Issues {k} (clones cur f a s u) = clone-Issues V forkret poke cur f a s k
  Step-Issues {k} (grows cur n u) = growproc-Issues cur n k
  Step-Issues {k} {k'} (exits cur u own e) =
      subst (Issues k) (sym (exit-some V forkret poke joins cur k k' e)) (exit-Issues V cur k u.1)
  Step-Issues {k} (wait_rounds cur u) = wait_round-Issues V cur k u.1
  Step-Issues {k} (wait2_rounds cur u) = wait2_round-Issues V cur k u.1
  Step-Issues {k} (join_rounds cur e u) = join_round-Issues V cur k u.1
  Step-Issues {k} (sleeps cur c u n) = sleep-Issues cur c k u.1
  Step-Issues {k} (resumes cur u) = awake-Issues cur k
  Step-Issues {k} (wakes c) = wakeup-Issues c k
  Step-Issues {k} (kills pid) = kill-Issues pid k
  Step-Issues {k} (yields cur u) = yield-Issues cur k u.1
  Step-Issues {k} (dispatches i l e) = dispatch-Issues i k e
  Step-Issues {k} (sets_priority pid p) = setpriority-Issues pid p k
  Step-Issues {k} counts = update_statistics-Issues k

  abbrev pub steps : {k k' : Kernel V.St} → Reach V forkret poke joins k k' → ℕ
  steps here = 0
  steps (next r s) = suc (steps r)

  Step-next :
      (k k' : Kernel V.St) → Issues k k' → k.nextpid + 1 < 2 ^ 32 → k'.nextpid ≤ k.nextpid + 1
  Step-next k k' (inl i) b = omega (arith, i.1)
  Step-next k k' (inr i) b = ground (arith, i.3)

  counted :
      {k k' : Kernel V.St} (r : Reach V forkret poke joins k k')
      → k.nextpid + steps r < 2 ^ 32
      → Numbered k
      → (k'.nextpid ≤ k.nextpid + steps r) × Numbered k'
  counted here b h = (omega arith, h)
  counted {k} {k'} (next {k' = m} r s) b h =
      let (low, kept) = counted r (omega arith) h in
      let i = Step-Issues s in
      let below : m.nextpid + 1 < 2 ^ 32 = omega (arith, low) in
      let up = Step-next m k' i below in (omega (arith, low, up), Issues-Numbered m k' i below kept)

  -- As long as the steps cannot run the 32-bit counter out, the processes in use keep distinct
  -- identifiers, all below `nextpid`, in every state reached from one where that holds.
  pub Reach-Numbered :
      {k k' : Kernel V.St} (r : Reach V forkret poke joins k k')
      → k.nextpid + steps r < 2 ^ 32
      → Numbered k
      → Numbered k'
  Reach-Numbered r b h = (counted r b h).1
