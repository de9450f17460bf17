-- ===== src/Proc/Reap.antt =====
-- What `wait`, `wait2` and `join` return, and what `kill` and `update_statistics` do.
use xmu_learning_os.Base.{
  Bool-cases, Option-cases, ap, arith, false, first, first-before, first-none, first-some, inl, inr,
  ltb, minus_one, none, refl, some, true, ℕ, ◌<◌, ◌==◌, ◌∙◌, ◌≡◌, ◌≢◌, ◌⊎◌,
}
use xmu_learning_os.Proc.{Kernel, nproc, sleeping, unused, zombie}
use xmu_learning_os.Proc.Alloc.{alloc_stack, allocproc, embryo_of}
use xmu_learning_os.Proc.Scanning.{Scan-cases, scan-exited, scan-no_kids}
use xmu_learning_os.Proc.Sleep.{has_pid, kill, kill_proc}
use xmu_learning_os.Proc.Wait.{fails, is_child, no_zombie, reset, returns, scan, wait_round}
use xmu_learning_os.Services.{Services}

module _ (V : Services) where
  -- A round of `wait` that returns a pid has found an exited child of the caller with that pid. It
  -- frees the slot, and leaves all others.
  pub wait_round-returns :
      (cur pid : ℕ) (k : Kernel V.St)
      → (wait_round V cur k).0 ≡ returns pid
      → (i : ℕ) × (i < nproc)
        × ((k.procs i).parent ≡ some cur)
        × ((k.procs i).state ≡ zombie)
        × ((k.procs i).pid ≡ pid)
        × (((wait_round V cur k).1.procs i).state ≡ unused)
        × (((wait_round V cur k).1.procs i).parent ≡ none)
        × ((j : ℕ) → i ≢ j → (wait_round V cur k).1.procs j ≡ k.procs j)
        × ((wait_round V cur k).1.sv ≡ V.freevm (k.procs i).pgdir (V.kfree (k.procs i).kstack k.sv))
  unfolding wait_round no_zombie reset
  wait_round-returns cur pid k e = elim (Scan-cases (scan (is_child cur) nproc 0 false k.procs)) [
    | inl (i, s) ↦
        let f = scan-exited (is_child cur) nproc 0 false k.procs i s in
        (
          i,
          omega arith,
          ground arith,
          ground arith,
          ground arith,
          ground arith,
          ground arith,
          λ j d. ground arith,
          ground arith,
        )
    | inr (b, s) ↦ absurd (ground arith)
  ]

  -- A round that fails changes nothing, and the caller has no child or has been killed.
  pub wait_round-fails :
      (cur : ℕ) (k : Kernel V.St)
      → (wait_round V cur k).0 ≡ fails
      → ((wait_round V cur k).1 ≡ k)
        × (((j : ℕ) → j < nproc → (k.procs j).parent ≢ some cur) ⊎ ((k.procs cur).killed ≢ 0))
  unfolding wait_round no_zombie
  wait_round-fails cur k e = elim (Scan-cases (scan (is_child cur) nproc 0 false k.procs)) [
    | inl (i, s) ↦ absurd (ground arith)
    | inr (true, s) ↦ (ground arith, inr (ground arith))
    | inr (false, s) ↦ (
      ground arith,
      inl λ j h c. ground (
        arith,
        scan-no_kids (is_child cur) nproc 0 false k.procs j s (omega arith) (omega arith),
      ),
    )
  ]

-- `kill` of a pid that some slot has reports success, marks the first such slot killed and leaves it
-- runnable if it slept; otherwise it fails. No other slot changes.
kill_lem :
    {S : Type 0} (pid : ℕ) (k : Kernel S)
    → let r = kill pid k in
      ((i : ℕ) × (i < nproc)
        × ((k.procs i).pid ≡ pid)
        × (r.0 ≡ 0)
        × ((r.1.procs i).killed ≡ 1)
        × ((r.1.procs i).state ≢ sleeping)
        × ((j : ℕ) → j < i → (k.procs j).pid ≢ pid)
        × ((j : ℕ) → i ≢ j → r.1.procs j ≡ k.procs j))
      ⊎ (((i : ℕ) → i < nproc → (k.procs i).pid ≢ pid) × (r ≡ (minus_one, k)))
unfolding kill kill_proc
kill_lem pid k = elim (Option-cases (first (has_pid pid) nproc 0 k.procs)) [
  | inl o ↦ inr (
    λ i h e.
        ground (arith, first-none (has_pid pid) nproc 0 k.procs i o (omega arith) (omega arith)),
    rw (o, kill),
  )
  | inr (i, o) ↦
      let f = first-some (has_pid pid) nproc 0 k.procs i o in
      inl (
        i,
        omega arith,
        ground arith,
        ground arith,
        ground arith,
        ground arith,
        λ j l e. ground (arith, first-before (has_pid pid) nproc 0 k.procs i j o (omega arith) l),
        λ j d. ground arith,
      )
]

-- `allocproc` leaves the mark of `kill` on the slot that it takes.
allocproc-killed :
    (V : Services) (forkret : ℕ) (k : Kernel V.St) (i : ℕ)
    → (allocproc V forkret k).0 ≡ some i
    → ((allocproc V forkret k).1.procs i).killed ≡ (k.procs i).killed
unfolding allocproc alloc_stack embryo_of
allocproc-killed V forkret k i e = ground arith

Nat-order : (a b : ℕ) → (a < b) ⊎ ((a ≡ b) ⊎ (b < a))
Nat-order a b = elim (Bool-cases (ltb a b)) [
  | inl l ↦ inl (ground arith)
  | inr n ↦ elim (Bool-cases (a == b)) [
    | inl e ↦ inr (inl (ground arith))
    | inr d ↦ inr (inr (ground arith))
  ]
]

first_zero :
    {S : Type 0} (k : Kernel S) (i : ℕ)
    → i < nproc
    → (k.procs i).pid ≡ 0
    → ((j : ℕ) → j < i → (k.procs j).pid ≢ 0)
    → first (has_pid 0) nproc 0 k.procs ≡ some i
first_zero k i l p earlier = elim (Option-cases (first (has_pid 0) nproc 0 k.procs)) [
  | inl o ↦
      absurd
        (ground (arith, first-none (has_pid 0) nproc 0 k.procs i o (omega arith) (omega arith)))
  | inr (j, o) ↦
      let f = first-some (has_pid 0) nproc 0 k.procs j o in
      elim (Nat-order j i) [
        | inl less ↦ absurd (earlier j less (ground arith))
        | inr (inl same) ↦ o ∙ ap some same
        | inr (inr more) ↦
            absurd
              (ground (arith, first-before (has_pid 0) nproc 0 k.procs j i o (omega arith) more))
      ]
]

-- Where the first slot with pid 0 is unused, `kill(0)` succeeds and marks it. Whenever `allocproc`
-- takes the slot afterwards, in any kernel whose slot is as `kill` left it, the new process is killed
-- from the start.
pub kill-zero_marks_unused :
    (V : Services) (forkret : ℕ) (k k2 : Kernel V.St) (i : ℕ)
    → i < nproc
    → (k.procs i).pid ≡ 0
    → (k.procs i).state ≡ unused
    → ((j : ℕ) → j < i → (k.procs j).pid ≢ 0)
    → k2.procs i ≡ (kill 0 k).1.procs i
    → (allocproc V forkret k2).0 ≡ some i
    → ((kill 0 k).0 ≡ 0)
      × (((kill 0 k).1.procs i).state ≡ unused)
      × (((allocproc V forkret k2).1.procs i).killed ≡ 1)
unfolding kill kill_proc
kill-zero_marks_unused V forkret k k2 i l p u earlier same e =
    let found = first_zero k i l p earlier in
    let marked : ((kill 0 k).1.procs i).killed ≡ 1 = rw (found, kill) (ground arith) in
    (
      rw (found, kill) refl,
      rw (found, kill) (ground arith),
      allocproc-killed V forkret k2 i e ∙ ap (λ q. q.killed) same ∙ marked,
    )
