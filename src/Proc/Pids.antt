-- ===== src/Proc/Pids.antt =====
-- Process identifiers: what each call does to the identifiers of the slots in use and to `nextpid`.
use xmu_learning_os.Base.{
  Bool-cases, Option-cases, add32, arith, each-at, false, first, inl, inr, refl, some, true, ℕ, ◌+◌,
  ◌<◌, ◌==◌, ◌^◌, ◌∙◌, ◌≡◌, ◌≢◌, ◌⊎◌,
}
use xmu_learning_os.Printf.{arg}
use xmu_learning_os.Proc.{Chan, Kernel, Proc, State, is_unused, nproc, runnable, running}
use xmu_learning_os.Proc.Alloc.{
  alloc_stack, allocproc, clone, clone_into, embryo_of, fork, fork_copy, fork_into, is_free,
}
use xmu_learning_os.Proc.Create.{allocproc-some}
use xmu_learning_os.Proc.Sleep.{
  awake, count_tick, dispatch, kill, kill_proc, setpriority, sleep, update_statistics, wake, wakeup,
  yield,
}
use xmu_learning_os.Services.{Services}

-- A slot that is in use afterwards was in use before, under the same identifier.
abbrev pub Survives : Proc → Proc → Type 0
Survives p q = (is_unused q.state ≡ true) ⊎ ((is_unused p.state ≡ false) × (q.pid ≡ p.pid))

-- Either no identifier is issued, or one slot takes the next one.
abbrev pub Issues : {S : Type 0} → Kernel S → Kernel S → Type 0
Issues k k' =
    (((j : ℕ) → Survives (k.procs j) (k'.procs j)) × (k'.nextpid ≡ k.nextpid))
    ⊎ ((i : ℕ) × ((j : ℕ) → i ≢ j → Survives (k.procs j) (k'.procs j))
        × ((k'.procs i).pid ≡ k.nextpid)
        × (k'.nextpid ≡ add32 k.nextpid 1))

-- The slots in use have identifiers that were issued, and no two have the same.
abbrev pub Numbered : {S : Type 0} → Kernel S → Type 0
Numbered k =
    ((i : ℕ) → i < nproc → is_unused (k.procs i).state ≡ false → (k.procs i).pid < k.nextpid)
    × ((i j : ℕ)
        → i < nproc
        → j < nproc
        → is_unused (k.procs i).state ≡ false
        → is_unused (k.procs j).state ≡ false
        → (k.procs i).pid ≡ (k.procs j).pid
        → i ≡ j)

pub Survives-refl : (p : Proc) → Survives p p
Survives-refl p = ground arith

module _ {S : Type 0} where
  issued-below :
      (k k' : Kernel S) (i : ℕ)
      → ((j : ℕ) → i ≢ j → Survives (k.procs j) (k'.procs j))
      → (k'.procs i).pid ≡ k.nextpid
      → k'.nextpid ≡ k.nextpid + 1
      → Numbered k
      → (j : ℕ) → j < nproc
      → is_unused (k'.procs j).state ≡ false
      → ((i ≡ j) ⊎ ((is_unused (k.procs j).state ≡ false) × ((k'.procs j).pid ≡ (k.procs j).pid)))
        × ((k'.procs j).pid < k'.nextpid)
  issued-below k k' i s e n h j l u = elim (Bool-cases (i == j)) [
    | inl d ↦ (inl (ground arith), ground arith)
    | inr d ↦ ground (arith, s j, (h.0) j l)
  ]

  pub Issues-Numbered :
      (k k' : Kernel S) → Issues k k' → k.nextpid + 1 < 2 ^ 32 → Numbered k → Numbered k'
  Issues-Numbered k k' (inl (s, n)) b h = (
    λ i l u. ground (arith, s i, (h.0) i l),
    λ i j li lj ui uj e. ground (arith, s i, s j, (h.1) i j li lj),
  )
  Issues-Numbered k k' (inr (i, s, e, n)) b h =
      let up : k'.nextpid ≡ k.nextpid + 1 = ground arith in
      let f = issued-below k k' i s e up h in
      (
        λ j l u. (f j l u).1,
        λ a c la lc ua uc q.
            ground (arith, (f a la ua).0, (f c lc uc).0, (h.0) a la, (h.0) c lc, (h.1) a c la lc),
      )

module _ (V : Services) (forkret : ℕ) where
  allocproc-Issues : (k : Kernel V.St) → Issues k (allocproc V forkret k).1
  unfolding allocproc alloc_stack embryo_of
  allocproc-Issues k = elim (Option-cases (first is_free nproc 0 k.procs)) [
    | inl o ↦ rw (o, allocproc) (inl (λ j. Survives-refl (k.procs j), refl))
    | inr (i, o) ↦ inr (i, λ j d. ground arith, ground arith, ground arith)
  ]

  -- What follows `allocproc` in `fork` and `clone` writes the new slot only.
  fork_copy-same :
      (cur i : ℕ) (k : Kernel V.St)
      → let k' = (fork_copy V forkret cur i k).1 in
        ((j : ℕ) → i ≢ j → k'.procs j ≡ k.procs j)
        × ((k'.procs i).pid ≡ (k.procs i).pid)
        × (k'.nextpid ≡ k.nextpid)
  unfolding fork_copy fork_into
  fork_copy-same cur i k = (λ j d. ground arith, ground arith, ground arith)

  clone_into-same :
      (poke : ℕ → ℕ → V.St → V.St) (cur i func arg stack : ℕ) (k : Kernel V.St)
      → let k' = (clone_into V forkret poke cur i func arg stack k).1 in
        ((j : ℕ) → i ≢ j → k'.procs j ≡ k.procs j)
        × ((k'.procs i).pid ≡ (k.procs i).pid)
        × (k'.nextpid ≡ k.nextpid)
  unfolding clone_into
  clone_into-same poke cur i func arg stack k = (λ j d. ground arith, ground arith, ground arith)

  -- The slot that `allocproc` gives is the one that took the identifier.
  alloc_some-Issues :
      (k k' : Kernel V.St) (i : ℕ)
      → (allocproc V forkret k).0 ≡ some i
      → let m = (allocproc V forkret k).1 in
        ((j : ℕ) → i ≢ j → k'.procs j ≡ m.procs j)
          × ((k'.procs i).pid ≡ (m.procs i).pid)
          × (k'.nextpid ≡ m.nextpid)
        → Issues k k'
  alloc_some-Issues k k' i e (s, p, n) =
      let made = allocproc-some V forkret k i e in
      inr (i, λ j d. rw (s j d, made.9 j d) (Survives-refl (k.procs j)), p ∙ made.4, n ∙ made.8)

  pub fork-Issues : (cur : ℕ) (k : Kernel V.St) → Issues k (fork V forkret cur k).1
  unfolding fork
  fork-Issues cur k =
      let m = (allocproc V forkret k).1 in
      elim (Option-cases (allocproc V forkret k).0) [
        | inl e ↦ rw (e, fork) (allocproc-Issues k)
        | inr (i, e) ↦
            rw (e, fork)
              (alloc_some-Issues k (fork_copy V forkret cur i m).1 i e (fork_copy-same cur i m))
      ]

  pub clone-Issues :
      (poke : ℕ → ℕ → V.St → V.St) (cur func arg stack : ℕ) (k : Kernel V.St)
      → Issues k (clone V forkret poke cur func arg stack k).1
  unfolding clone
  clone-Issues poke cur func arg stack k =
      let m = (allocproc V forkret k).1 in
      elim (Option-cases (allocproc V forkret k).0) [
        | inl e ↦ rw (e, clone) (allocproc-Issues k)
        | inr (i, e) ↦
            rw (e, clone)
              (alloc_some-Issues k (clone_into V forkret poke cur i func arg stack m).1 i e
                (clone_into-same poke cur i func arg stack m))
      ]

tick-Survives : (p : Proc) (s : State) → s ≡ p.state → Survives p (count_tick s p)
unfolding count_tick
tick-Survives p s e = ground arith

module _ {S : Type 0} where
  pub wakeup-Issues : (c : Chan) (k : Kernel S) → Issues k (wakeup c k)
  unfolding wake wakeup
  wakeup-Issues c k = inl (λ j. ground (arith, each-at nproc (wake c) k.procs j), refl)

  pub kill-Issues : (pid : ℕ) (k : Kernel S) → Issues k (kill pid k).1
  unfolding kill kill_proc
  kill-Issues pid k = inl (λ j. ground arith, ground arith)

  pub setpriority-Issues :
      (pid priority : ℕ) (k : Kernel S) → Issues k (setpriority pid priority k).1
  unfolding setpriority
  setpriority-Issues pid priority k = inl (λ j. ground arith, ground arith)

  pub awake-Issues : (cur : ℕ) (k : Kernel S) → Issues k (awake cur k)
  unfolding awake
  awake-Issues cur k = inl (λ j. ground arith, refl)

  pub yield-Issues :
      (cur : ℕ) (k : Kernel S) → (k.procs cur).state ≡ running → Issues k (yield cur k)
  unfolding yield
  yield-Issues cur k e = inl (λ j. ground arith, refl)

  pub sleep-Issues :
      (cur : ℕ) (c : Chan) (k : Kernel S) → (k.procs cur).state ≡ running → Issues k (sleep cur c k)
  unfolding sleep
  sleep-Issues cur c k e = inl (λ j. ground arith, refl)

  pub dispatch-Issues :
      (i : ℕ) (k : Kernel S) → (k.procs i).state ≡ runnable → Issues k (dispatch (some i) k)
  unfolding dispatch
  dispatch-Issues i k e = inl (λ j. ground arith, refl)

  pub update_statistics-Issues : (k : Kernel S) → Issues k (update_statistics k)
  unfolding update_statistics
  update_statistics-Issues k = inl (
    λ j. ground (
      arith,
      each-at nproc (λ p. count_tick p.state p) k.procs j,
      tick-Survives (k.procs j) (k.procs j).state refl,
    ),
    refl,
  )
