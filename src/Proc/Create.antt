-- ===== src/Proc/Create.antt =====
-- What `allocproc` and `fork` make, on every branch.
use xmu_learning_os.Base.{
  Option-cases, add32, arith, false, first, first-before, first-none, first-some, inl, inr, none,
  some, true, ℕ, ◌<◌, ◌≡◌, ◌≢◌, ◌⊎◌,
}
use xmu_learning_os.Proc.{Kernel, embryo, is_unused, nproc}
use xmu_learning_os.Proc.Alloc.{alloc_stack, allocproc, embryo_of, is_free}
use xmu_learning_os.Services.{Services}

module _ (V : Services) (forkret : ℕ) where
  allocproc-first :
      (k : Kernel V.St) (i : ℕ)
      → (allocproc V forkret k).0 ≡ some i
      → (first is_free nproc 0 k.procs ≡ some i) × ((V.kalloc k.sv).0 ≢ 0)
  unfolding allocproc alloc_stack
  allocproc-first k i e = ground arith

  -- `allocproc` takes the first unused slot: the new process has the next pid, the default priority,
  -- the time of its creation and a stack, and no other slot changes.
  pub allocproc-some :
      (k : Kernel V.St) (i : ℕ)
      → (allocproc V forkret k).0 ≡ some i
      → let k' = (allocproc V forkret k).1 in
        (i < nproc)
        × (is_unused (k.procs i).state ≡ true)
        × ((j : ℕ) → j < i → is_unused (k.procs j).state ≡ false)
        × ((k'.procs i).state ≡ embryo)
        × ((k'.procs i).pid ≡ k.nextpid)
        × ((k'.procs i).priority ≡ 10)
        × ((k'.procs i).ctime ≡ k.ticks)
        × ((k'.procs i).kstack ≢ 0)
        × (k'.nextpid ≡ add32 k.nextpid 1)
        × ((j : ℕ) → i ≢ j → k'.procs j ≡ k.procs j)
  unfolding allocproc alloc_stack embryo_of
  allocproc-some k i e =
      let (o, page) = allocproc-first k i e in
      let (low, high, free) = first-some is_free nproc 0 k.procs i o in
      (
        omega arith,
        free,
        λ j l. first-before is_free nproc 0 k.procs i j o (omega arith) l,
        ground arith,
        ground arith,
        ground arith,
        ground arith,
        ground arith,
        ground arith,
        λ j d. ground arith,
      )

  no_room :
      (k : Kernel V.St)
      → (allocproc V forkret k).0 ≡ none
      → ((i : ℕ) → i < nproc → is_unused (k.procs i).state ≡ false) ⊎ ((V.kalloc k.sv).0 ≡ 0)
  unfolding allocproc alloc_stack
  no_room k e = elim (Option-cases (first is_free nproc 0 k.procs)) [
    | inl o ↦ inl (λ i h. first-none is_free nproc 0 k.procs i o (omega arith) (omega arith))
    | inr (b, o) ↦ inr (ground arith)
  ]

  -- A slot in use is not the one that was found.
  kept_by_failure :
      (k : Kernel V.St) (j : ℕ)
      → (allocproc V forkret k).0 ≡ none
      → is_unused (k.procs j).state ≡ false
      → (allocproc V forkret k).1.procs j ≡ k.procs j
  unfolding allocproc alloc_stack embryo_of
  kept_by_failure k j e u = elim (Option-cases (first is_free nproc 0 k.procs)) [
    | inl o ↦ ground arith
    | inr (b, o) ↦ ground (arith, first-some is_free nproc 0 k.procs b)
  ]

  -- Where it fails, no slot is free or no page is left for the stack; all slots that were in use
  -- stay as they are, and the free ones stay free.
  pub allocproc-none :
      (k : Kernel V.St)
      → (allocproc V forkret k).0 ≡ none
      → let k' = (allocproc V forkret k).1 in
        (((i : ℕ) → i < nproc → is_unused (k.procs i).state ≡ false) ⊎ ((V.kalloc k.sv).0 ≡ 0))
        × ((j : ℕ) → is_unused (k.procs j).state ≡ false → k'.procs j ≡ k.procs j)
        × ((j : ℕ) → is_unused (k.procs j).state ≡ true → is_unused (k'.procs j).state ≡ true)
  unfolding allocproc alloc_stack embryo_of
  allocproc-none k e = (no_room k e, λ j u. kept_by_failure k j e u, λ j u. ground arith)
