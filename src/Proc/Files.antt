-- ===== src/Proc/Files.antt =====
-- The open files that `fork` and `clone` give to the new process.
use xmu_learning_os.Base.{
  Option, Option-cases, ap, arith, inl, inr, none, refl, some, suc, zero, ℕ, ◌<◌, ◌≡◌,
}
use xmu_learning_os.Proc.{Kernel}
use xmu_learning_os.Proc.Alloc.{alloc_stack, allocproc, dup_files, embryo_of}
use xmu_learning_os.Services.{Services}

module _ (V : Services) (forkret : ℕ) where
  -- One more reference to each open file.
  unfoldable pub share : ℕ → (ℕ → Option ℕ) → V.St → V.St
  share zero files sv = sv
  share (suc n) files sv = elim (files n) [
    | none ↦ share n files sv
    | some f ↦ V.filedup f (share n files sv)
  ]

  -- The open files of `from`, and what was in `to` where `from` has none.
  pub dup_files_lem :
      (n : ℕ) (from to : ℕ → Option ℕ) (sv : V.St)
      → let r = dup_files V forkret n from to sv in
        ((fd f : ℕ) → fd < n → from fd ≡ some f → r.0 fd ≡ some f)
        × ((fd : ℕ) → from fd ≡ none → r.0 fd ≡ to fd)
        × (r.1 ≡ share n from sv)
  unfolding dup_files share
  dup_files_lem zero from to sv = (λ fd f h e. absurd (omega arith), λ fd e. refl, refl)
  dup_files_lem (suc n) from to sv =
      let (a, b, c) = dup_files_lem n from to sv in
      elim (Option-cases (from n)) [
        | inl e ↦ (
          λ fd f h q. ground (arith, a fd f),
          λ fd q. ground (arith, b fd),
          rw (e, dup_files, share) c,
        )
        | inr (g, e) ↦ (
          λ fd f h q. ground (arith, a fd f),
          λ fd q. ground (arith, b fd),
          rw (e, dup_files, share) (ap (V.filedup g) c),
        )
      ]

  pub allocproc-ofile :
      (k : Kernel V.St) (i : ℕ) → ((allocproc V forkret k).1.procs i).ofile ≡ (k.procs i).ofile
  unfolding allocproc alloc_stack embryo_of
  allocproc-ofile k i = ground arith
