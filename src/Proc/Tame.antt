-- ===== src/Proc/Tame.antt =====
-- What the calls that neither exit nor sleep do to each process: it ends up neither asleep nor a
-- zombie, or it keeps all that a waiting parent looks at.
use xmu_learning_os.Base.{Option-cases, arith, false, inl, inr, refl, ℕ, ◌∙◌, ◌≡◌, ◌⊎◌}
use xmu_learning_os.Proc.{Kernel, Proc, is_sleeping, is_zombie}
use xmu_learning_os.Proc.Alloc.{
  alloc_stack, allocproc, clone, clone_into, embryo_of, fork, fork_copy, fork_into,
}
use xmu_learning_os.Services.{Services}

abbrev pub IsTame : Proc → Proc → Type 0
IsTame p q =
    ((is_sleeping q.state ≡ false) × (is_zombie q.state ≡ false))
    ⊎ ((q.state ≡ p.state) × (q.chan ≡ p.chan) × (q.parent ≡ p.parent) × (q.isthread ≡ p.isthread))

pub IsTame-refl : (p : Proc) → IsTame p p
IsTame-refl p = inr (refl, refl, refl, refl)

pub IsTame-trans : (p q r : Proc) → IsTame p q → IsTame q r → IsTame p r
IsTame-trans p q r (inl a) (inl b) = inl b
IsTame-trans p q r (inl a) (inr b) = inl (rw (b.0) (a.0), rw (b.0) (a.1))
IsTame-trans p q r (inr a) (inl b) = inl b
IsTame-trans p q r (inr a) (inr b) = inr (b.0 ∙ a.0, b.1 ∙ a.1, b.2 ∙ a.2, b.3 ∙ a.3)

module _ (V : Services) (forkret : ℕ) where
  pub alloc_stack-IsTame :
      (i : ℕ) (k : Kernel V.St) (j : ℕ)
      → is_sleeping (k.procs i).state ≡ false
      → is_zombie (k.procs i).state ≡ false
      → IsTame (k.procs j) ((alloc_stack V forkret i k).1.procs j)
  unfolding alloc_stack
  alloc_stack-IsTame i k j s z = ground arith

  pub allocproc-IsTame :
      (k : Kernel V.St) (j : ℕ) → IsTame (k.procs j) ((allocproc V forkret k).1.procs j)
  unfolding allocproc alloc_stack embryo_of
  allocproc-IsTame k j = ground arith

  pub fork_copy-IsTame :
      (cur i : ℕ) (k : Kernel V.St) (j : ℕ)
      → IsTame (k.procs j) ((fork_copy V forkret cur i k).1.procs j)
  unfolding fork_copy fork_into
  fork_copy-IsTame cur i k j = ground arith

  pub fork-IsTame :
      (cur : ℕ) (k : Kernel V.St) (j : ℕ) → IsTame (k.procs j) ((fork V forkret cur k).1.procs j)
  unfolding fork
  fork-IsTame cur k j =
      let k' = (allocproc V forkret k).1 in
      elim (Option-cases (allocproc V forkret k).0) [
        | inl e ↦ rw (e, fork) (allocproc-IsTame k j)
        | inr (i, e) ↦
            rw (e, fork)
              (IsTame-trans (k.procs j) (k'.procs j) ((fork_copy V forkret cur i k').1.procs j)
                (allocproc-IsTame k j) (fork_copy-IsTame cur i k' j))
      ]

  clone_into-IsTame :
      (poke : ℕ → ℕ → V.St → V.St) (cur i func arg stack : ℕ) (k : Kernel V.St) (j : ℕ)
      → IsTame (k.procs j) ((clone_into V forkret poke cur i func arg stack k).1.procs j)
  unfolding clone_into
  clone_into-IsTame poke cur i func arg stack k j = ground arith

  pub clone-IsTame :
      (poke : ℕ → ℕ → V.St → V.St) (cur func arg stack : ℕ) (k : Kernel V.St) (j : ℕ)
      → IsTame (k.procs j) ((clone V forkret poke cur func arg stack k).1.procs j)
  unfolding clone
  clone-IsTame poke cur func arg stack k j =
      let k' = (allocproc V forkret k).1 in
      elim (Option-cases (allocproc V forkret k).0) [
        | inl e ↦ rw (e, clone) (allocproc-IsTame k j)
        | inr (i, e) ↦
            rw (e, clone)
              (IsTame-trans (k.procs j) (k'.procs j)
                ((clone_into V forkret poke cur i func arg stack k').1.procs j)
                (allocproc-IsTame k j) (clone_into-IsTame poke cur i func arg stack k' j))
      ]
