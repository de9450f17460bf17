-- ===== src/Proc/Fork.antt =====
-- What `fork` promises: the child is a runnable copy of its parent, or nothing has happened to any
-- process in use.
use xmu_learning_os.Base.{
  Option-cases, ap, arith, false, inl, inr, minus_one, none, refl, some, sym, true, ℕ, ◌<◌, ◌∙◌,
  ◌≡◌, ◌≢◌,
}
use xmu_learning_os.Proc.{Kernel, is_unused, nofile, runnable}
use xmu_learning_os.Proc.Alloc.{allocproc, dup_files, fork, fork_copy, fork_into}
use xmu_learning_os.Proc.Create.{allocproc-none, allocproc-some}
use xmu_learning_os.Proc.Files.{allocproc-ofile, dup_files_lem, share}
use xmu_learning_os.Services.{Services}
use xmu_learning_os.Str.{safestrcpy}
use xmu_learning_os.Str.Copy.{safestrcpy-copies, safestrcpy-ends}
use mathlib.Core.Path.{subst}
use native.Mathlib.Decide.{ℕ_discrete}

module _ (V : Services) (forkret : ℕ) where
  fork_into_child :
      (cur i pgdir : ℕ) (k : Kernel V.St)
      → let k' = (fork_into V forkret cur i pgdir k).1 in
        let c = k.procs cur in
        ((fork_into V forkret cur i pgdir k).0 ≡ (k.procs i).pid)
        × ((k'.procs i).state ≡ runnable)
        × ((k'.procs i).pid ≡ (k.procs i).pid)
        × ((k'.procs i).parent ≡ some cur)
        × ((k'.procs i).pgdir ≡ pgdir)
        × ((k'.procs i).sz ≡ c.sz)
        × ((k'.procs i).cwd ≡ c.cwd)
        × ((k'.procs i).tf ≡ record (c.tf) { eax = 0 })
        × ((k'.procs i).ofile ≡ (dup_files V forkret nofile c.ofile (k.procs i).ofile k.sv).0)
        × ((k'.procs i).name ≡ safestrcpy (k.procs i).name c.name 16)
        × (k'.sv ≡ V.idup c.cwd (dup_files V forkret nofile c.ofile (k.procs i).ofile k.sv).1)
  unfolding fork_into
  fork_into_child cur i pgdir k = ground arith

  fork_into_others :
      (cur i pgdir : ℕ) (k : Kernel V.St) (j : ℕ)
      → i ≢ j
      → (fork_into V forkret cur i pgdir k).1.procs j ≡ k.procs j
  unfolding fork_into
  fork_into_others cur i pgdir k j d = ground arith

  -- The caller is not the slot that `allocproc` took.
  caller_kept :
      (cur i : ℕ) (k : Kernel V.St)
      → is_unused (k.procs cur).state ≡ false
      → (allocproc V forkret k).0 ≡ some i
      → (allocproc V forkret k).1.procs cur ≡ k.procs cur
  caller_kept cur i k used found =
      let made = allocproc-some V forkret k i found in
      made.9 cur (λ e. cc (sym used ∙ ap (λ j. is_unused (k.procs j).state) (sym e) ∙ made.1))

  fork-is_into :
      (cur i : ℕ) (k : Kernel V.St)
      → (allocproc V forkret k).0 ≡ some i
      → let k' = (allocproc V forkret k).1 in
        let c = k'.procs cur in
        let copy = V.copyuvm c.pgdir c.sz k'.sv in
        copy.0 ≢ 0
        → fork V forkret cur k ≡ fork_into V forkret cur i copy.0 (record k' { sv = copy.1 })
  unfolding fork fork_copy
  fork-is_into cur i k found page = rw (found, fork) (ground arith)

  -- Where a slot and a page table are found, `fork` of a process in use returns the child's pid, the
  -- next one. The child is runnable in a slot that was unused, and its parent is the caller. It has
  -- the page table that `copyuvm` made, the caller's size and directory, its registers but for `eax`,
  -- which is 0, its name up to the NUL or to 15 bytes, which a NUL ends, and its open files; a
  -- descriptor that the caller has not open stays as the slot had it. Each open file and the
  -- directory has one more reference. No other process changes.
  pub fork-child :
      (cur i : ℕ) (k : Kernel V.St)
      → is_unused (k.procs cur).state ≡ false
      → (allocproc V forkret k).0 ≡ some i
      → let c = k.procs cur in
        (V.copyuvm c.pgdir c.sz (allocproc V forkret k).1.sv).0 ≢ 0
        → let r = fork V forkret cur k in
          let p = r.1.procs i in
          (is_unused (k.procs i).state ≡ true)
          × (r.0 ≡ k.nextpid)
          × (p.state ≡ runnable)
          × (p.pid ≡ k.nextpid)
          × (p.parent ≡ some cur)
          × (p.sz ≡ c.sz)
          × (p.cwd ≡ c.cwd)
          × (p.tf ≡ record (c.tf) { eax = 0 })
          × ((j : ℕ) → i ≢ j → r.1.procs j ≡ k.procs j)
          × (p.pgdir ≡ (V.copyuvm c.pgdir c.sz (allocproc V forkret k).1.sv).0)
          × ((fd f : ℕ) → fd < nofile → c.ofile fd ≡ some f → p.ofile fd ≡ some f)
          × ((fd : ℕ) → c.ofile fd ≡ none → p.ofile fd ≡ (k.procs i).ofile fd)
          × ((x : ℕ) → x < 15 → ((y : ℕ) → y < x → c.name y ≢ 0) → p.name x ≡ c.name x)
          × (((y : ℕ) → y < 15 → c.name y ≢ 0) → p.name 15 ≡ 0)
          × (r.1.sv
              ≡ V.idup c.cwd (
                  share V forkret nofile c.ofile
                    (V.copyuvm c.pgdir c.sz (allocproc V forkret k).1.sv).1))
  fork-child cur i k used found page =
      let k' = (allocproc V forkret k).1 in
      let same = caller_kept cur i k used found in
      let made = allocproc-some V forkret k i found in
      let copy = V.copyuvm (k'.procs cur).pgdir (k'.procs cur).sz k'.sv in
      let k'' : Kernel V.St = record k' { sv = copy.1 } in
      let child = fork_into_child cur i copy.0 k'' in
      let files = dup_files_lem V forkret nofile (k'.procs cur).ofile (k'.procs i).ofile copy.1 in
      rw (fork-is_into cur i k found (rw same page)) (
        made.1,
        child.0 ∙ made.4,
        child.1,
        child.2 ∙ made.4,
        child.3,
        child.5 ∙ ap (λ p. p.sz) same,
        child.6 ∙ ap (λ p. p.cwd) same,
        child.7 ∙ ap (λ p. record (p.tf) { eax = 0 }) same,
        λ j d. fork_into_others cur i copy.0 k'' j d ∙ made.9 j d,
        child.4 ∙ ap (λ p. (V.copyuvm p.pgdir p.sz k'.sv).0) same,
        λ fd f h e. ap (λ o. o fd) child.8 ∙ (files.0) fd f h (ap (λ p. p.ofile fd) same ∙ e),
        λ fd e.
            ap (λ o. o fd) child.8
            ∙ (files.1) fd (ap (λ p. p.ofile fd) same ∙ e)
            ∙ ap (λ o. o fd) (allocproc-ofile V forkret k i),
        λ x h nz.
            ap (λ o. o x) child.9
            ∙ ap (λ p. safestrcpy (k'.procs i).name p.name 16 x) same
            ∙ safestrcpy-copies (k'.procs i).name (k.procs cur).name x h nz,
        λ nz.
            ap (λ o. o 15) child.9
            ∙ ap (λ p. safestrcpy (k'.procs i).name p.name 16 15) same
            ∙ safestrcpy-ends (k'.procs i).name (k.procs cur).name nz,
        child.10
            ∙ ap (V.idup (k'.procs cur).cwd) (files.2)
            ∙ ap
                (λ p.
                  V.idup p.cwd (share V forkret nofile p.ofile (V.copyuvm p.pgdir p.sz k'.sv).1))
                same,
      )

  fork_copy_fails :
      (cur i : ℕ) (k : Kernel V.St)
      → let c = k.procs cur in
        (V.copyuvm c.pgdir c.sz k.sv).0 ≡ 0
        → let r = fork_copy V forkret cur i k in
          (r.0 ≡ minus_one)
          × ((j : ℕ) → i ≢ j → r.1.procs j ≡ k.procs j)
          × (is_unused (r.1.procs i).state ≡ true)
  unfolding fork_copy
  fork_copy_fails cur i k e = rw e (refl, λ j d. ground arith, ground arith)

  -- Where `fork` returns -1 without a process, for want of a slot, a stack or a page table, every
  -- process in use is as it was.
  pub fork-fails :
      (cur : ℕ) (k : Kernel V.St)
      → is_unused (k.procs cur).state ≡ false
      → ((i : ℕ)
          → (allocproc V forkret k).0 ≡ some i
          → (V.copyuvm (k.procs cur).pgdir (k.procs cur).sz (allocproc V forkret k).1.sv).0 ≡ 0)
      → let r = fork V forkret cur k in
        (r.0 ≡ minus_one)
        × ((j : ℕ) → is_unused (k.procs j).state ≡ false → r.1.procs j ≡ k.procs j)
        × ((j : ℕ) → is_unused (k.procs j).state ≡ true → is_unused (r.1.procs j).state ≡ true)
  unfolding fork
  fork-fails cur k used page = elim (Option-cases (allocproc V forkret k).0) [
    | inl none_left ↦
        rw (none_left, fork) (let n = allocproc-none V forkret k none_left in (refl, n.1, n.2))
    | inr (i, found) ↦
        let k' = (allocproc V forkret k).1 in
        let made = allocproc-some V forkret k i found in
        let no_page : (V.copyuvm (k'.procs cur).pgdir (k'.procs cur).sz k'.sv).0 ≡ 0 =
          rw (caller_kept cur i k used found) (page i found) in
        let failed = fork_copy_fails cur i k' no_page in
        rw (found, fork)
          (
            failed.0,
            λ j u.
                let differ : i ≢ j =
                  λ e. cc (sym u ∙ ap (λ z. is_unused (k.procs z).state) (sym e) ∙ made.1) in
                failed.1 j differ ∙ made.9 j differ,
            λ j u. elim (ℕ_discrete i j) [
              | yes e ↦
                  subst (λ z. is_unused ((fork_copy V forkret cur i k').1.procs z).state ≡ true) e
                    failed.2
              | no d ↦ rw (failed.1 j d, made.9 j d) u
            ],
          )
  ]
