-- ===== src/File/PipeAlloc.antt =====
-- Lab/code/pipe.c: `pipealloc`.
use xmu_learning_os.Base.{
  M, Option, change, false, none, ok, pure, some, true, update, ℕ, ◌==◌, ◌>>=◌, ◌>>◌,
}
use xmu_learning_os.File.{Environment, World, fd_pipe, filealloc, fileclose}
use xmu_learning_os.Kalloc.{kalloc}
use xmu_learning_os.Pipe.{start_pipe}

module _ {S : Type 0} (env : Environment) (pid : ℕ) where
  -- The path `bad` of `pipealloc`, where no page has been allocated.
  unfoldable pub close_both : Option ℕ → Option ℕ → M (World S) (Unit {0})
  unfolding fileclose
  close_both f0 f1 = do
    elim f0 [ none ↦ pure tt | some i ↦ fileclose env pid i ]
    elim f1 [ none ↦ pure tt | some i ↦ fileclose env pid i ]

  -- The page of a new pipe: the pipe, and both files on it.
  unfoldable pub open_pipe : ℕ → ℕ → ℕ → World S → World S
  unfolding start_pipe
  open_pipe p f0 f1 w =
      let t =
        update w.ftable f0
          (record (w.ftable f0) { kind = fd_pipe; readable = 1; writable = 0; pipe = p }) in
      record w {
        pipes = update w.pipes p (start_pipe (w.pipes p));
        ftable =
            update t f1 (record (t f1) { kind = fd_pipe; readable = 0; writable = 1; pipe = p });
      }

  -- Both files, or `none` for -1.
  unfoldable pub pipealloc : M (World S) (Option (ℕ × ℕ))
  unfolding filealloc kalloc close_both open_pipe
  pipealloc = do
    f0 ← filealloc
    f1 ← (elim f0 [ none ↦ pure none | some i ↦ filealloc ])
    elim f1 [
      | none ↦ (do close_both f0 none; pure none)
      | some j ↦ (do
        p ← (λ w. let (p, m) = kalloc w.kmem in ok (p, record w { kmem = m }))
        elim (p == 0) [
          | true ↦ (do close_both f0 (some j); pure none)
          | false ↦ elim f0 [
            | none ↦ pure none
            | some i ↦ (do change (open_pipe p i j); pure (some (i, j)))
          ]
        ])
    ]
