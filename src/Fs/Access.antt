-- ===== src/Fs/Access.antt =====
-- Lab/code/fs.c: what a write of a block changes.
use xmu_learning_os.Base.{
  Bytes, Option-cases, arith, inl, inr, none, ok, ok_inj, panicking, refl, some, stopped, sym,
  update, ℕ, ◌∙◌, ◌≡◌,
}
use xmu_learning_os.Fs.{Fs, put_content, write_block}
use xmu_learning_os.Log.{Log, log_write}
use mathlib.Core.Path.{subst}

write_block_done :
    (d b : ℕ) (w : Bytes) (s : Fs) (l : Log)
    → log_write b s.log ≡ some l
    → write_block d b w s ≡ ok (tt, put_content d b w (record s { log = l }))
unfolding write_block
write_block_done d b w s l e = rw (write_block, e)

write_block_full :
    (d b : ℕ) (w : Bytes) (s : Fs)
    → log_write b s.log ≡ none
    → write_block d b w s ≡ stopped panicking
unfolding write_block
write_block_full d b w s e = rw (write_block, e)

-- A write that does not panic changes the block and the log, and nothing else.
pub write_block-ok :
    (d b : ℕ) (w : Bytes) (s s' : Fs)
    → write_block d b w s ≡ ok (tt, s')
    → (s'.content ≡ update s.content d (update (s.content d) b w))
      × (s'.sb ≡ s.sb)
      × (s'.inodes ≡ s.inodes)
write_block-ok d b w s s' e = elim (Option-cases (log_write b s.log)) [
  | inl f ↦ absurd (let g = write_block_full d b w s f in ground (arith, g, e))
  | inr (l, f) ↦
      subst
        (λ (x : Unit {0} × Fs).
          (x.1.content ≡ update s.content d (update (s.content d) b w))
          × (x.1.sb ≡ s.sb)
          × (x.1.inodes ≡ s.inodes))
        (ok_inj (sym (write_block_done d b w s l f) ∙ e)) (refl, refl, refl)
]
