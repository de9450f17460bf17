-- ===== src/Fs/Names/Fuel.antt =====
-- Lab/code/fs.c: the loop of `namex` ends.
use xmu_learning_os.Base.{
  Bool, Bytes, List, Option-cases, ap, arith, inl, inr, length, none, some, suc, sym, zero, ℕ, ◌<◌,
  ◌∙◌, ◌≡◌,
}
use xmu_learning_os.Fs.Content.{Devices}
use xmu_learning_os.Fs.Names.{enter, last_inode, skipelem, walk}
use xmu_learning_os.Fs.Names.Elements.{Skipped, skipelem-some}
use mathlib.Core.Path.{fun_ext}

module _ (devsw : Devices) (pid : ℕ) where
  walk_ended :
      (f : ℕ) (parent : Bool) (i : ℕ) (path : List ℕ) (name : Bytes)
      → skipelem path name ≡ none
      → walk devsw pid (suc f) parent i path name ≡ last_inode devsw pid parent i name
  unfolding walk
  walk_ended f parent i path name e = rw (walk, e)

  walk_on :
      (f : ℕ) (parent : Bool) (i : ℕ) (path : List ℕ) (name : Bytes) (path' : List ℕ)
      (name' : Bytes)
      → skipelem path name ≡ some (path', name')
      → walk devsw pid (suc f) parent i path name
        ≡ enter devsw pid (λ j. walk devsw pid f parent j path' name') parent i path' name'
  unfolding walk
  walk_on f parent i path name path' name' e = rw (walk, e)

  -- With more rounds than the path has characters, the loop of `namex` does the same: it never
  -- ends for want of rounds.
  pub walk_rounds :
      (f g : ℕ) (parent : Bool) (i : ℕ) (path : List ℕ) (name : Bytes)
      → length path < f
      → length path < g
      → walk devsw pid f parent i path name ≡ walk devsw pid g parent i path name
  unfolding Skipped
  walk_rounds zero g parent i path name h l = absurd (omega arith)
  walk_rounds (suc f) zero parent i path name h l = absurd (omega arith)
  walk_rounds (suc f) (suc g) parent i path name h l = elim (Option-cases (skipelem path name)) [
    | inl e ↦ walk_ended f parent i path name e ∙ sym (walk_ended g parent i path name e)
    | inr ((path', name'), e) ↦
        (let (a, b, c, d, less) = skipelem-some path name path' name' e in
          walk_on f parent i path name path' name' e
          ∙ ap (λ k. enter devsw pid k parent i path' name')
              (fun_ext λ j. walk_rounds f g parent j path' name' (omega arith) (omega arith))
          ∙ sym (walk_on g parent i path name path' name' e))
  ]
