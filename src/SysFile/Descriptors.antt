-- ===== src/SysFile/Descriptors.antt =====
-- Lab/code/sysfile.c: `dup` and `close`.
use xmu_learning_os.Base.{
  >>=-ok, >>=-run, M, Option, Result, add32, ap, arith, change, false, first, first-some, minus_one,
  none, not, ok, ok_inj, panic_if, panic_if-ok, pure, refl, slt, some, sub32, sym, true, update, ℕ,
  ◌-◌, ◌<◌, ◌>>◌, ◌^◌, ◌||◌, ◌∙◌, ◌≡◌, ◌≢◌,
}
use xmu_learning_os.File.{Environment, OpenFile, World, fileclose, filedup, put_file}
use xmu_learning_os.Proc.{Proc, nofile}
use xmu_learning_os.Proc.Sleep.{put}
use xmu_learning_os.Sched.RoundRobin.{after}
use xmu_learning_os.SysFile.{
  argfd, dup_file, dup_to, fdalloc, is_free, set_ofile, sys_close, sys_dup,
}
use xmu_learning_os.Syscall.{Caller, argint}
use xmu_learning_os.Umalloc.{free}

update-back : {A : Type 0} (a : ℕ → A) (i : ℕ) (x y : A) → a i ≡ y → update (update a i x) i y ≡ a
update-back a i x y e = λ t j. back j t
  where
    back : (j : ℕ) → update (update a i x) i y j ≡ a j
    back j = ground arith

-- A count of references that is raised and lowered.
raised_back :
    (r : ℕ)
    → slt r 1 ≡ false
    → r < 2 ^ 31 - 1
    → (slt (add32 r 1) 1 ≡ false) × (slt 0 (sub32 (add32 r 1) 1) ≡ true) × (sub32 (add32 r 1) 1 ≡ r)
raised_back r p h = (ground arith, ground arith, omega arith)

free_ok : (a : Option ℕ) → is_free a ≡ true → a ≡ none
free_ok none e = refl
free_ok (some f) e = cc

update-here : {A : Type 0} (a : ℕ → A) (i : ℕ) (x : A) → update a i x i ≡ x
update-here a i x = ground arith

-- The last reference of `dup` is given back.
file_back :
    (f : ℕ) (t : ℕ → OpenFile)
    → sub32 (add32 (t f).ref 1) 1 ≡ (t f).ref
    → let file : OpenFile = record (t f) { ref = add32 (t f).ref 1 } in
      let t' = update t f file in update t' f (record (t' f) { ref = sub32 (t' f).ref 1 }) ≡ t
file_back f t e =
    let file : OpenFile = record (t f) { ref = add32 (t f).ref 1 } in
    update-back t f file _ (
      sym (
        ap (λ (x : OpenFile). record x { ref = sub32 x.ref 1 }) (update-here t f file)
        ∙ ap (λ r. record (t f) { ref = r }) e))

descriptor_back :
    (cur f fd : ℕ) (t : ℕ → Proc)
    → (t cur).ofile fd ≡ none
    → let p : Proc = record (t cur) { ofile = update (t cur).ofile fd (some f) } in
      let t' = update t cur p in
      update t' cur (record (t' cur) { ofile = update (t' cur).ofile fd none }) ≡ t
descriptor_back cur f fd t e =
    let p : Proc = record (t cur) { ofile = update (t cur).ofile fd (some f) } in
    update-back t cur p _ (
      sym (
        ap (λ (x : Proc). record x { ofile = update x.ofile fd none }) (update-here t cur p)
        ∙ ap (λ o. record (t cur) { ofile = o }) (update-back (t cur).ofile fd (some f) none e)))

module _ {S : Type 0} (cur : ℕ) where
  -- `dup` has given the free descriptor `fd` the file `f`.
  abbrev pub duplicated : ℕ → ℕ → World S → World S
  duplicated f fd w =
      let file = w.ftable f in
      record (set_ofile cur fd (some f) w) {
        ftable = update w.ftable f (record file { ref = add32 file.ref 1 });
      }

  abbrev dup_of : Option (ℕ × ℕ) → M (World S) ℕ
  dup_of none = pure minus_one
  dup_of (some (old, f)) = dup_file cur f

  dup_of-ok :
      (a : Option (ℕ × ℕ)) (w : World S) (fd : ℕ) (w' : World S)
      → dup_of a w ≡ ok (fd, w')
      → fd ≢ minus_one
      → (f : ℕ) × (dup_file cur f w ≡ ok (fd, w'))
  dup_of-ok none w fd w' e n = absurd (n (sym (ap (λ x. x.0) (ok_inj e))))
  dup_of-ok (some (old, f)) w fd w' e n = (f, e)

  sys_dup-of : (c : Caller) (w : World S) → sys_dup cur c w ≡ dup_of (argfd cur 0 c w) w
  unfolding sys_dup
  sys_dup-of c w = refl

  fdalloc-ok :
      (f : ℕ) (w w' : World S) (fd : ℕ)
      → fdalloc cur f w ≡ ok (some fd, w')
      → (fd < nofile) × ((w.kernel.procs cur).ofile fd ≡ none) × (w' ≡ set_ofile cur fd (some f) w)
  unfolding fdalloc
  fdalloc-ok f w w' fd e = found (first is_free nofile 0 (w.kernel.procs cur).ofile) refl e
    where
      found :
          (x : Option ℕ)
          → first is_free nofile 0 (w.kernel.procs cur).ofile ≡ x
          → (elim x as (λ _. Result (Option ℕ × World S)) [
            | none ↦ ok (none, w)
            | some k ↦ ok (some k, set_ofile cur k (some f) w)
          ])
            ≡ ok (some fd, w')
          → (fd < nofile)
            × ((w.kernel.procs cur).ofile fd ≡ none)
            × (w' ≡ set_ofile cur fd (some f) w)
      found none p q = cc
      found (some k) p q =
          let (l, h, t) = first-some is_free nofile 0 (w.kernel.procs cur).ofile k p in
          let same : k ≡ fd = cc in
          let after : w' ≡ set_ofile cur k (some f) w = cc in
          (
            ground arith,
            ap (w.kernel.procs cur).ofile (sym same) ∙ free_ok ((w.kernel.procs cur).ofile k) t,
            after ∙ ap (λ j. set_ofile cur j (some f) w) same,
          )

  abbrev raised : ℕ → World S → World S
  raised f w =
      let file = w.ftable f in
      record w { ftable = update w.ftable f (record file { ref = add32 file.ref 1 }) }

  filedup-ok :
      (f : ℕ) (w w' : World S) (i : ℕ)
      → filedup f w ≡ ok (i, w')
      → (slt (w.ftable f).ref 1 ≡ false) × (w' ≡ raised f w)
  unfolding filedup
  filedup-ok f w w' i e =
      let file : OpenFile = record (w.ftable f) { ref = add32 (w.ftable f).ref 1 } in
      let (u, w1, p, q) =
        >>=-ok (panic_if (slt (w.ftable f).ref 1)) (λ u. put_file f file >> pure f) w e in
      let (b, same) = panic_if-ok (slt (w.ftable f).ref 1) w p in
      (
        b,
        sym (ap (λ x. x.1) (ok_inj q))
            ∙ ap (λ x. record (x.1) { ftable = update (x.1.ftable) f file }) same,
      )

  dup_to-ok :
      (f : ℕ) (new : Option ℕ) (w w' : World S) (fd : ℕ)
      → dup_to cur f new w ≡ ok (fd, w')
      → fd ≢ minus_one
      → (new ≡ some fd) × (slt (w.ftable f).ref 1 ≡ false) × (w' ≡ raised f w)
  unfolding dup_to
  dup_to-ok f none w w' fd e n = absurd (n (sym (ap (λ x. x.0) (ok_inj e))))
  dup_to-ok f (some k) w w' fd e n =
      let (i, v, p, q) = >>=-ok (filedup f) (λ i. pure k) w e in
      let (c, after) = filedup-ok f w v i p in
      (ap (λ x. some (x.0)) (ok_inj q), c, sym (ap (λ x. x.1) (ok_inj q)) ∙ after)

  dup_file-ok :
      (f : ℕ) (w w' : World S) (fd : ℕ)
      → dup_file cur f w ≡ ok (fd, w')
      → fd ≢ minus_one
      → (fd < nofile)
        × ((w.kernel.procs cur).ofile fd ≡ none)
        × (slt (w.ftable f).ref 1 ≡ false)
        × (w' ≡ duplicated f fd w)
  unfolding dup_file set_ofile
  dup_file-ok f w w' fd e n =
      let (new, w1, p, q) = >>=-ok (fdalloc cur f) (dup_to cur f) w e in
      let (same, c, after) = dup_to-ok f new w1 w' fd q n in
      let (l, free, put) = fdalloc-ok f w w1 fd (p ∙ ap (λ k. ok (k, w1)) same) in
      (l, free, ap (λ v. slt (v.ftable f).ref 1) (sym put) ∙ c, after ∙ ap (raised f) put)

  abbrev lowered : ℕ → World S → World S
  lowered f w =
      let file = w.ftable f in
      record w { ftable = update w.ftable f (record file { ref = sub32 file.ref 1 }) }

  module _ (env : Environment) (pid : ℕ) where
    fileclose-kept :
        (f : ℕ) (w : World S)
        → slt (w.ftable f).ref 1 ≡ false
        → slt 0 (sub32 (w.ftable f).ref 1) ≡ true
        → fileclose env pid f w ≡ ok (tt, lowered f w)
    unfolding fileclose
    fileclose-kept f w p q = rw (p, q)

    back_after :
        (f fd : ℕ) (w : World S)
        → (w.kernel.procs cur).ofile fd ≡ none
        → (w.ftable f).ref < 2 ^ 31 - 1
        → slt (w.ftable f).ref 1 ≡ false
        → fileclose env pid f (set_ofile cur fd none (duplicated f fd w)) ≡ ok (tt, w)
    unfolding set_ofile
    back_after f fd w free h p =
        let file : OpenFile = record (w.ftable f) { ref = add32 (w.ftable f).ref 1 } in
        let at_f = update-here w.ftable f file in
        let (a, b, c) = raised_back (w.ftable f).ref p h in
        let files = file_back f w.ftable c in
        let procs = descriptor_back cur f fd w.kernel.procs free in
        fileclose-kept f (set_ofile cur fd none (duplicated f fd w))
          (ap (λ x. slt x.ref 1) at_f ∙ a) (ap (λ x. slt 0 (sub32 x.ref 1)) at_f ∙ b)
        ∙ (λ i.
            ok (tt, record w { ftable = files i; kernel = record (w.kernel) { procs = procs i } }))

    abbrev body : ℕ → World S → Option (ℕ × ℕ)
    body fd v = elim (slt fd 0 || not (slt fd nofile)) [
      | true ↦ none
      | false ↦ elim ((v.kernel.procs cur).ofile fd) [ none ↦ none | some f ↦ some (fd, f) ]
    ]

    abbrev closing : Option (ℕ × ℕ) → M (World S) ℕ
    closing none = pure minus_one
    closing (some (fd, f)) = change (set_ofile cur fd none) >> fileclose env pid f >> pure 0

    argfd-duplicated :
        (c : Caller) (f fd : ℕ) (w : World S)
        → argint 0 c ≡ some fd
        → fd < nofile
        → argfd cur 0 c (duplicated f fd w) ≡ some (fd, f)
    unfolding argfd set_ofile
    argfd-duplicated c f fd w e l =
        let inside : (slt fd 0 || not (slt fd nofile)) ≡ false = ground arith in
        let o = (w.kernel.procs cur).ofile in
        let p : Proc = record (w.kernel.procs cur) { ofile = update o fd (some f) } in
        let there : ((duplicated f fd w).kernel.procs cur).ofile fd ≡ some f =
          ap (λ (x : Proc). x.ofile fd) (update-here w.kernel.procs cur p)
          ∙ update-here o fd (some f) in
        ap
          (λ x. elim x as (λ _. Option (ℕ × ℕ)) [
            | none ↦ none
            | some k ↦ body k (duplicated f fd w)
          ])
          e
        ∙ rw (body, inside, there)

    sys_close-run :
        (c : Caller) (f fd : ℕ) (v w : World S)
        → argfd cur 0 c v ≡ some (fd, f)
        → fileclose env pid f (set_ofile cur fd none v) ≡ ok (tt, w)
        → sys_close cur env pid c v ≡ ok (0, w)
    unfolding sys_close
    sys_close-run c f fd v w p q =
        ap (λ x. closing x v) p
        ∙ >>=-run (change (set_ofile cur fd none) >> fileclose env pid f) (λ u. pure 0) v tt w q

    -- A `close` of the descriptor that a `dup` returned undoes the `dup`: the process's descriptors,
    -- the table of files and everything else are as they were. No file has 2 ^ 31 - 1 references.
    pub sys_close-sys_dup :
        (c c' : Caller) (w w' : World S) (fd : ℕ)
        → sys_dup cur c w ≡ ok (fd, w')
        → fd ≢ minus_one
        → argint 0 c' ≡ some fd
        → ((i : ℕ) → (w.ftable i).ref < 2 ^ 31 - 1)
        → sys_close cur env pid c' w' ≡ ok (0, w)
    sys_close-sys_dup c c' w w' fd e n arg h =
        let (f, got) = dup_of-ok (argfd cur 0 c w) w fd w' (sym (sys_dup-of c w) ∙ e) n in
        let (l, free, p, after) = dup_file-ok f w w' fd got n in
        ap (sys_close cur env pid c') after
        ∙ sys_close-run c' f fd (duplicated f fd w) w (argfd-duplicated c' f fd w arg l)
            (back_after f fd w free (h f) p)
