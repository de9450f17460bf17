-- ===== src/Proc/Exit.antt =====
-- Lab/code/proc.c: `exit`, up to its call of `sched`, from which it does not return. `none` is a
-- panic.
use xmu_learning_os.Base.{Option, each, if◌then◌else◌, none, some, suc, update, zero, ℕ}
use xmu_learning_os.Proc.{Kernel, Proc, chan_of, is_zombie, nofile, nproc, same_ref, zombie}
use xmu_learning_os.Proc.Sleep.{wake}
use xmu_learning_os.Services.{Services}

-- `if(p->parent == curproc) p->parent = initproc`
unfoldable pub adopt : Option ℕ → ℕ → Proc → Proc
adopt initproc cur p = if same_ref p.parent (some cur) then record p { parent = initproc } else p

-- The body of the loop that passes the children to init.
unfoldable pub abandon_at : Option ℕ → ℕ → ℕ → (ℕ → Proc) → ℕ → Proc
abandon_at initproc cur i t =
    let t' = update t i (record (t i) { parent = initproc }) in
    if same_ref (t i).parent (some cur)
    then if is_zombie (t i).state then each nproc (wake (chan_of initproc)) t' else t'
    else t

unfoldable pub abandon : ℕ → Option ℕ → ℕ → (ℕ → Proc) → ℕ → Proc
abandon zero initproc cur t = t
abandon (suc n) initproc cur t = abandon_at initproc cur n (abandon n initproc cur t)

module _ (V : Services) where
  -- `for(fd = 0; fd < NOFILE; fd++) if(curproc->ofile[fd]){ fileclose(…); curproc->ofile[fd] = 0; }`
  unfoldable pub close_files : ℕ → (ℕ → Option ℕ) → V.St → (ℕ → Option ℕ) × V.St
  close_files zero files sv = (files, sv)
  close_files (suc n) files sv =
      let (files', sv') = close_files n files sv in
      elim (files' n) [ none ↦ (files', sv') | some f ↦ (update files' n none, V.fileclose f sv') ]

  -- The files and the directory go back before the table is locked.
  unfoldable pub drop_files : ℕ → Kernel V.St → Kernel V.St
  drop_files cur k =
      let p = k.procs cur in
      let (files, sv) = close_files nofile p.ofile k.sv in
      record k {
        sv = V.end_op (V.iput p.cwd (V.begin_op sv));
        procs = update k.procs cur (record p { ofile = files; cwd = 0 });
      }

  -- The part under `ptable.lock`.
  unfoldable pub become_zombie : ℕ → Kernel V.St → Kernel V.St
  become_zombie cur k =
      let woken = each nproc (wake (chan_of (k.procs cur).parent)) k.procs in
      let t = abandon nproc k.initproc cur woken in
      record k { procs = update t cur (record (t cur) { state = zombie }) }

  unfoldable pub exit : ℕ → Kernel V.St → Option (Kernel V.St)
  exit cur k =
      if same_ref (some cur) k.initproc then none else some (become_zombie cur (drop_files cur k))
