-- ===== src/Proc/System.antt =====
-- The kernel as a step relation: each step is a call of Lab/code/proc.c, cut where it sleeps. `fork`,
-- `clone` and `exit` are one step each, though they hold `ptable.lock` only in parts: what they do
-- without it is on the new slot, which is an embryo, or on the caller, and on the services. `joins`
-- says whether threads call `join`.
use xmu_learning_os.Base.{
  Bool, Option, arith, each-at, false, if◌then◌else◌, none, refl, some, sym, true, ℕ, ◌<◌, ◌≡◌, ◌≢◌,
}
use xmu_learning_os.Proc.{Chan, Kernel, Proc, State, nproc, proc_at, runnable, running, same_ref}
use xmu_learning_os.Proc.Alloc.{clone, fork, growproc, resize}
use xmu_learning_os.Proc.Exit.{become_zombie, drop_files, exit}
use xmu_learning_os.Proc.Sleep.{
  awake, count_tick, dispatch, kill, kill_proc, setpriority, sleep, update_statistics, wake, wakeup,
  wakeup-procs, yield,
}
use xmu_learning_os.Proc.Tame.{IsTame, IsTame-refl, clone-IsTame, fork-IsTame}
use xmu_learning_os.Proc.Wait.{join_round, wait2_round, wait_round}
use xmu_learning_os.Proc.Waiting.{
  NoLostExit, become_zombie-NoLostExit, drop_files-IsTame, drop_files-parent, join_round-NoLostExit,
  sleep-NoLostExit, tame-NoLostExit, wait2_round-NoLostExit, wait_round-NoLostExit,
}
use xmu_learning_os.Services.{Services}
use mathlib.Core.Path.{subst}

else_some {ℓ} : {A : Type ℓ} (b : Bool) {x y : A} → (if b then none else some x) ≡ some y → y ≡ x
else_some true e = cc
else_some false e = cc

-- The caller of a step is a process of the table that runs.
abbrev pub IsRunning : {S : Type 0} → Kernel S → ℕ → Type 0
IsRunning k cur = (cur < nproc) × ((k.procs cur).state ≡ running)

module _ (V : Services) (forkret : ℕ) (poke : ℕ → ℕ → V.St → V.St) (joins : Bool) where
  pub data Step (k : Kernel V.St) : Kernel V.St → Type 0 where
    forks : (cur : ℕ) → IsRunning k cur → Step k (fork V forkret cur k).1
    clones :
        (cur func arg stack : ℕ)
        → IsRunning k cur
        → Step k (clone V forkret poke cur func arg stack k).1
    grows : (cur n : ℕ) → IsRunning k cur → Step k (growproc V forkret cur n k).1
    exits :
        (cur : ℕ) {k' : Kernel V.St}
        → IsRunning k cur
        → (k.procs cur).parent ≢ some cur
        → exit V cur k ≡ some k'
        → Step k k'
    wait_rounds : (cur : ℕ) → IsRunning k cur → Step k (wait_round V cur k).1
    wait2_rounds : (cur : ℕ) → IsRunning k cur → Step k (wait2_round V cur k).1
    join_rounds : (cur : ℕ) → joins ≡ true → IsRunning k cur → Step k (join_round V cur k).1
    -- `sleep` on a channel that is no process, as semaphores, pipes, locks and the log do.
    sleeps :
        (cur : ℕ) (c : Chan) → IsRunning k cur → ((i : ℕ) → c ≢ proc_at i) → Step k (sleep cur c k)
    resumes : (cur : ℕ) → IsRunning k cur → Step k (awake cur k)
    wakes : (c : Chan) → Step k (wakeup c k)
    kills : (pid : ℕ) → Step k (kill pid k).1
    yields : (cur : ℕ) → IsRunning k cur → Step k (yield cur k)
    dispatches : (i : ℕ) → i < nproc → (k.procs i).state ≡ runnable → Step k (dispatch (some i) k)
    sets_priority : (pid priority : ℕ) → Step k (setpriority pid priority k).1
    counts : Step k (update_statistics k)

  pub data Reach (k : Kernel V.St) : Kernel V.St → Type 0 where
    here : Reach k k
    next : {k' k'' : Kernel V.St} → Reach k k' → Step k' k'' → Reach k k''

  wakeup-IsTame : (c : Chan) (k : Kernel V.St) (j : ℕ) → IsTame (k.procs j) ((wakeup c k).procs j)
  unfolding wake
  wakeup-IsTame c k j = ground (arith, wakeup-procs c k j)

  kill-IsTame : (pid : ℕ) (k : Kernel V.St) (j : ℕ) → IsTame (k.procs j) ((kill pid k).1.procs j)
  unfolding kill kill_proc
  kill-IsTame pid k j = ground arith

  setpriority-IsTame :
      (pid priority : ℕ) (k : Kernel V.St) (j : ℕ)
      → IsTame (k.procs j) ((setpriority pid priority k).1.procs j)
  unfolding setpriority
  setpriority-IsTame pid priority k j = ground arith

  growproc-IsTame :
      (cur n : ℕ) (k : Kernel V.St) (j : ℕ)
      → IsTame (k.procs j) ((growproc V forkret cur n k).1.procs j)
  unfolding growproc resize
  growproc-IsTame cur n k j = ground arith

  awake-IsTame :
      (cur : ℕ) (k : Kernel V.St)
      → (k.procs cur).state ≡ running
      → (j : ℕ) → IsTame (k.procs j) ((awake cur k).procs j)
  unfolding awake
  awake-IsTame cur k e j = ground arith

  yield-IsTame : (cur : ℕ) (k : Kernel V.St) (j : ℕ) → IsTame (k.procs j) ((yield cur k).procs j)
  unfolding yield
  yield-IsTame cur k j = ground arith

  dispatch-IsTame :
      (c : Option ℕ) (k : Kernel V.St) (j : ℕ) → IsTame (k.procs j) ((dispatch c k).procs j)
  unfolding dispatch
  dispatch-IsTame none k j = IsTame-refl (k.procs j)
  dispatch-IsTame (some i) k j = ground arith

  tick-IsTame : (p : Proc) (s : State) → s ≡ p.state → IsTame p (count_tick s p)
  unfolding count_tick
  tick-IsTame p s e = ground arith

  update_statistics-IsTame :
      (k : Kernel V.St) (j : ℕ) → IsTame (k.procs j) ((update_statistics k).procs j)
  unfolding update_statistics
  update_statistics-IsTame k j = ground (
    arith,
    each-at nproc (λ p. count_tick p.state p) k.procs j,
    tick-IsTame (k.procs j) (k.procs j).state refl,
  )

  pub exit-some :
      (cur : ℕ) (k k' : Kernel V.St)
      → exit V cur k ≡ some k'
      → k' ≡ become_zombie V cur (drop_files V cur k)
  unfolding exit
  exit-some cur k k' e = else_some (same_ref (some cur) k.initproc) e

  join-NoLostExit :
      (cur : ℕ) (k : Kernel V.St)
      → joins ≡ true
      → NoLostExit joins k
      → NoLostExit joins (join_round V cur k).1
  join-NoLostExit cur k e h =
      subst (λ b. NoLostExit b (join_round V cur k).1) (sym e)
        (join_round-NoLostExit V cur k (subst (λ b. NoLostExit b k) e h))

  Step-NoLostExit : {k k' : Kernel V.St} → Step k k' → NoLostExit joins k → NoLostExit joins k'
  Step-NoLostExit {k} (forks cur u) h =
      tame-NoLostExit joins k (fork V forkret cur k).1 (fork-IsTame V forkret cur k) h
  Step-NoLostExit {k} (clones cur f a s u) h =
      tame-NoLostExit joins k (clone V forkret poke cur f a s k).1
        (clone-IsTame V forkret poke cur f a s k) h
  Step-NoLostExit {k} (grows cur n u) h =
      tame-NoLostExit joins k (growproc V forkret cur n k).1 (growproc-IsTame cur n k) h
  Step-NoLostExit {k} {k'} (exits cur u own e) h =
      let d = drop_files V cur k in
      let kept = tame-NoLostExit joins k d (drop_files-IsTame V cur k) h in
      let done =
        become_zombie-NoLostExit V joins cur d (u.0) (rw (drop_files-parent V cur k) own) kept in
      subst (NoLostExit joins) (sym (exit-some cur k k' e)) done
  Step-NoLostExit {k} (wait_rounds cur u) h = wait_round-NoLostExit V joins cur k h
  Step-NoLostExit {k} (wait2_rounds cur u) h = wait2_round-NoLostExit V joins cur k h
  Step-NoLostExit {k} (join_rounds cur e u) h = join-NoLostExit cur k e h
  Step-NoLostExit {k} (sleeps cur c u n) h =
      sleep-NoLostExit V joins cur c k (λ j l e. absurd (n cur e)) h
  Step-NoLostExit {k} (resumes cur u) h =
      tame-NoLostExit joins k (awake cur k) (awake-IsTame cur k u.1) h
  Step-NoLostExit {k} (wakes c) h = tame-NoLostExit joins k (wakeup c k) (wakeup-IsTame c k) h
  Step-NoLostExit {k} (kills pid) h = tame-NoLostExit joins k (kill pid k).1 (kill-IsTame pid k) h
  Step-NoLostExit {k} (yields cur u) h =
      tame-NoLostExit joins k (yield cur k) (yield-IsTame cur k) h
  Step-NoLostExit {k} (dispatches i l e) h =
      tame-NoLostExit joins k (dispatch (some i) k) (dispatch-IsTame (some i) k) h
  Step-NoLostExit {k} (sets_priority pid p) h =
      tame-NoLostExit joins k (setpriority pid p k).1 (setpriority-IsTame pid p k) h
  Step-NoLostExit {k} counts h =
      tame-NoLostExit joins k (update_statistics k) (update_statistics-IsTame k) h

  -- A caller asleep in `wait` or `wait2` never has an exited child, and with `join` among the calls
  -- a sleeping caller never has an exited thread, in every state reached from one where that holds.
  pub Reach-NoLostExit :
      {k k' : Kernel V.St} → NoLostExit joins k → Reach k k' → NoLostExit joins k'
  Reach-NoLostExit h here = h
  Reach-NoLostExit h (next r s) = Step-NoLostExit s (Reach-NoLostExit h r)
