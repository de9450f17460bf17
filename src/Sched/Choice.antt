-- ===== src/Sched/Choice.antt =====
-- What the chosen policy promises, whichever it is, and what `setscheduler` lets be chosen.
use xmu_learning_os.Base.{
  Option, arith, bias, false, none, refl, some, some_inj, true, ℕ, ◌<◌, ◌∙◌, ◌≡◌, ◌≤◌,
}
use xmu_learning_os.Proc.{Proc, nproc}
use xmu_learning_os.Sched.{
  Lfsr, default_scheduler, fcfs_scheduler, fill_queues, from_level, mlq_levels, priority_scheduler,
  random, rr_from, rr_scheduler, runs, sml_scheduler,
}
use xmu_learning_os.Sched.Least.{pick-least, pick-none, pick-runs}
use xmu_learning_os.Sched.Levels.{
  fill_queues-bounded, fill_queues-filled, fill_queues-slot, from_level-first, level,
}
use xmu_learning_os.Sched.Policies.{default_from-idle, default_from-some, random_bounds}
use xmu_learning_os.Sched.RoundRobin.{
  after, rr_from-next, rr_from-none, rr_from-runs, rr_from-total,
}
use mathlib.Core.Path.{subst}

-- `defaultScheduler` returns a runnable process, and none only where nothing is runnable.
pub default_scheduler_lem :
    (r : Lfsr) (t : ℕ → Proc)
    → ((p : ℕ) → (default_scheduler r t).0 ≡ some p → (p < nproc) × (runs (t p) ≡ true))
      × ((default_scheduler r t).0 ≡ none → (q : ℕ) → q < nproc → runs (t q) ≡ false)
unfolding default_scheduler
default_scheduler_lem r t =
    let rnd = (random nproc r).0 in
    (
      λ p e. let (a, b) = default_from-some nproc 0 rnd t p e in (b, a),
      λ e q h. default_from-idle rnd t q e h,
    )

-- `priorityScheduler` returns the runnable process of the least priority value, the first of
-- several, and none only where nothing is runnable.
pub priority_scheduler_lem :
    (t : ℕ → Proc)
    → ((p : ℕ)
        → priority_scheduler t ≡ some p
        → (p < nproc)
          × (runs (t p) ≡ true)
          × ((q : ℕ)
              → q < nproc
              → runs (t q) ≡ true
              → (bias (t p).priority ≤ bias (t q).priority)
                × (q < p → bias (t p).priority < bias (t q).priority)))
      × (priority_scheduler t ≡ none → (q : ℕ) → q < nproc → runs (t q) ≡ false)
unfolding priority_scheduler
priority_scheduler_lem t =
    let key = λ (p : Proc). bias p.priority in
    (
      λ p e.
          let (a, b) = pick-runs key nproc t p e in
          (a, b, λ q h r. pick-least key nproc t p q e h r),
      λ e q h. pick-none key nproc t q e h,
    )

-- `fcfsScheduler` returns the runnable process that was created first, the first of several, and
-- none only where nothing is runnable.
pub fcfs_scheduler_lem :
    (t : ℕ → Proc)
    → ((p : ℕ)
        → fcfs_scheduler t ≡ some p
        → (p < nproc)
          × (runs (t p) ≡ true)
          × ((q : ℕ)
              → q < nproc
              → runs (t q) ≡ true
              → ((t p).ctime ≤ (t q).ctime) × (q < p → (t p).ctime < (t q).ctime)))
      × (fcfs_scheduler t ≡ none → (q : ℕ) → q < nproc → runs (t q) ≡ false)
unfolding fcfs_scheduler
fcfs_scheduler_lem t =
    let key = λ (p : Proc). p.ctime in
    (
      λ p e.
          let (a, b) = pick-runs key nproc t p e in
          (a, b, λ q h r. pick-least key nproc t p q e h r),
      λ e q h. pick-none key nproc t q e h,
    )

-- What `rrScheduler` promises of its result.
abbrev pub RoundRobin : ℕ → (ℕ → Proc) → Option ℕ → ℕ → Type 0
RoundRobin idx t x i =
    (i < nproc)
    × ((p : ℕ)
        → x ≡ some p
        → (i ≡ p)
          × (runs (t p) ≡ true)
          × ((q : ℕ) → q < nproc → after idx q < after idx p → runs (t q) ≡ false))
    × (x ≡ none → (i ≡ idx) × ((q : ℕ) → q < nproc → runs (t q) ≡ false))

rr_result :
    (idx : ℕ) (t : ℕ → Proc) (r : Option (Option ℕ × ℕ))
    → idx < nproc
    → rr_from nproc idx idx t ≡ r
    → (x : Option ℕ) × (i : ℕ) × (r ≡ some (x, i)) × RoundRobin idx t x i
rr_result idx t none h e = absurd (rr_from-total nproc idx idx t h h (omega arith) e)
rr_result idx t (some (none, i)) h e =
    let idle = λ (q : ℕ) (l : q < nproc). rr_from-none nproc idx idx t i q e h h l (omega arith) in
    let same : i ≡ idx = (idle 0 (omega arith)).1 in
    (none, i, refl, (rw same h, λ p c. cc, λ c. (same, λ q l. (idle q l).0)))
rr_result idx t (some (some p, i)) h e =
    let (same, small, good) = rr_from-runs nproc idx idx t p i e in
    (
      some p,
      i,
      refl,
      (
        rw same small,
        λ p' c.
            subst
              (λ o.
                (i ≡ o)
                × (runs (t o) ≡ true)
                × ((q : ℕ) → q < nproc → after idx q < after idx o → runs (t q) ≡ false))
              (some_inj c) (same, good, λ q l d. rr_from-next nproc idx idx t p i q e h l d),
        λ c. cc,
      ),
    )

-- From an index in the table `rrScheduler` ends within its rounds: it returns the next runnable
-- process after the index and moves the index there, or it returns none, leaves the index, and
-- nothing is runnable.
pub rr_scheduler_lem :
    (idx : ℕ) (t : ℕ → Proc)
    → idx < nproc
    → (x : Option ℕ) × (i : ℕ) × (rr_scheduler idx t ≡ some (x, i)) × RoundRobin idx t x i
unfolding rr_scheduler
rr_scheduler_lem idx t h = rr_result idx t (rr_from nproc idx idx t) h refl

level_lt : (p : Proc) → level p < mlq_levels
level_lt p = ground arith

-- Where something is runnable, `smlScheduler` returns a runnable process, and no runnable process
-- is of a lower level.
pub sml_scheduler_lem :
    (r : Lfsr) (t : ℕ → Proc) (j : ℕ)
    → j < nproc
    → runs (t j) ≡ true
    → (p : ℕ) × ((sml_scheduler r t).0 ≡ some p)
      × (p < nproc)
      × (runs (t p) ≡ true)
      × (level (t p) ≤ level (t j))
unfolding sml_scheduler
sml_scheduler_lem r t j h good =
    let q = fill_queues nproc t in
    let (b, low, full, e) =
      from_level-first mlq_levels 0 q r (from_level mlq_levels 0 q r).0 (level (t j)) refl
        (omega arith) (level_lt (t j)) (fill_queues-filled nproc t j h good) in
    let size = fill_queues-bounded nproc t b in
    let (p, slot, now, lev, small) =
      fill_queues-slot nproc t b (random (q.idxs b) r).0
        (random_bounds (q.idxs b) r full (omega arith)) in
    (p, e ∙ slot, small, now, rw lev low)
