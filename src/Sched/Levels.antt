-- ===== src/Sched/Levels.antt =====
-- `smlScheduler` serves the lowest level that has a runnable process.
use xmu_learning_os.Base.{
  Bool-cases, Option, arith, inl, inr, ltb, ltb→lt, some, suc, sym, true, zero, ℕ, ◌&&◌, ◌+◌, ◌<◌,
  ◌==◌, ◌≡◌, ◌≤◌,
}
use xmu_learning_os.Proc.{Proc}
use xmu_learning_os.Sched.{Lfsr, Queues, enqueue, fill_queues, from_level, level_of, random, runs}

abbrev pub level : Proc → ℕ
level p = level_of p.priority

-- Every filled place of the queues holds a runnable process of its level.
pub fill_queues-slot :
    (n : ℕ) (t : ℕ → Proc) (l i : ℕ)
    → i < (fill_queues n t).idxs l
    → (p : ℕ) × ((fill_queues n t).mq l i ≡ some p)
      × (runs (t p) ≡ true)
      × (level (t p) ≡ l)
      × (p < n)
unfolding fill_queues enqueue
fill_queues-slot zero t l i h = absurd (omega arith)
fill_queues-slot (suc n) t l i h = elim (Bool-cases (runs (t n))) [
  | inr skip ↦
      let (p, a, b, c, d) = fill_queues-slot n t l i (rw skip at h) in
      (p, ground arith, b, c, omega arith)
  | inl now ↦ elim (Bool-cases (level (t n) == l && (fill_queues n t).idxs l == i)) [
    | inl new ↦ (n, ground arith, now, ground arith, omega arith)
    | inr old ↦
        let (p, a, b, c, d) = fill_queues-slot n t l i (ground arith) in
        (p, ground arith, b, c, omega arith)
  ]
]

-- No queue outgrows its array.
pub fill_queues-bounded : (n : ℕ) (t : ℕ → Proc) (l : ℕ) → (fill_queues n t).idxs l ≤ n
unfolding fill_queues enqueue
fill_queues-bounded zero t l = omega arith
fill_queues-bounded (suc n) t l = ground (arith, fill_queues-bounded n t l)

-- Every runnable process is in the queue of its level.
pub fill_queues-filled :
    (n : ℕ) (t : ℕ → Proc) (j : ℕ)
    → j < n
    → runs (t j) ≡ true
    → 0 < (fill_queues n t).idxs (level (t j))
unfolding fill_queues enqueue
fill_queues-filled zero t j h r = absurd (omega arith)
fill_queues-filled (suc n) t j h r = elim (Bool-cases (j == n)) [
  | inl s ↦ let same : j ≡ n = ground arith in rw same (rw (rw same at r) (ground arith))
  | inr d ↦ elim (Bool-cases (runs (t n))) [
    | inl now ↦ rw now (ground (arith, fill_queues-filled n t j))
    | inr skip ↦ rw skip (fill_queues-filled n t j (ground arith) r)
  ]
]

-- What the last loop returns comes from the first level that is not empty.
pub from_level-first :
    (n l : ℕ) (q : Queues) (r : Lfsr) (x : Option ℕ) (m : ℕ)
    → (from_level n l q r).0 ≡ x
    → l ≤ m
    → m < l + n
    → 0 < q.idxs m
    → (b : ℕ) × (b ≤ m) × (0 < q.idxs b) × (x ≡ q.mq b (random (q.idxs b) r).0)
unfolding from_level
from_level-first zero l q r x m e a h f = absurd (omega arith)
from_level-first (suc n) l q r x m e a h f = elim (Bool-cases (ltb 0 (q.idxs l))) [
  | inl full ↦ (l, a, ltb→lt 0 (q.idxs l) full, sym (rw full at e))
  | inr dry ↦ from_level-first n (l + 1) q r x m (rw dry at e) (ground arith) (omega arith) f
]

pub from_level-some :
    (n l : ℕ) (q : Queues) (r : Lfsr) (p : ℕ)
    → (from_level n l q r).0 ≡ some p
    → (b : ℕ) × (0 < q.idxs b) × (q.mq b (random (q.idxs b) r).0 ≡ some p)
unfolding from_level
from_level-some zero l q r p e = absurd (ground arith)
from_level-some (suc n) l q r p e = elim (Bool-cases (ltb 0 (q.idxs l))) [
  | inl full ↦ (l, ltb→lt 0 (q.idxs l) full, rw full at e)
  | inr dry ↦ from_level-some n (l + 1) q r p (rw dry at e)
]
