-- ===== src/Sched.antt =====
-- Lab/code/proc.c, `random` to `smlScheduler`, and Lab/code/sdh.h: the pseudo-random numbers, the
-- policies that choose the next process, and the calls that choose the policy.
pub mod Choice
pub mod Conserving
pub mod Fairness
pub mod Least
pub mod Levels
pub mod Policies
pub mod RoundRobin
pub mod Select
use xmu_learning_os.Base.{
  Bool, Option, false, if◌then◌else◌, ltb, minus_one, none, sle, slt, some, sub32, suc, true,
  update, zero, ℕ, ◌%◌, ◌&&◌, ◌*◌, ◌+◌, ◌-◌, ◌/◌, ◌==◌, ◌^◌,
}
use xmu_learning_os.Proc.{Proc, is_runnable, nproc}
use Prim.Native.Nat.{bit_and, bit_xor}

-- `<<` and `>>` on `int`.
abbrev pub shl : ℕ → ℕ → ℕ
shl a n = a * 2 ^ n % 2 ^ 32

abbrev pub sar : ℕ → ℕ → ℕ
sar a n = if ltb a (2 ^ 31) then a / 2 ^ n else minus_one - (minus_one - a) / 2 ^ n

-- `a % m` on `int` for a positive `m`: the sign is that of `a`.
abbrev pub srem : ℕ → ℕ → ℕ
srem a m = if ltb a (2 ^ 31) then a % m else sub32 0 ((2 ^ 32 - a) % m)

-- The four static registers of `random`.
pub record Lfsr : Type 0 where
  pub z1 : ℕ
  pub z2 : ℕ
  pub z3 : ℕ
  pub z4 : ℕ

-- `b = (((z << s) ^ z) >> t); z = (((z & mask) << u) ^ b)`
unfoldable pub shift_register : ℕ → ℕ → ℕ → ℕ → ℕ → ℕ
shift_register s t mask u z = bit_xor (shl (bit_and z mask) u) (sar (bit_xor (shl z s) z) t)

unfoldable pub shift_all : Lfsr → Lfsr
unfolding shift_register
shift_all r = record {
  z1 = shift_register 6 13 4294967294 18 r.z1;
  z2 = shift_register 2 27 4294967288 2 r.z2;
  z3 = shift_register 13 21 4294967280 7 r.z3;
  z4 = shift_register 3 12 4294967168 13 r.z4;
}

-- `int rand = … % max; if(rand < 0) rand = rand * -1;`
unfoldable pub reduce : ℕ → ℕ → ℕ
reduce v max = let rand = srem v max in if slt rand 0 then sub32 0 rand else rand

unfoldable pub random : ℕ → Lfsr → ℕ × Lfsr
unfolding shift_all reduce
random max r =
    if sle max 0
    then (1, r)
    else let r' = shift_all r in
      (reduce (bit_xor (bit_xor (bit_xor r'.z1 r'.z2) r'.z3) r'.z4) max, r')

abbrev pub runs : Proc → Bool
runs p = is_runnable p.state

-- The loop of `defaultScheduler` from round `i` on.
unfoldable pub default_from : ℕ → ℕ → ℕ → (ℕ → Proc) → Option ℕ
default_from zero i rnd t = none
default_from (suc n) i rnd t =
    let rest = default_from n (i + 1) rnd t in
    let p = (rnd + i) % nproc in if runs (t p) then some p else rest

unfoldable pub default_scheduler : Lfsr → (ℕ → Proc) → Option ℕ × Lfsr
unfolding default_from random
default_scheduler r t = let (rnd, r') = random nproc r in (default_from nproc 0 rnd t, r')

-- The loop of `priorityScheduler` and `fcfsScheduler`; `better p q` replaces `q` by `p`.
unfoldable pub better_of : (Proc → Proc → Bool) → (ℕ → Proc) → ℕ → Option ℕ → Option ℕ
better_of better t i none = if runs (t i) then some i else none
better_of better t i (some j) = if runs (t i) && better (t i) (t j) then some i else some j

unfoldable pub pick : (Proc → Proc → Bool) → ℕ → (ℕ → Proc) → Option ℕ
unfolding better_of
pick better zero t = none
pick better (suc n) t = better_of better t n (pick better n t)

abbrev pub is_more_urgent : Proc → Proc → Bool
is_more_urgent p q = slt p.priority q.priority

abbrev pub is_older : Proc → Proc → Bool
is_older p q = ltb p.ctime q.ctime

unfoldable pub priority_scheduler : (ℕ → Proc) → Option ℕ
unfolding pick
priority_scheduler t = pick is_more_urgent nproc t

unfoldable pub fcfs_scheduler : (ℕ → Proc) → Option ℕ
unfolding pick
fcfs_scheduler t = pick is_older nproc t

-- The `do … while(i != idx)` of `rrScheduler` on fuel: the process and the new `idx`. The outer
-- `none` means that the fuel ran out.
unfoldable pub rr_from : ℕ → ℕ → ℕ → (ℕ → Proc) → Option (Option ℕ × ℕ)
rr_from zero start idx t = none
rr_from (suc f) start idx t =
    let idx' = (idx + 1) % nproc in
    elim (runs (t idx')) [
      | true ↦ some (some idx', idx')
      | false ↦ elim (start == idx') [ true ↦ some (none, idx') | false ↦ rr_from f start idx' t ]
    ]

unfoldable pub rr_scheduler : ℕ → (ℕ → Proc) → Option (Option ℕ × ℕ)
unfolding rr_from
rr_scheduler idx t = rr_from nproc idx idx t

-- The queues of `smlScheduler`: `MQ` and `Idxs`.
pub record Queues : Type 0 where
  pub mq : ℕ → ℕ → Option ℕ
  pub idxs : ℕ → ℕ

abbrev pub mlq_levels : ℕ
mlq_levels = 3

-- The level that the inner loop stops at, by `MLQ_TIME_SLICES`.
abbrev pub level_of : ℕ → ℕ
level_of priority = if sle priority 7 then 0 else if sle priority 14 then 1 else 2

abbrev pub no_queues : Queues
no_queues = record { mq = λ l i. none; idxs = λ l. 0 }

-- `MQ[i][Idxs[i]++] = p`
unfoldable pub enqueue : ℕ → ℕ → Queues → Queues
enqueue l p q = record {
  mq = update q.mq l (update (q.mq l) (q.idxs l) (some p));
  idxs = update q.idxs l (q.idxs l + 1);
}

unfoldable pub fill_queues : ℕ → (ℕ → Proc) → Queues
unfolding enqueue
fill_queues zero t = no_queues
fill_queues (suc n) t =
    let q = fill_queues n t in if runs (t n) then enqueue (level_of (t n).priority) n q else q

-- The last loop: the first level that is not empty gives one of its processes at random.
unfoldable pub from_level : ℕ → ℕ → Queues → Lfsr → Option ℕ × Lfsr
unfolding random
from_level zero l q r = (none, r)
from_level (suc n) l q r =
    let rest = from_level n (l + 1) q r in
    if ltb 0 (q.idxs l) then (let (i, r') = random (q.idxs l) r in (q.mq l i, r')) else rest

unfoldable pub sml_scheduler : Lfsr → (ℕ → Proc) → Option ℕ × Lfsr
unfolding fill_queues from_level
sml_scheduler r t = from_level mlq_levels 0 (fill_queues nproc t) r
