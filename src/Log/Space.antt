-- ===== src/Log/Space.antt =====
-- The log's space: an operation that writes no more than `MAXOPBLOCKS` blocks between `begin_op` and
-- `end_op` never meets the panics of `log_write`.
use xmu_learning_os.Base.{
  List, [], arith, get_elem?, length, length-set, none, set, some, sub32, suc, zero, ℕ, ◌*◌, ◌+◌,
  ◌<◌, ◌∷◌, ◌≡◌, ◌≤◌,
}
use xmu_learning_os.Log.{
  Log, Store, begin_op_round, commit, end_op, log_write, logsize, maxopblocks,
}

-- The writes that each operation under way has left.
abbrev pub Budgets : Type 0
Budgets = List ℕ

unfoldable pub sum : List ℕ → ℕ
sum [] = 0
sum (x ∷ xs) = x + sum xs

abbrev pub drop_at : ℕ → List ℕ → List ℕ
drop_at i [] = []
drop_at zero (x ∷ xs) = xs
drop_at (suc i) (x ∷ xs) = x ∷ drop_at i xs

sum-set : (bs : List ℕ) (i m : ℕ) → get_elem? bs i ≡ some (suc m) → sum (set bs i m) + 1 ≡ sum bs
unfolding sum
sum-set [] i m e = cc
sum-set (x ∷ bs) zero m e = ground arith
sum-set (x ∷ bs) (suc i) m e = omega (arith, sum-set bs i m e)

sum-drop_at : (bs : List ℕ) (i : ℕ) → sum (drop_at i bs) ≤ sum bs
unfolding sum
sum-drop_at [] i = omega arith
sum-drop_at (x ∷ bs) zero = omega arith
sum-drop_at (x ∷ bs) (suc i) = omega (arith, sum-drop_at bs i)

length-drop_at : (bs : List ℕ) (i : ℕ) → i < length bs → length (drop_at i bs) + 1 ≡ length bs
length-drop_at [] i h = absurd (omega arith)
length-drop_at (x ∷ bs) zero h = omega arith
length-drop_at (x ∷ bs) (suc i) h = omega (arith, length-drop_at bs i (omega arith))

-- No operation has more left than it may write.
abbrev pub Small : Budgets → Type 0
Small [] = Unit {0}
Small (x ∷ bs) = (x ≤ maxopblocks) × Small bs

sum-le_of_Small : (bs : Budgets) → Small bs → sum bs ≤ length bs * maxopblocks
unfolding sum
sum-le_of_Small [] h = omega arith
sum-le_of_Small (x ∷ bs) h = omega (arith, sum-le_of_Small bs h.1)

set-Small : (bs : Budgets) (i m : ℕ) → get_elem? bs i ≡ some (suc m) → Small bs → Small (set bs i m)
set-Small [] i m e h = tt
set-Small (x ∷ bs) zero m e h = (ground arith, h.1)
set-Small (x ∷ bs) (suc i) m e h = (h.0, set-Small bs i m e h.1)

drop_at-Small : (bs : Budgets) (i : ℕ) → Small bs → Small (drop_at i bs)
drop_at-Small [] i h = tt
drop_at-Small (x ∷ bs) zero h = h.1
drop_at-Small (x ∷ bs) (suc i) h = (h.0, drop_at-Small bs i h.1)

pub data Step (l : Log) (bs : Budgets) : Log → Budgets → Type 0 where
  begins : {l' : Log} → begin_op_round l ≡ some l' → Step l bs l' (maxopblocks ∷ bs)
  writes :
      (i m b : ℕ) {l' : Log}
      → get_elem? bs i ≡ some (suc m)
      → log_write b l ≡ some l'
      → Step l bs l' (set bs i m)
  ends :
      (i : ℕ) (s : Store) {l' : Log} {s' : Store}
      → i < length bs
      → end_op l s ≡ some (l', s')
      → Step l bs l' (drop_at i bs)

pub data Reach (l : Log) (bs : Budgets) : Log → Budgets → Type 0 where
  here : Reach l bs l bs
  next :
      {l' l'' : Log} {bs' bs'' : Budgets}
      → Reach l bs l' bs'
      → Step l' bs' l'' bs''
      → Reach l bs l'' bs''

-- What is written and what may still be written fits, and each operation is counted.
pub record HasRoom (l : Log) (bs : Budgets) : Type 0 where
  pub idle : l.committing ≡ 0
  pub counted : l.outstanding ≡ length bs
  pub few : length bs ≤ 3
  pub shared : Small bs
  pub room : l.n + sum bs ≤ logsize

begin-HasRoom :
    {l l' : Log} (bs : Budgets)
    → begin_op_round l ≡ some l'
    → HasRoom l bs
    → HasRoom l' (maxopblocks ∷ bs)
unfolding begin_op_round sum
begin-HasRoom bs e v = ground (arith, sum-le_of_Small bs v.shared)

write-HasRoom :
    {l l' : Log} (bs : Budgets) (i m b : ℕ)
    → get_elem? bs i ≡ some (suc m)
    → log_write b l ≡ some l'
    → HasRoom l bs
    → HasRoom l' (set bs i m)
unfolding log_write
write-HasRoom bs i m b g e v =
    ground (arith, sum-set bs i m g, length-set bs i m, set-Small bs i m g v.shared)

-- A commit empties the log and keeps the rest of its state.
commit_lem :
    (l : Log) (s : Store) → ((commit l s).0.n ≡ 0) × ((commit l s).0.outstanding ≡ l.outstanding)
unfolding commit
commit_lem l s = ground arith

end-HasRoom :
    {l l' : Log} (s s' : Store) (bs : Budgets) (i : ℕ)
    → i < length bs
    → end_op l s ≡ some (l', s')
    → HasRoom l bs
    → HasRoom l' (drop_at i bs)
unfolding end_op
end-HasRoom {l} s s' bs i h e v = ground (
  arith,
  sum-drop_at bs i,
  length-drop_at bs i h,
  drop_at-Small bs i v.shared,
  commit_lem (record l { outstanding = sub32 l.outstanding 1; committing = 1 }) s,
)

Step-HasRoom : {l l' : Log} {bs bs' : Budgets} → Step l bs l' bs' → HasRoom l bs → HasRoom l' bs'
Step-HasRoom {bs = bs} (begins e) v = begin-HasRoom bs e v
Step-HasRoom {bs = bs} (writes i m b g e) v = write-HasRoom bs i m b g e v
Step-HasRoom {bs = bs} (ends i s {s' = s'} h e) v = end-HasRoom s s' bs i h e v

pub Reach-HasRoom :
    {l : Log} {bs : Budgets} {l' : Log} {bs' : Budgets}
    → HasRoom l bs
    → Reach l bs l' bs'
    → HasRoom l' bs'
Reach-HasRoom v here = v
Reach-HasRoom v (next r st) = Step-HasRoom st (Reach-HasRoom v r)

-- A log of `LOGSIZE` blocks, as mkfs makes it, is too small for that: with 29 entries `log_write`
-- panics, whatever block is written and whoever has writes left.
pub log_write_panics : (l : Log) (b : ℕ) → l.size ≡ logsize → l.n ≡ 29 → log_write b l ≡ none
unfolding log_write
log_write_panics l b e h = ground arith
