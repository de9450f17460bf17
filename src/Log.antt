-- ===== src/Log.antt =====
-- Lab/code/log.c: the redo log. The buffer cache (Lab/code/bio.c) and the disk are `Store`: what
-- `bread` returns for a block and what the disk holds. A block is its words, by index. `power`
-- counts the writes left until the machine stops: a write after that does not reach the disk. The
-- number of entries `n` is the program's `int` where it is not negative. `log_write` and `end_op` are
-- the change of the log alone; `log_write_buf` and `end_op_call` are the calls with the buffer's flag
-- and the wakeup.
pub mod Atomic
pub mod Copy
pub mod Crash
pub mod Head
pub mod Recovery
pub mod Space
use xmu_learning_os.Base.{
  Option, add32, first, if◌then◌else◌, leb, ltb, none, not, slt, some, sub32, suc, true, update,
  zero, ℕ, ◌*◌, ◌+◌, ◌-◌, ◌==◌, ◌||◌,
}
use xmu_learning_os.Bio.{Bcache}
use xmu_learning_os.Proc.{Chan, Kernel}
use xmu_learning_os.Proc.Sleep.{sleep, wakeup}

abbrev pub Block : Type 0
Block = ℕ → ℕ

pub record Store : Type 0 where
  pub seen : ℕ → Block
  pub disk : ℕ → Block
  pub power : ℕ

-- `memmove(b->data, data, BSIZE); bwrite(b);`
unfoldable pub bwrite : ℕ → Block → Store → Store
bwrite b content s = record {
  seen = update s.seen b content;
  disk = if s.power == 0 then s.disk else update s.disk b content;
  power = s.power - 1;
}

-- The machine stops, and starts again with an empty cache.
unfoldable pub reboot : ℕ → Store → Store
reboot power s = record { seen = s.disk; disk = s.disk; power = power }

pub record Log : Type 0 where
  pub start : ℕ
  pub size : ℕ
  pub outstanding : ℕ
  pub committing : ℕ
  pub n : ℕ
  pub block : ℕ → ℕ

abbrev pub maxopblocks : ℕ
maxopblocks = 10

abbrev pub logsize : ℕ
logsize = 30

-- `for (tail = 0; tail < n; tail++)` copy the block `from(tail)` to `to(tail)` and write it.
unfoldable pub copy_blocks : (ℕ → ℕ) → (ℕ → ℕ) → ℕ → Store → Store
copy_blocks from to zero s = s
copy_blocks from to (suc n) s =
    let s' = copy_blocks from to n s in bwrite (to n) (s'.seen (from n)) s'

-- The log block of entry `tail`.
abbrev pub slot : ℕ → ℕ → ℕ
slot start tail = start + tail + 1

unfoldable pub install_trans : Log → Store → Store
install_trans l s = copy_blocks (slot l.start) l.block l.n s

unfoldable pub write_log : Log → Store → Store
write_log l s = copy_blocks l.block (slot l.start) l.n s

-- The header block: `n` is word 0 and `block[i]` is word `i + 1`.
unfoldable pub fill_head : ℕ → (ℕ → ℕ) → Block → Block
fill_head zero block w = w
fill_head (suc n) block w = update (fill_head n block w) (suc n) (block n)

unfoldable pub write_head : Log → Store → Store
unfolding fill_head
write_head l s = bwrite l.start (fill_head l.n l.block (update (s.seen l.start) 0 l.n)) s

-- `for (i = 0; i < log.lh.n; i++) log.lh.block[i] = lh->block[i];`
unfoldable pub read_blocks : ℕ → Block → (ℕ → ℕ) → ℕ → ℕ
read_blocks zero w block = block
read_blocks (suc n) w block = update (read_blocks n w block) n (w (suc n))

unfoldable pub read_head : Log → Store → Log
unfolding read_blocks
read_head l s = let w = s.seen l.start in record l { n = w 0; block = read_blocks (w 0) w l.block }

unfoldable pub recover_from_log : Log → Store → Log × Store
recover_from_log l s =
    let l' = read_head l s in
    let s' = install_trans l' s in let done = record l' { n = 0 } in (done, write_head done s')

-- `initlog`, with what it reads of the superblock.
unfoldable pub initlog : ℕ → ℕ → Store → Log × Store
initlog start size s =
    recover_from_log
      (record {
        start = start;
        size = size;
        outstanding = 0;
        committing = 0;
        n = 0;
        block = λ i. 0;
      })
      s

unfoldable pub commit : Log → Store → Log × Store
commit l s =
    let s' = install_trans l (write_head l (write_log l s)) in
    let done = record l { n = 0 } in if ltb 0 l.n then (done, write_head done s') else (l, s)

-- A pass through the loop of `begin_op`: `none` where it sleeps on the log.
unfoldable pub begin_op_round : Log → Option Log
begin_op_round l =
    if not (l.committing == 0)
    then none
    else if ltb logsize (l.n + (l.outstanding + 1) * maxopblocks)
    then none
    else some (record l { outstanding = add32 l.outstanding 1 })

-- `end_op`: `none` is a panic. The last operation commits.
unfoldable pub end_op : Log → Store → Option (Log × Store)
end_op l s =
    let l' = record l { outstanding = sub32 l.outstanding 1 } in
    if not (l.committing == 0)
    then none
    else if l'.outstanding == 0
    then (let (done, s') = commit (record l' { committing = 1 }) s in
        some (record done { committing = 0 }, s'))
    else some (l', s)

-- The entry that `log_write` uses: an old one of the block, or the next.
unfoldable pub entry_of : ℕ → Log → ℕ
entry_of b l = elim (first (λ x. x == b) l.n 0 l.block) [ none ↦ l.n | some i ↦ i ]

unfoldable pub log_write : ℕ → Log → Option Log
unfolding entry_of
log_write b l =
    if leb logsize l.n || leb l.size (l.n + 1)
    then none
    else if slt l.outstanding 1
    then none
    else let i = entry_of b l in
      some (record l { block = update l.block i b; n = if i == l.n then l.n + 1 else l.n })

-- `log_write` on a buffer, with the flag B_DIRTY that keeps the buffer in the cache.
unfoldable pub log_write_buf : ℕ → Log → Bcache → Option (Log × Bcache)
unfolding log_write
log_write_buf i l c = elim (log_write (c.buf i).blockno l) [
  | none ↦ none
  | some l' ↦ some (l', record c { buf = update c.buf i (record (c.buf i) { dirty = true }) })
]

-- The same calls with the processes that sleep on the log: `begin_op` puts its caller to sleep where
-- it does not return, and `end_op` ends with a wakeup on both of its branches.
module _ {S : Type 0} (chan : Chan) where
  unfoldable pub begin_op_call : ℕ → Log → Kernel S → Option Log × Kernel S
  unfolding begin_op_round
  begin_op_call cur l k = elim (begin_op_round l) [
    | none ↦ (none, sleep cur chan k)
    | some l' ↦ (some l', k)
  ]

  unfoldable pub end_op_call : Log → Store → Kernel S → Option (Log × Store × Kernel S)
  unfolding end_op
  end_op_call l s k = elim (end_op l s) [
    | none ↦ none
    | some (l', s') ↦ some (l', s', wakeup chan k)
  ]
