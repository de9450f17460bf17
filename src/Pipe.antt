-- ===== src/Pipe.antt =====
-- Lab/code/pipe.c: `pipewrite`, `piperead` and `pipeclose` under the pipe's lock. A call that waits
-- is a loop of rounds, each of which returns or sleeps; readers sleep on `reader` (`&p->nread`) and
-- writers on `writer` (`&p->nwrite`).
pub mod Fifo
pub mod Stream
use xmu_learning_os.Base.{
  Bool, List, [], add32, if◌then◌else◌, not, suc, update, zero, ℕ, ◌%◌, ◌&&◌, ◌==◌, ◌||◌, ◌∷◌,
}
use xmu_learning_os.Proc.{Chan, Kernel}
use xmu_learning_os.Proc.Sleep.{sleep, wakeup}
use xmu_learning_os.Proc.Wait.{Round, fails, returns, waits}

abbrev pub pipesize : ℕ
pipesize = 512

pub record Pipe : Type 0 where
  pub content : ℕ → ℕ
  pub nread : ℕ
  pub nwrite : ℕ
  pub readopen : ℕ
  pub writeopen : ℕ

-- What `pipealloc` sets in a new page.
unfoldable pub start_pipe : Pipe → Pipe
start_pipe p = record p { readopen = 1; writeopen = 1; nwrite = 0; nread = 0 }

-- `p->nwrite == p->nread + PIPESIZE` and `p->nread == p->nwrite`
abbrev pub is_full : Pipe → Bool
is_full p = p.nwrite == add32 p.nread pipesize

abbrev pub is_empty : Pipe → Bool
is_empty p = p.nread == p.nwrite

-- `p->data[p->nwrite++ % PIPESIZE] = c`
unfoldable pub put_byte : ℕ → Pipe → Pipe
put_byte c p = record p {
  content = update p.content (p.nwrite % pipesize) c;
  nwrite = add32 p.nwrite 1;
}

-- `p->data[p->nread++ % PIPESIZE]`
unfoldable pub get_byte : Pipe → ℕ × Pipe
get_byte p = (p.content (p.nread % pipesize), record p { nread = add32 p.nread 1 })

-- How a run through the loop of `pipewrite` ends: all is written, the bytes from here on wait, or
-- it fails.
pub data Progress : Type 0 where
  written : Progress
  blocked : List ℕ → Progress
  broken : Progress

-- The loop of `pipewrite` over the bytes `addr[i..n)`, up to where it would sleep.
unfoldable pub write_bytes : Bool → List ℕ → Pipe → Progress × Pipe
write_bytes killed [] p = (written, p)
write_bytes killed (c ∷ cs) p =
    let more = write_bytes killed cs (put_byte c p) in
    if is_full p then (if p.readopen == 0 || killed then broken else blocked (c ∷ cs), p) else more

-- The loop of `piperead` that copies.
unfoldable pub read_bytes : ℕ → Pipe → List ℕ × Pipe
read_bytes zero p = ([], p)
read_bytes (suc n) p =
    let (c, p') = get_byte p in
    let (cs, p'') = read_bytes n p' in if is_empty p then ([], p) else (c ∷ cs, p'')

-- A pipe beside the kernel that its callers sleep in.
pub record PipeWorld (S : Type 0) : Type 0 where
  pub kernel : Kernel S
  pub pipe : Pipe

module _ {S : Type 0} (reader writer : Chan) where
  -- Either end of the loop wakes the readers; a full pipe puts the writer to sleep.
  unfoldable pub pipewrite_round : ℕ → List ℕ → PipeWorld S → Progress × PipeWorld S
  pipewrite_round cur bytes w =
      let (outcome, p) = write_bytes (not ((w.kernel.procs cur).killed == 0)) bytes w.pipe in
      let woken = wakeup reader w.kernel in
      (
        outcome,
        elim outcome [
          | written ↦ record { kernel = woken; pipe = p }
          | blocked rest ↦ record { kernel = sleep cur writer woken; pipe = p }
          | broken ↦ record { kernel = w.kernel; pipe = p }
        ],
      )

  unfoldable pub piperead_round : ℕ → ℕ → PipeWorld S → Round (List ℕ) × PipeWorld S
  piperead_round cur n w =
      let (bytes, p) = read_bytes n w.pipe in
      if is_empty w.pipe && not (w.pipe.writeopen == 0)
      then if not ((w.kernel.procs cur).killed == 0)
        then (fails, w)
        else (waits, record w { kernel = sleep cur reader w.kernel })
      else (returns bytes, record { kernel = wakeup writer w.kernel; pipe = p })

  -- The Boolean says that the pipe's page is freed.
  unfoldable pub pipeclose : Bool → PipeWorld S → Bool × PipeWorld S
  pipeclose writable w =
      let p =
        if writable then record (w.pipe) { writeopen = 0 } else record (w.pipe) { readopen = 0 } in
      (
        p.readopen == 0 && p.writeopen == 0,
        record { kernel = wakeup (if writable then reader else writer) w.kernel; pipe = p },
      )
