-- ===== src/Bio.antt =====
-- Lab/code/bio.c: the cache of disk blocks, `binit`, `bget` up to `acquiresleep`, and `brelse`. A
-- buffer is its index in `bcache.buf`, and `recent` is the circular list from `head.next`, the most
-- recently used one, to `head.prev`. The flags are Booleans.
pub mod Cached
pub mod Find
pub mod Unique
use xmu_learning_os.Base.{
  Bool, List, Option, [], add32, false, if◌then◌else◌, none, not, some, sub32, suc, update, zero, ℕ,
  ◌&&◌, ◌==◌, ◌∷◌,
}
use xmu_learning_os.Proc.{Chan, Kernel}
use xmu_learning_os.Sleeplock.{Sleeplock, holdingsleep, initsleeplock, releasesleep}

abbrev pub nbuf : ℕ
nbuf = 30

pub record Buf : Type 0 where
  pub valid : Bool
  pub dirty : Bool
  pub dev : ℕ
  pub blockno : ℕ
  pub lock : Sleeplock
  pub refcnt : ℕ
  pub bytes : ℕ → ℕ

pub record Bcache : Type 0 where
  pub buf : ℕ → Buf
  pub recent : List ℕ

-- `for (b = head.next; b != &head; b = b->next) if (p(b)) return b;`
unfoldable pub find_next : (ℕ → Bool) → List ℕ → Option ℕ
find_next p [] = none
find_next p (b ∷ bs) = let rest = find_next p bs in if p b then some b else rest

-- `for (b = head.prev; b != &head; b = b->prev) if (p(b)) return b;`
unfoldable pub find_prev : (ℕ → Bool) → List ℕ → Option ℕ
find_prev p [] = none
find_prev p (b ∷ bs) = elim (find_prev p bs) [
  | none ↦ if p b then some b else none
  | some c ↦ some c
]

-- `b->next->prev = b->prev; b->prev->next = b->next;`
unfoldable pub unlink : ℕ → List ℕ → List ℕ
unlink b [] = []
unlink b (c ∷ bs) = let rest = unlink b bs in if c == b then bs else c ∷ rest

-- The loop of `binit` over the first `n` buffers.
unfoldable pub link_all : ℕ → Bcache → Bcache
link_all zero c = c
link_all (suc n) c =
    let d = link_all n c in
    record {
      buf = update d.buf n (record (d.buf n) { lock = initsleeplock });
      recent = n ∷ d.recent;
    }

unfoldable pub binit : Bcache → Bcache
binit c = link_all nbuf (record c { recent = [] })

abbrev pub is_block : ℕ → ℕ → Buf → Bool
is_block d n b = (b.dev == d) && (b.blockno == n)

abbrev pub is_spare : Buf → Bool
is_spare b = (b.refcnt == 0) && not b.dirty

abbrev pub recycled : ℕ → ℕ → Buf → Buf
recycled d n b = record b { dev = d; blockno = n; valid = false; dirty = false; refcnt = 1 }

-- The buffer that `bget` goes on to lock; `none` is the panic.
unfoldable pub bget : ℕ → ℕ → Bcache → Option (ℕ × Bcache)
bget d n c = elim (find_next (λ i. is_block d n (c.buf i)) c.recent) [
  | some i ↦ some (
    i,
    record c { buf = update c.buf i (record (c.buf i) { refcnt = add32 (c.buf i).refcnt 1 }) },
  )
  | none ↦ elim (find_prev (λ i. is_spare (c.buf i)) c.recent) [
    | some i ↦ some (i, record c { buf = update c.buf i (recycled d n (c.buf i)) })
    | none ↦ none
  ]
]

-- What `brelse` does under the lock of the cache.
unfoldable pub drop_ref : ℕ → Bcache → Bcache
drop_ref i c =
    let r = sub32 (c.buf i).refcnt 1 in
    record {
      buf = update c.buf i (record (c.buf i) { refcnt = r });
      recent = if r == 0 then i ∷ unlink i c.recent else c.recent;
    }

module _ {S : Type 0} (chan : ℕ → Chan) where
  -- `none` is the panic.
  unfoldable pub brelse : ℕ → Bcache → Kernel S → Option (Bcache × Kernel S)
  brelse i c k =
      let (lk, k') = releasesleep (chan i) (c.buf i).lock k in
      let unlocked = record c { buf = update c.buf i (record (c.buf i) { lock = lk }) } in
      if holdingsleep (c.buf i).lock then some (drop_ref i unlocked, k') else none
