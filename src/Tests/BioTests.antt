-- ===== src/Tests/BioTests.antt =====
-- The theorems on the buffer cache at a concrete cache.
use xmu_learning_os.Base.{[], arith, false, if◌then◌else◌, refl, update, ◌==◌, ◌∷◌, ◌≡◌}
use xmu_learning_os.Bio.{
  Bcache, Buf, bget, binit, drop_ref, find_next, find_prev, is_block, is_spare, link_all, recycled,
}
use xmu_learning_os.Bio.Cached.{Fetched, bget-none, bget-some}
use xmu_learning_os.Bio.Find.{is_in}
use xmu_learning_os.Bio.Unique.{Reach-Sound, Sound, get, here, next, release}
use xmu_learning_os.Memide.RoundTrip.{bread_into-bwrite_from}
use xmu_learning_os.Sleeplock.{holdingsleep, initsleeplock}

abbrev empty_buf : Buf
empty_buf = record {
  valid = false;
  dirty = false;
  dev = 0;
  blockno = 0;
  lock = initsleeplock;
  refcnt = 0;
  bytes = λ i. 0;
}

abbrev zeroed : Bcache
zeroed = record { buf = λ i. empty_buf; recent = [] }

-- Three buffers: 2 holds block 7 for a user, 0 is dirty, 1 is free.
abbrev small : Bcache
small = record {
  buf = λ i.
      if i == 2
      then record empty_buf { dev = 1; blockno = 7; refcnt = 1 }
      else record empty_buf { dirty = i == 0 };
  recent = 2 ∷ 1 ∷ 0 ∷ [];
}

-- Every buffer is in use.
abbrev busy_cache : Bcache
busy_cache = record { buf = λ i. record empty_buf { refcnt = 1 }; recent = 1 ∷ 0 ∷ [] }

bget-some_example : Fetched 1 7 small 2 (record small {
  buf = update small.buf 2 (record empty_buf { dev = 1; blockno = 7; refcnt = 2 });
})
unfolding bget find_next
bget-some_example =
    bget-some 1 7 small 2
      (record small {
        buf = update small.buf 2 (record empty_buf { dev = 1; blockno = 7; refcnt = 2 });
      })
      refl

bget-none_example :
    (is_block 1 7 (busy_cache.buf 1) ≡ false) × (is_spare (busy_cache.buf 1) ≡ false)
unfolding bget find_next find_prev is_in
bget-none_example = bget-none 1 7 busy_cache 1 refl refl

-- The first buffer to be given away is the list's last one, buffer 0.
abbrev fetched : Bcache
fetched = record (binit zeroed) {
  buf = update (binit zeroed).buf 0 (recycled 1 7 ((binit zeroed).buf 0));
}

Reach-Sound_example : Sound (drop_ref 0 fetched)
unfolding bget find_next find_prev is_in binit link_all
Reach-Sound_example =
    Reach-Sound zeroed (drop_ref 0 fetched) (λ x. refl)
      (next (next here (get 1 7 0 refl)) (release 0 refl))

-- A locked buffer of block 1 with the byte 5, and a locked one that is not read yet.
abbrev full_cache : Bcache
full_cache = record {
  buf = λ i. record empty_buf {
    dev = 1;
    blockno = 1;
    lock = record { locked = 1; pid = 1 };
    bytes = λ k. 5;
  };
  recent = [];
}

abbrev other_cache : Bcache
other_cache = record {
  buf = λ i. record empty_buf { dev = 1; blockno = 1; lock = record { locked = 1; pid = 2 } };
  recent = [];
}

bread_into-bwrite_from_example : (r : Bcache) × ((r.buf 0).bytes 3 ≡ 5)
unfolding holdingsleep
bread_into-bwrite_from_example =
    let t =
      bread_into-bwrite_from 2 0 (record { image = λ a. 0; disksize = 8 }) full_cache other_cache
        refl refl (omega arith) refl refl refl refl refl in
    (t.2, t.7 3 (omega arith))
