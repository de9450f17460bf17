-- ===== src/Tests/FsTests.antt =====
-- The theorems on the file system at a concrete disk.
use xmu_learning_os.Base.{
  List, Result, [], arith, first, if◌then◌else◌, none, ok, refl, some, stopped, true, update, ℕ,
  ◌&&◌, ◌<◌, ◌==◌, ◌∷◌, ◌≡◌, ◌≢◌, ◌≤◌, ◌⊎◌,
}
use xmu_learning_os.Fs.{Fs, Inode}
use xmu_learning_os.Fs.Blocks.{balloc}
use xmu_learning_os.Fs.Blocks.Marks.{Taken, balloc_lem}
use xmu_learning_os.Fs.Content.{Devices, readi, writei}
use xmu_learning_os.Fs.Content.Address.{IsMapped}
use xmu_learning_os.Fs.Content.Reading.{file_byte}
use xmu_learning_os.Fs.Content.RoundTrip.{readi-writei}
use xmu_learning_os.Fs.Inodes.{idup, iget, iupdate}
use xmu_learning_os.Fs.Inodes.Dinode.{Fits, SameDinode}
use xmu_learning_os.Fs.Inodes.Unique.{
  OneEntry, Reach-OneEntry, adds_ref, drops_ref, gets_inode, here, next,
}
use xmu_learning_os.Fs.Inodes.Update.{iupdate_lem, on_disk}
use xmu_learning_os.Fs.Names.{skipelem, walk}
use xmu_learning_os.Fs.Names.Elements.{Skipped, elements, skipelem_lem}
use xmu_learning_os.Fs.Names.Fuel.{walk_rounds}
use xmu_learning_os.Fs.Release.{drop_inode_ref}
use xmu_learning_os.Log.{log_write}
use xmu_learning_os.Sleeplock.{initsleeplock}

-- A disk of 1000 blocks, with the bitmap in block 58, where blocks 0 to 2 are marked, and a log with
-- an operation under way.
abbrev pub disk : Fs
disk = record {
  content = λ d b k. if (b == 58) && (k == 0) then 7 else 0;
  log = record { start = 2; size = 30; outstanding = 1; committing = 0; n = 0; block = λ i. 0 };
  sb = record {
    size = 1000;
    nblocks = 941;
    ninodes = 200;
    nlog = 30;
    logstart = 2;
    inodestart = 32;
    bmapstart = 58;
  };
  inodes = λ i. record {
    dev = 1;
    inum = 0;
    ref = 0;
    lock = initsleeplock;
    valid = 0;
    kind = 0;
    major = 0;
    minor = 0;
    nlink = 0;
    size = 0;
    addrs = λ k. 0;
  };
}

abbrev state_of : {A : Type 0} → Fs → Result (A × Fs) → Fs
state_of s (ok (a, s')) = s'
state_of s (stopped e) = s

balloc_lem_example : Taken 1 disk 3 (state_of disk (balloc 1 disk))
unfolding balloc first log_write
balloc_lem_example = balloc_lem 1 disk 3 (state_of disk (balloc 1 disk)) refl

-- The root directory, got into slot 0 and given a size.
abbrev opened : Fs
opened = state_of disk (iget 1 1 disk)

abbrev root : Inode
root = record {
  dev = 1;
  inum = 1;
  ref = 1;
  lock = initsleeplock;
  valid = 0;
  kind = 1;
  major = 0;
  minor = 0;
  nlink = 1;
  size = 512;
  addrs = λ k. if k == 0 then 59 else 0;
}

abbrev ready : Fs
ready = record opened { inodes = update opened.inodes 0 root }

root-Fits : Fits root
root-Fits = record {
  kind_fits = omega arith;
  major_fits = omega arith;
  minor_fits = omega arith;
  nlink_fits = omega arith;
  size_fits = omega arith;
  addrs_fit = λ k. ground arith;
}

iupdate_lem_example :
    SameDinode (on_disk (state_of ready (iupdate 0 ready)) 1 1 (disk.inodes 7)) root
    × ((d n : ℕ)
        → (d ≢ 1) ⊎ (n ≢ 1)
        → SameDinode
            (on_disk (state_of ready (iupdate 0 ready)) d n (disk.inodes 7))
            (on_disk ready d n (disk.inodes 7)))
    × ((state_of ready (iupdate 0 ready)).inodes ≡ ready.inodes)
unfolding iget iupdate log_write first
iupdate_lem_example =
    iupdate_lem 0 ready (state_of ready (iupdate 0 ready)) (disk.inodes 7) refl root-Fits

-- Two references to the root, and one again.
abbrev doubled : Fs
doubled = state_of opened (idup 0 opened)

Reach-OneEntry_example : OneEntry (state_of doubled (drop_inode_ref 0 doubled)).inodes
unfolding iget idup drop_inode_ref
Reach-OneEntry_example =
    Reach-OneEntry {s = disk} {s' = state_of doubled (drop_inode_ref 0 doubled)} (λ i. refl)
      (next (next (next here (gets_inode 1 1 0 refl)) (adds_ref 0 0 refl refl))
        (drops_ref 0 refl refl))

-- `/a//b`
abbrev path : List ℕ
path = 47 ∷ 97 ∷ 47 ∷ 47 ∷ 98 ∷ []

skipelem_lem_example : Skipped path (λ k. 0) (skipelem path (λ k. 0))
skipelem_lem_example = skipelem_lem path (λ k. 0)

abbrev no_devices : Devices
no_devices = record { reader = λ i. none; writer = λ i. none }

walk_rounds_example :
    walk no_devices 3 6 true 0 path (λ k. 0) ≡ walk no_devices 3 100 true 0 path (λ k. 0)
walk_rounds_example =
    walk_rounds no_devices 3 6 100 true 0 path (λ k. 0) (omega arith) (omega arith)

-- The elements of `/a//b` are `a` and `b`.
elements-path : elements path ≡ (97 ∷ []) ∷ (98 ∷ []) ∷ []
unfolding elements
elements-path = refl

one_block : IsMapped (ready.content 1) root.addrs 1
one_block = record {
  short_enough = omega arith;
  allocated = λ k h e. ground (arith, h);
  indirect = λ h. absurd (omega arith);
  distinct_blocks = λ k l h m e. omega arith;
  apart = λ k h. absurd (omega arith);
}

-- Two bytes at offset 10 of the root's block.
abbrev rewritten : Fs
rewritten = state_of ready (writei no_devices 0 (5 ∷ 6 ∷ []) 10 ready)

readi-writei_example :
    (◌≡◌ {A = ℕ} 2 2)
    × (readi no_devices 0 10 2 rewritten ≡ ok (some (5 ∷ 6 ∷ []), rewritten))
    × ((x : ℕ)
        → x < 512
        → (x < 10) ⊎ (12 ≤ x)
        → file_byte (rewritten.content 1) root.addrs x ≡ file_byte (ready.content 1) root.addrs x)
    × (rewritten.inodes ≡ ready.inodes)
unfolding iget writei first log_write
readi-writei_example =
    readi-writei no_devices root 0 (5 ∷ 6 ∷ []) 10 1 2 ready rewritten refl (λ e. omega (arith, e))
      (omega arith) one_block (omega arith) refl
