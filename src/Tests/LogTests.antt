-- ===== src/Tests/LogTests.antt =====
-- The theorems on the log at concrete disks.
use xmu_learning_os.Base.{arith, refl, update, ◌⊎◌}
use xmu_learning_os.Log.{Log, Store}
use xmu_learning_os.Log.Atomic.{Done, Undone, commit_atomic}
use xmu_learning_os.Log.Recovery.{IsPlaced}

abbrev one_entry : Log
one_entry = record { start = 2; size = 31; outstanding = 0; committing = 0; n = 1; block = λ i. 50 }

-- Block 50 is changed in the cache; the power fails after two writes.
abbrev dirty : Store
dirty = record { seen = update (λ b i. 0) 50 (λ i. 9); disk = λ b i. 0; power = 2 }

one_entry-IsPlaced : IsPlaced one_entry.start one_entry.n one_entry.block
one_entry-IsPlaced i h = (λ e. omega arith, λ j d e. omega arith, λ j d e. omega arith)

commit_atomic_example :
    Undone one_entry dirty 9 (omega arith) one_entry-IsPlaced
    ⊎ Done one_entry dirty 9 (omega arith) one_entry-IsPlaced
commit_atomic_example =
    commit_atomic one_entry dirty 9 (omega arith) one_entry-IsPlaced refl (omega arith)

abbrev empty_log : Log
empty_log = record one_entry { n = 0 }
