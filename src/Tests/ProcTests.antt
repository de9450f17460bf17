-- ===== src/Tests/ProcTests.antt =====
-- The theorems on processes at concrete kernels.
use xmu_learning_os.Base.{arith, false, first, minus_one, refl, some, take, ℕ, ◌<◌, ◌≡◌}
use xmu_learning_os.Proc.{embryo, nproc}
use xmu_learning_os.Proc.Alloc.{alloc_stack, allocproc, fork}
use xmu_learning_os.Proc.Create.{allocproc-none, allocproc-some}
use xmu_learning_os.Proc.Exit.{become_zombie, drop_files, exit}
use xmu_learning_os.Proc.Fork.{fork-child, fork-fails}
use xmu_learning_os.Proc.Listing.{getptable_lem, used_from}
use xmu_learning_os.Proc.Pids.{Numbered}
use xmu_learning_os.Proc.Reap.{kill-zero_marks_unused, wait_round-fails, wait_round-returns}
use xmu_learning_os.Proc.Sleep.{kill, kill_proc}
use xmu_learning_os.Proc.System.{Reach-NoLostExit, exits, forks, here, next}
use xmu_learning_os.Proc.Table.{getptable}
use xmu_learning_os.Proc.Unique.{Reach-Numbered}
use xmu_learning_os.Proc.Wait.{no_zombie, scan, wait_round}
use xmu_learning_os.Proc.Waiting.{NoLostExit}
use xmu_learning_os.Samples.{alone, bereft, family, plain}

poke : ℕ → ℕ → ℕ → ℕ
poke a v n = n

family-NoLostExit : NoLostExit false family
family-NoLostExit i j hi hj s c p m = ground arith

Reach-NoLostExit_example : NoLostExit false (become_zombie plain 1 (drop_files plain 1 family))
unfolding exit
Reach-NoLostExit_example =
    Reach-NoLostExit plain 0 poke false {k = family} family-NoLostExit
      (next here (exits 1 (omega arith, refl) (λ e. ground arith) refl))

alone-Numbered : Numbered alone
alone-Numbered = (λ i l u. ground arith, λ i j l m u v e. ground arith)

Reach-Numbered_example : Numbered (fork plain 99 0 alone).1
Reach-Numbered_example =
    Reach-Numbered plain 99 poke false {k = alone} (next here (forks 0 (omega arith, refl)))
      (omega arith) alone-Numbered

allocproc-some_example :
    let k' = (allocproc plain 99 alone).1 in ((k'.procs 1).pid ≡ 2) × ((k'.procs 1).state ≡ embryo)
unfolding allocproc alloc_stack first
allocproc-some_example = let r = allocproc-some plain 99 alone 1 refl in (r.4, r.3)

allocproc-none_example : (allocproc plain 99 (record alone { sv = 8 })).1.procs 0 ≡ alone.procs 0
unfolding allocproc alloc_stack first
allocproc-none_example = (allocproc-none plain 99 (record alone { sv = 8 }) refl).1 0 refl

fork-child_example : let r = fork plain 99 0 alone in (r.0 ≡ 2) × ((r.1.procs 1).parent ≡ some 0)
unfolding allocproc alloc_stack first
fork-child_example =
    let r = fork-child plain 99 0 1 alone refl refl (λ e. ground arith) in (r.1, r.4)

fork-fails_example : (fork plain 99 0 (record alone { sv = 8 })).0 ≡ minus_one
unfolding allocproc alloc_stack first
fork-fails_example = (fork-fails plain 99 0 (record alone { sv = 8 }) refl (λ i e. cc)).0

wait_round-returns_example : (i : ℕ) × (i < nproc) × ((bereft.procs i).pid ≡ 2)
unfolding wait_round scan
wait_round-returns_example = let r = wait_round-returns plain 0 2 bereft refl in (r.0, r.1, r.4)

no_child_test : (wait_round plain 0 alone).1 ≡ alone
unfolding wait_round scan no_zombie
no_child_test = (wait_round-fails plain 0 alone refl).0

kill-zero_marks_unused_example : ((allocproc plain 99 (kill 0 alone).1).1.procs 1).killed ≡ 1
unfolding allocproc alloc_stack first kill kill_proc
kill-zero_marks_unused_example =
    (kill-zero_marks_unused plain 99 alone (kill 0 alone).1 1 (omega arith) refl refl
      (λ j l. ground arith) refl refl).2

-- A buffer for two entries, and the init process with its child.
getptable_lem_example : getptable 2 104 4096 family ≡ some (take 1 (used_from family.procs nproc 0))
getptable_lem_example =
    getptable_lem 2 4096 family (omega arith) (omega arith) (λ e. absurd (omega arith))
