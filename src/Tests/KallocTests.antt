-- ===== src/Tests/KallocTests.antt =====
-- The theorems on the page allocator at concrete ranges.
use xmu_learning_os.Base.{[], arith, false, refl, true, ℕ, ◌≡◌}
use xmu_learning_os.Kalloc.{Kmem}
use xmu_learning_os.Kalloc.Lists.{is_listed, is_whole_page}
use xmu_learning_os.Kalloc.Pages.{kinit_lem}

abbrev no_pages : Kmem
no_pages = record { use_lock = 1; memory = λ a. 0; freelist = [] }

-- The kernel ends at 0x80100000.
abbrev kernel_end : ℕ
kernel_end = 0x80100000

-- A page from 0x80100001 up to 0x80102000 for `kinit1`, and the next for `kinit2`.
kinit_lem_example :
    (m2 : Kmem) × (is_listed 0x80102000 m2.freelist ≡ true)
    × (is_listed 0x80103000 m2.freelist ≡ false)
unfolding is_whole_page
kinit_lem_example =
    let t =
      kinit_lem kernel_end 0x80100001 0x80102000 0x80102000 0x80103000 no_pages (omega arith)
        (omega arith) (omega arith) (omega arith) (omega arith) (omega arith) (omega arith)
        (omega arith) refl in
    (t.1, t.4 0x80102000, t.4 0x80103000)
