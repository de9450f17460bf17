-- ===== src/Kalloc.antt =====
-- Lab/code/kalloc.c: the free list of pages. A page is its address; `freelist` is what one meets
-- from `kmem.freelist` along `next`, which is the first word of each free page. `last` is the
-- symbol `end`, which the linker script sets.
pub mod Lists
pub mod Pages
use xmu_learning_os.Base.{
  Bool, List, Option, [], add32, if◌then◌else◌, leb, ltb, none, not, some, sub32, suc, zero, ℕ, ◌%◌,
  ◌&&◌, ◌*◌, ◌+◌, ◌-◌, ◌/◌, ◌==◌, ◌||◌, ◌∷◌,
}
use xmu_learning_os.Proc.Alloc.{pgsize}

abbrev pub kernbase : ℕ
kernbase = 0x80000000

abbrev pub phystop : ℕ
phystop = 0xE000000

-- `V2P`, on 32-bit words
abbrev pub v2p : ℕ → ℕ
v2p a = sub32 a kernbase

-- The bytes by address, but for the links in the first word of each free page, and the list.
pub record Kmem : Type 0 where
  pub use_lock : ℕ
  pub memory : ℕ → ℕ
  pub freelist : List ℕ

-- `memset(v, 1, PGSIZE)`
unfoldable pub fill_junk : ℕ → Kmem → Kmem
fill_junk v m = record m { memory = λ a. if leb v a && ltb a (v + pgsize) then 1 else m.memory a }

-- The test that makes `kfree` panic.
abbrev pub is_bad_page : ℕ → ℕ → Bool
is_bad_page last v = not (v % pgsize == 0) || ltb v last || leb phystop (v2p v)

-- `none` is the panic.
unfoldable pub kfree : ℕ → ℕ → Kmem → Option Kmem
unfolding fill_junk
kfree last v m =
    let j = fill_junk v m in
    if is_bad_page last v then none else some (record j { freelist = v ∷ j.freelist })

-- The null pointer where no page is free.
unfoldable pub kalloc : Kmem → ℕ × Kmem
kalloc m = elim (m.freelist) [ [] ↦ (0, m) | v ∷ vs ↦ (v, record m { freelist = vs }) ]

-- `PGROUNDUP`
abbrev pub page_round_up : ℕ → ℕ
page_round_up a = add32 a (pgsize - 1) / pgsize * pgsize

-- The loop of `freerange` over `n` pages from `p` on, and its number of rounds where no address
-- wraps.
unfoldable pub free_pages : ℕ → ℕ → ℕ → Kmem → Option Kmem
free_pages last zero p m = some m
free_pages last (suc n) p m = elim (kfree last p m) [
  | none ↦ none
  | some m' ↦ free_pages last n (p + pgsize) m'
]

unfoldable pub freerange : ℕ → ℕ → ℕ → Kmem → Option Kmem
freerange last start stop m =
    let p = page_round_up start in free_pages last ((stop - p) / pgsize) p m

unfoldable pub kinit1 : ℕ → ℕ → ℕ → Kmem → Option Kmem
kinit1 last start stop m = freerange last start stop (record m { use_lock = 0 })

unfoldable pub kinit2 : ℕ → ℕ → ℕ → Kmem → Option Kmem
kinit2 last start stop m = elim (freerange last start stop m) [
  | none ↦ none
  | some m' ↦ some (record m' { use_lock = 1 })
]
