-- ===== src/Vm.antt =====
-- Lab/code/vm.c, with the macros of Lab/code/mmu.h and Lab/code/memlayout.h: page tables in the
-- memory that the page allocator hands out. Addresses are the kernel's: a physical address `p` is
-- read at `P2V(p)`. A null pointer is 0. The fields of a page table entry are divisions by powers
-- of two; a page's address has its 12 low bits 0, so `|` of flags to it is `+`.
pub mod User
use xmu_learning_os.Base.{
  Bool, M, add32, change, false, fill, for_each, get_word, gets, if◌then◌else◌, leb, ltb, minus_one,
  none, not, ok, panic_if, panicking, pure, put_word, some, stopped, sub32, suc, true, when, zero,
  ℕ, ◌%◌, ◌*◌, ◌+◌, ◌-◌, ◌/◌, ◌==◌, ◌>>=◌, ◌>>◌,
}
use xmu_learning_os.Kalloc.{Kmem, kalloc, kernbase, kfree, page_round_up, v2p}
use xmu_learning_os.Proc.Alloc.{pgsize}
use Prim.Native.Nat.{bit_or}

abbrev pub V : Type 0 → Type 0
V A = M Kmem A

-- `P2V`
abbrev pub p2v : ℕ → ℕ
p2v a = add32 a kernbase

abbrev pub page_round_down : ℕ → ℕ
page_round_down a = a / 4096 * 4096

-- `PDX`, `PTX`
abbrev pub pdx : ℕ → ℕ
pdx va = va / 4194304 % 1024

abbrev pub ptx : ℕ → ℕ
ptx va = va / 4096 % 1024

-- `PTE_ADDR`, `PTE_FLAGS` and the tests of `PTE_P` and `PTE_U`
abbrev pub pte_addr : ℕ → ℕ
pte_addr e = e / 4096 * 4096

abbrev pub pte_flags : ℕ → ℕ
pte_flags e = e % 4096

abbrev pub is_present : ℕ → Bool
is_present e = e % 2 == 1

abbrev pub is_user : ℕ → Bool
is_user e = e / 4 % 2 == 1

-- `PTE_W`, and `PTE_W|PTE_U`
abbrev pub pte_w : ℕ
pte_w = 2

abbrev pub pte_wu : ℕ
pte_wu = 6

abbrev pub word_at : ℕ → V ℕ
word_at a = gets λ m. get_word m.memory a

abbrev pub put_word_at : ℕ → ℕ → V (Unit {0})
put_word_at a v = change λ m. record m { memory = put_word m.memory a v }

-- `memset(p, 0, PGSIZE)`
unfoldable pub zero_page : ℕ → V (Unit {0})
zero_page p = change λ m. record m { memory = fill m.memory p 0 pgsize }

unfoldable pub new_page : V ℕ
unfolding kalloc
new_page m = ok (kalloc m)

-- The address of the entry, or null.
unfoldable pub walkpgdir : ℕ → ℕ → Bool → V ℕ
unfolding new_page zero_page
walkpgdir pgdir va alloc = do
  e ← word_at (pgdir + 4 * pdx va)
  elim (is_present e) [
    | true ↦ pure (p2v (pte_addr e) + 4 * ptx va)
    | false ↦ elim alloc [
      | false ↦ pure 0
      | true ↦ (do
        t ← new_page
        elim (t == 0) [
          | true ↦ pure 0
          | false ↦ (do
            zero_page t
            put_word_at (pgdir + 4 * pdx va) (v2p t + 7)
            pure (t + 4 * ptx va))
        ])
    ]
  ]

-- `pa | perm | PTE_P`
abbrev pub pte_of : ℕ → ℕ → ℕ
pte_of pa perm = bit_or (bit_or pa perm) 1

-- The loop of `mappages` from `a` to `last`, with the number of its rounds.
unfoldable pub map_loop : ℕ → ℕ → ℕ → ℕ → ℕ → ℕ → V ℕ
unfolding walkpgdir
map_loop zero pgdir a last pa perm = pure 0
map_loop (suc r) pgdir a last pa perm = do
  pte ← walkpgdir pgdir a true
  elim (pte == 0) [
    | true ↦ pure minus_one
    | false ↦ (do
      e ← word_at pte
      panic_if (is_present e)
      put_word_at pte (pte_of pa perm)
      elim (a == last) [
        | true ↦ pure 0
        | false ↦ map_loop r pgdir (add32 a pgsize) last (add32 pa pgsize) perm
      ])
  ]

unfoldable pub mappages : ℕ → ℕ → ℕ → ℕ → ℕ → V ℕ
unfolding map_loop
mappages pgdir va n pa perm =
    let a = page_round_down va in
    let last = page_round_down (sub32 (add32 va n) 1) in
    map_loop (sub32 last a / pgsize + 1) pgdir a last pa perm

module _ (kernel_end : ℕ) where
  unfoldable pub free_page : ℕ → V (Unit {0})
  unfolding kfree
  free_page v m = elim (kfree kernel_end v m) [ none ↦ stopped panicking | some m' ↦ ok (tt, m') ]

  -- What a round of `deallocuvm` does to a present entry.
  unfoldable pub release_page : ℕ → V (Unit {0})
  unfolding free_page
  release_page pte = do
    e ← word_at pte
    when (is_present e)
        (do panic_if (pte_addr e == 0); free_page (p2v (pte_addr e)); put_word_at pte 0)

  -- The loop of `deallocuvm` from `a` on. Each round passes a page or a whole table, so a round for
  -- each page is enough.
  unfoldable pub dealloc_loop : ℕ → ℕ → ℕ → ℕ → V (Unit {0})
  unfolding walkpgdir release_page
  dealloc_loop zero pgdir a oldsz = pure tt
  dealloc_loop (suc r) pgdir a oldsz = elim (ltb a oldsz) [
    | false ↦ pure tt
    | true ↦ (do
      pte ← walkpgdir pgdir a false
      when (not (pte == 0)) (release_page pte)
      dealloc_loop r pgdir (if pte == 0 then (a / 4194304 + 1) * 4194304 else a + pgsize) oldsz)
  ]

  unfoldable pub deallocuvm : ℕ → ℕ → ℕ → V ℕ
  unfolding dealloc_loop
  deallocuvm pgdir oldsz newsz = elim (leb oldsz newsz) [
    | true ↦ pure oldsz
    | false ↦ (do
      dealloc_loop ((oldsz - page_round_up newsz) / pgsize + 1) pgdir (page_round_up newsz) oldsz
      pure newsz)
  ]

  -- The page table of entry `i`.
  unfoldable pub free_table : ℕ → ℕ → V (Unit {0})
  unfolding free_page
  free_table pgdir i = do
    e ← word_at (pgdir + 4 * i)
    when (is_present e) (free_page (p2v (pte_addr e)))

  unfoldable pub freevm : ℕ → V (Unit {0})
  unfolding deallocuvm free_table free_page for_each
  freevm pgdir = do
    panic_if (pgdir == 0)
    n ← deallocuvm pgdir kernbase 0
    for_each 1024 0 (free_table pgdir)
    free_page pgdir
