-- ===== src/Vm/User.antt =====
-- Lab/code/vm.c: address spaces: `setupkvm`, `inituvm`, `allocuvm`, `clearpteu`, `copyuvm`,
-- `uva2ka`, `copyout`. `kernel_end` and `kernel_data` are the linker's symbols `end` and `data`.
use xmu_learning_os.Base.{
  Bool, List, [], change, copy, drop, false, if◌then◌else◌, leb, length, ltb, minus_one, not,
  panic_if, pure, put_bytes, slt, sub32, suc, take, true, zero, ℕ, ◌&&◌, ◌+◌, ◌-◌, ◌/◌, ◌==◌, ◌>>=◌,
  ◌>>◌, ◌∷◌,
}
use xmu_learning_os.Kalloc.{kernbase, page_round_up, phystop, v2p}
use xmu_learning_os.Proc.Alloc.{pgsize}
use xmu_learning_os.Vm.{
  V, deallocuvm, free_page, freevm, is_present, is_user, mappages, new_page, p2v, page_round_down,
  pte_addr, pte_flags, pte_w, pte_wu, put_word_at, walkpgdir, word_at, zero_page,
}

-- `struct kmap`
pub record Kmap : Type 0 where
  pub virt : ℕ
  pub phys_start : ℕ
  pub phys_end : ℕ
  pub perm : ℕ

abbrev pub devspace : ℕ
devspace = 0xFE000000

abbrev pub extmem : ℕ
extmem = 0x100000

abbrev pub kmap : ℕ → List Kmap
kmap kernel_data =
    record { virt = kernbase; phys_start = 0; phys_end = extmem; perm = pte_w }
    ∷ record { virt = kernbase + extmem; phys_start = extmem; phys_end = v2p kernel_data; perm = 0 }
    ∷ record { virt = kernel_data; phys_start = v2p kernel_data; phys_end = phystop; perm = pte_w }
    ∷ record { virt = devspace; phys_start = devspace; phys_end = 0; perm = pte_w }
    ∷ []

-- The loop over `kmap`: whether every range is mapped.
unfoldable pub map_kernel : ℕ → List Kmap → V Bool
unfolding mappages
map_kernel pgdir [] = pure true
map_kernel pgdir (k ∷ ks) = do
  r ← mappages pgdir k.virt (sub32 k.phys_end k.phys_start) k.phys_start k.perm
  elim (slt r 0) [ true ↦ pure false | false ↦ map_kernel pgdir ks ]

module _ (kernel_end kernel_data : ℕ) where
  unfoldable pub setupkvm : V ℕ
  unfolding new_page zero_page map_kernel freevm
  setupkvm = do
    pgdir ← new_page
    elim (pgdir == 0) [
      | true ↦ pure 0
      | false ↦ (do
        zero_page pgdir
        panic_if (ltb devspace (p2v phystop))
        all ← map_kernel pgdir (kmap kernel_data)
        elim all [ true ↦ pure pgdir | false ↦ (do freevm kernel_end pgdir; pure 0) ])
    ]

  -- `inituvm` does not look at what `kalloc` and `mappages` return.
  unfoldable pub inituvm : ℕ → List ℕ → V (Unit {0})
  unfolding new_page zero_page mappages
  inituvm pgdir init = do
    panic_if (leb pgsize (length init))
    p ← new_page
    zero_page p
    r ← mappages pgdir 0 pgsize (v2p p) pte_wu
    change (λ m. record m { memory = put_bytes m.memory p init })

  -- The loop of `allocuvm` over the pages from `a` on, and its result.
  unfoldable pub alloc_loop : ℕ → ℕ → ℕ → ℕ → ℕ → V ℕ
  unfolding new_page zero_page mappages deallocuvm free_page
  alloc_loop zero pgdir a oldsz newsz = pure newsz
  alloc_loop (suc r) pgdir a oldsz newsz = do
    p ← new_page
    elim (p == 0) [
      | true ↦ (do n ← deallocuvm kernel_end pgdir newsz oldsz; pure 0)
      | false ↦ (do
        zero_page p
        e ← mappages pgdir a pgsize (v2p p) pte_wu
        elim (slt e 0) [
          | true ↦ (do n ← deallocuvm kernel_end pgdir newsz oldsz; free_page kernel_end p; pure 0)
          | false ↦ alloc_loop r pgdir (a + pgsize) oldsz newsz
        ])
    ]

  unfoldable pub allocuvm : ℕ → ℕ → ℕ → V ℕ
  unfolding alloc_loop
  allocuvm pgdir oldsz newsz = elim (leb kernbase newsz) [
    | true ↦ pure 0
    | false ↦ elim (ltb newsz oldsz) [
      | true ↦ pure oldsz
      | false ↦
          let a = page_round_up oldsz in
          alloc_loop ((newsz - a + (pgsize - 1)) / pgsize) pgdir a oldsz newsz
    ]
  ]

  -- One page of `copyuvm`: whether it is copied.
  unfoldable pub copy_page : ℕ → ℕ → ℕ → V Bool
  unfolding walkpgdir new_page mappages copy
  copy_page pgdir d i = do
    pte ← walkpgdir pgdir i false
    panic_if (pte == 0)
    e ← word_at pte
    panic_if (not (is_present e))
    p ← new_page
    elim (p == 0) [
      | true ↦ pure false
      | false ↦ (do
        change (λ m. record m { memory = copy m.memory p m.memory (p2v (pte_addr e)) pgsize })
        r ← mappages d i pgsize (v2p p) (pte_flags e)
        pure (not (slt r 0)))
    ]

  -- The loop of `copyuvm`, with the number of its rounds.
  unfoldable pub copy_loop : ℕ → ℕ → ℕ → ℕ → V ℕ
  unfolding copy_page freevm
  copy_loop zero pgdir d i = pure d
  copy_loop (suc r) pgdir d i = do
    good ← copy_page pgdir d i
    elim good [ true ↦ copy_loop r pgdir d (i + pgsize) | false ↦ (do freevm kernel_end d; pure 0) ]

  unfoldable pub copyuvm : ℕ → ℕ → V ℕ
  unfolding setupkvm copy_loop
  copyuvm pgdir sz = do
    d ← setupkvm
    elim (d == 0) [ true ↦ pure 0 | false ↦ copy_loop ((sz + (pgsize - 1)) / pgsize) pgdir d 0 ]

unfoldable pub clearpteu : ℕ → ℕ → V (Unit {0})
unfolding walkpgdir
clearpteu pgdir va = do
  pte ← walkpgdir pgdir va false
  panic_if (pte == 0)
  e ← word_at pte
  put_word_at pte (if is_user e then e - 4 else e)

-- A null `pte` is not looked at: the word at address 0 is read.
unfoldable pub uva2ka : ℕ → ℕ → V ℕ
unfolding walkpgdir
uva2ka pgdir va = do
  pte ← walkpgdir pgdir va false
  e ← word_at pte
  pure (if is_present e && is_user e then p2v (pte_addr e) else 0)

-- The loop of `copyout` over the bytes that are left. Each round takes a byte or more.
unfoldable pub copyout_loop : ℕ → ℕ → ℕ → List ℕ → V ℕ
unfolding uva2ka
copyout_loop zero pgdir va cs = pure 0
copyout_loop (suc r) pgdir va cs = elim (length cs == 0) [
  | true ↦ pure 0
  | false ↦ (do
    let va0 = page_round_down va
    pa0 ← uva2ka pgdir va0
    elim (pa0 == 0) [
      | true ↦ pure minus_one
      | false ↦ (do
        let room = pgsize - (va - va0)
        change (λ m. record m { memory = put_bytes m.memory (pa0 + (va - va0)) (take room cs) })
        copyout_loop r pgdir (va0 + pgsize) (drop room cs))
    ])
]

unfoldable pub copyout : ℕ → ℕ → List ℕ → V ℕ
unfolding copyout_loop
copyout pgdir va cs = copyout_loop (length cs) pgdir va cs
