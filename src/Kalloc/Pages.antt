-- ===== src/Kalloc/Pages.antt =====
-- What the allocator of Lab/code/kalloc.c hands out.
use xmu_learning_os.Base.{
  Bool-cases, List, [], ap, arith, false, inl, inr, leb, ltb, none, refl, some, some_inj, suc, sym,
  true, zero, ℕ, ◌%◌, ◌&&◌, ◌*◌, ◌+◌, ◌-◌, ◌/◌, ◌<◌, ◌==◌, ◌^◌, ◌||◌, ◌∙◌, ◌∷◌, ◌≡◌, ◌≤◌, ◌⊎◌,
}
use xmu_learning_os.Kalloc.{
  Kmem, fill_junk, free_pages, freerange, is_bad_page, kalloc, kfree, kinit1, kinit2, page_round_up,
}
use xmu_learning_os.Kalloc.Lists.{
  bounded, bounded_more, descending, fit, is_listed, is_whole_page, one_more, whole,
}
use xmu_learning_os.Proc.Alloc.{pgsize}

-- A page from the kernel's end up to the top of memory, by its 32-bit address.
abbrev pub IsPage : ℕ → ℕ → Type 0
IsPage last v = (v % 4096 ≡ 0) × (last ≤ v) × ((v + 0x80000000) % 2 ^ 32 < 0xE000000)

kfree_guard : (last v : ℕ) (m : Kmem) → v < 2 ^ 32 → ¬ IsPage last v → kfree last v m ≡ none
unfolding kfree
kfree_guard last v m h n = ground arith

good_page :
    (last v : ℕ)
    → 0x80000000 ≤ last
    → last ≤ v
    → v % 4096 ≡ 0
    → v + 4096 ≤ 0x8E000000
    → is_bad_page last v ≡ false
good_page last v k l z h = ground arith

kfree_good :
    (last v : ℕ) (m : Kmem)
    → is_bad_page last v ≡ false
    → kfree last v m ≡ some (record (fill_junk v m) { freelist = v ∷ m.freelist })
unfolding kfree fill_junk
kfree_good last v m g = rw (g)

kfree_bad : (last v : ℕ) (m : Kmem) → is_bad_page last v ≡ true → kfree last v m ≡ none
unfolding kfree
kfree_bad last v m g = rw (g)

kfree-some :
    (last v : ℕ) (m m' : Kmem)
    → kfree last v m ≡ some m'
    → (is_bad_page last v ≡ false) × (m'.freelist ≡ v ∷ m.freelist)
kfree-some last v m m' e = elim (Bool-cases (is_bad_page last v)) [
  | inl b ↦ absurd (let f = kfree_bad last v m b in ground arith)
  | inr g ↦ (g, sym (ap (λ x. x.freelist) (some_inj (sym (kfree_good last v m g) ∙ e))))
]

kalloc_empty : (m : Kmem) → m.freelist ≡ [] → kalloc m ≡ (0, m)
unfolding kalloc
kalloc_empty m e = ground (arith, e)

kalloc_taken :
    (m : Kmem) (v : ℕ) (vs : List ℕ)
    → m.freelist ≡ v ∷ vs
    → kalloc m ≡ (v, record m { freelist = vs })
unfolding kalloc
kalloc_taken m v vs e = ground (arith, e)

-- A page that is freed is the next that is allocated, and the list is then what it was.
kalloc-kfree :
    (last v : ℕ) (m m' : Kmem)
    → kfree last v m ≡ some m'
    → ((kalloc m').0 ≡ v) × ((kalloc m').1.freelist ≡ m.freelist)
kalloc-kfree last v m m' e =
    let (g, l) = kfree-some last v m m' e in
    let t = kalloc_taken m' v m.freelist l in (ap (λ x. x.0) t, ap (λ x. x.1.freelist) t)

-- `free_pages` frees `n` pages and ends, and the list has them before what it had.
unfoldable Freed : ℕ → ℕ → Kmem → Kmem → Type 0
unfolding is_listed bounded descending
Freed n p m m' =
    ((v : ℕ)
      → is_listed v m'.freelist
        ≡ ((v % 4096 == 0) && leb p v && ltb v (p + n * 4096)) || is_listed v m.freelist)
    × ((b : ℕ)
        → bounded b m.freelist ≡ true
        → (n ≡ 0) ⊎ (p + n * 4096 ≤ b)
        → bounded b m'.freelist ≡ true)
    × (bounded p m.freelist ≡ true → descending m.freelist ≡ true → descending m'.freelist ≡ true)

free_pages_lem :
    (last n p : ℕ) (m : Kmem)
    → 0x80000000 ≤ last
    → last ≤ p
    → p % 4096 ≡ 0
    → (n ≡ 0) ⊎ (p + n * 4096 ≤ 0x8E000000)
    → (m' : Kmem) × (free_pages last n p m ≡ some m') × Freed n p m m'
unfolding free_pages Freed is_listed bounded descending fill_junk
free_pages_lem last zero p m k l z h = (m, refl, (λ v. ground arith, λ b e o. e, λ b e. e))
free_pages_lem last (suc n) p m k l z h =
    let m1 : Kmem = record (fill_junk p m) { freelist = p ∷ m.freelist } in
    let freed = kfree_good last p m (good_page last p k l z (ground arith)) in
    let (m2, e, (listed, small, order)) =
      free_pages_lem last n (p + pgsize) m1 k (omega arith) (omega arith) (ground arith) in
    (
      m2,
      rw (freed, free_pages) e,
      (
        λ v. listed v ∙ one_more n p v m.freelist z,
        λ b c o. small b (ground arith) (ground arith),
        λ c o. order (ground (arith, bounded_more p (p + 4096) m.freelist)) (ground arith),
      ),
    )

freerange_lem :
    (last a b : ℕ) (m : Kmem)
    → 0x80000000 ≤ last
    → last ≤ a
    → a + 4096 ≤ 2 ^ 32
    → b ≤ 0x8E000000
    → (m' : Kmem) × (freerange last a b m ≡ some m')
      × ((v : ℕ) → is_listed v m'.freelist ≡ is_whole_page a b v || is_listed v m.freelist)
      × (bounded b m.freelist ≡ true → bounded b m'.freelist ≡ true)
      × (bounded a m.freelist ≡ true → descending m.freelist ≡ true → descending m'.freelist ≡ true)
unfolding freerange Freed
freerange_lem last a b m k l h t =
    let p = page_round_up a in
    let (m', e, (listed, small, order)) =
      free_pages_lem last ((b - p) / pgsize) p m k (omega arith) (omega arith)
        (fit p b 0x8E000000 t) in
    (
      m',
      e,
      λ v. listed v ∙ ap (λ x. x || is_listed v m.freelist) (whole a b v h),
      λ c. small b c (fit p b b (omega arith)),
      λ c o. order (bounded_more a p m.freelist (omega arith) c) o,
    )

kinit2_done :
    (last c d : ℕ) (m k : Kmem)
    → freerange last c d m ≡ some k
    → kinit2 last c d m ≡ some (record k { use_lock = 1 })
unfolding kinit2
kinit2_done last c d m k e = rw (kinit2, e)

-- `kinit1` and `kinit2` on two ranges above the kernel's end and below the top of memory, the second
-- not below the first, do not panic. The list then has exactly the pages that lie in one of the
-- ranges as a whole, each once, and the lock is in use. `kfree` panics on every address that is no
-- page.
pub kinit_lem :
    (last a b c d : ℕ) (m : Kmem)
    → 0x80000000 ≤ last
    → last ≤ a
    → a + 4096 ≤ 2 ^ 32
    → b ≤ c
    → last ≤ c
    → c + 4096 ≤ 2 ^ 32
    → b ≤ 0x8E000000
    → d ≤ 0x8E000000
    → m.freelist ≡ []
    → (m1 : Kmem) × (m2 : Kmem) × (kinit1 last a b m ≡ some m1)
      × (kinit2 last c d m1 ≡ some m2)
      × ((v : ℕ) → is_listed v m2.freelist ≡ is_whole_page c d v || is_whole_page a b v)
      × (descending m2.freelist ≡ true)
      × (m2.use_lock ≡ 1)
      × ((v : ℕ) → v < 2 ^ 32 → ¬ IsPage last v → kfree last v m2 ≡ none)
unfolding kinit1 is_listed bounded descending
kinit_lem last a b c d m k l h o l2 h2 t t2 z =
    let start : Kmem = record m { use_lock = 0 } in
    let (m1, e1, listed1, below1, order1) = freerange_lem last a b start k l h t in
    let (m2, e2, listed2, below2, order2) = freerange_lem last c d m1 k l2 h2 t2 in
    let end : Kmem = record m2 { use_lock = 1 } in
    let small : bounded b m1.freelist ≡ true = below1 (rw z refl) in
    (
      m1,
      end,
      e1,
      kinit2_done last c d m1 m2 e2,
      λ v.
          listed2 v
          ∙ ap (λ x. is_whole_page c d v || x) (listed1 v ∙ ground (arith, ap (is_listed v) z)),
      order2 (bounded_more b c m1.freelist o small) (order1 (rw z refl) (rw z refl)),
      refl,
      λ v u n. kfree_guard last v end u n,
    )
