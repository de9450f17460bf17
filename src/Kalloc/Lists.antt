-- ===== src/Kalloc/Lists.antt =====
-- Lists of pages, and the pages of a range, for Lab/code/kalloc.c.
use xmu_learning_os.Base.{
  Bool, Bool-cases, List, [], arith, false, inl, inr, leb, ltb, refl, suc, true, ℕ, ◌%◌, ◌&&◌, ◌*◌,
  ◌+◌, ◌-◌, ◌/◌, ◌==◌, ◌^◌, ◌||◌, ◌∷◌, ◌≡◌, ◌≤◌, ◌⊎◌,
}
use xmu_learning_os.Kalloc.{page_round_up}
use xmu_learning_os.Proc.Alloc.{pgsize}

unfoldable pub is_listed : ℕ → List ℕ → Bool
is_listed v [] = false
is_listed v (p ∷ ps) = (p == v) || is_listed v ps

-- Every page of the list is below `b`.
unfoldable pub bounded : ℕ → List ℕ → Bool
bounded b [] = true
bounded b (p ∷ ps) = ltb p b && bounded b ps

-- Each page of the list is above the ones after it, so none stands there twice.
unfoldable pub descending : List ℕ → Bool
unfolding bounded
descending [] = true
descending (p ∷ ps) = bounded p ps && descending ps

-- A page that lies in the range from `a` to `b` as a whole.
unfoldable pub is_whole_page : ℕ → ℕ → ℕ → Bool
is_whole_page a b v = (v % 4096 == 0) && leb a v && leb (v + 4096) b

pub bounded_more : (b c : ℕ) (ps : List ℕ) → b ≤ c → bounded b ps ≡ true → bounded c ps ≡ true
unfolding bounded
bounded_more b c [] h e = refl
bounded_more b c (p ∷ ps) h e = ground (arith, bounded_more b c ps h)

pub one_more :
    (n p v : ℕ) (ps : List ℕ)
    → p % 4096 ≡ 0
    → (((v % 4096 == 0) && leb (p + 4096) v && ltb v (p + 4096 + n * 4096)) || is_listed v (p ∷ ps))
      ≡ (((v % 4096 == 0) && leb p v && ltb v (p + suc n * 4096)) || is_listed v ps)
unfolding is_listed
one_more n p v ps z = elim (Bool-cases (p == v)) [ inl e ↦ ground arith | inr d ↦ ground arith ]

pub whole :
    (a b v : ℕ)
    → a + 4096 ≤ 2 ^ 32
    → let p = page_round_up a in
      ((v % 4096 == 0) && leb p v && ltb v (p + (b - p) / pgsize * 4096)) ≡ is_whole_page a b v
unfolding is_whole_page
whole a b v h = ground arith

pub fit : (p b top : ℕ) → b ≤ top → ((b - p) / pgsize ≡ 0) ⊎ (p + (b - p) / pgsize * 4096 ≤ top)
fit p b top h = elim (Bool-cases (leb p b)) [
  | inl l ↦ inr (ground arith)
  | inr n ↦ inl (ground arith)
]
