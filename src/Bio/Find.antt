-- ===== src/Bio/Find.antt =====
-- The two searches of Lab/code/bio.c over the list of buffers, and the list's members.
use xmu_learning_os.Base.{
  Bool, Bool-cases, List, Option-cases, [], arith, false, if◌then◌else◌, inl, inr, none, refl, some,
  true, ℕ, ◌==◌, ◌∷◌, ◌≡◌, ◌≢◌,
}
use xmu_learning_os.Bio.{find_next, find_prev, unlink}

unfoldable pub is_in : ℕ → List ℕ → Bool
is_in b [] = false
is_in b (c ∷ bs) = let rest = is_in b bs in if c == b then true else rest

-- No buffer stands in the list twice.
unfoldable pub distinct : List ℕ → Bool
unfolding is_in
distinct [] = true
distinct (b ∷ bs) = let rest = distinct bs in if is_in b bs then false else rest

module _ (p : ℕ → Bool) where
  -- `find_next` finds a member that passes the test.
  pub find_next-some :
      (bs : List ℕ) (i : ℕ) → find_next p bs ≡ some i → (p i ≡ true) × (is_in i bs ≡ true)
  unfolding find_next is_in
  find_next-some [] i e = ground arith
  find_next-some (b ∷ bs) i e = ground (arith, find_next-some bs i)

  -- It finds nothing only where no member passes.
  pub find_next-none :
      (bs : List ℕ) (i : ℕ) → find_next p bs ≡ none → is_in i bs ≡ true → p i ≡ false
  unfolding find_next is_in
  find_next-none [] i e h = ground arith
  find_next-none (b ∷ bs) i e h = elim (Bool-cases (b == i)) [
    | inl s ↦ ground arith
    | inr d ↦ ground (arith, find_next-none bs i)
  ]

  -- The same of `find_prev`.
  pub find_prev-some :
      (bs : List ℕ) (i : ℕ) → find_prev p bs ≡ some i → (p i ≡ true) × (is_in i bs ≡ true)
  unfolding find_prev is_in
  find_prev-some [] i e = ground arith
  find_prev-some (b ∷ bs) i e = elim (Option-cases (find_prev p bs)) [
    | inl n ↦ ground arith
    | inr (j, s) ↦ ground (arith, find_prev-some bs j s)
  ]

  pub find_prev-none :
      (bs : List ℕ) (i : ℕ) → find_prev p bs ≡ none → is_in i bs ≡ true → p i ≡ false
  unfolding find_prev is_in
  find_prev-none [] i e h = ground arith
  find_prev-none (b ∷ bs) i e h = elim (Option-cases (find_prev p bs)) [
    | inl n ↦ elim (Bool-cases (b == i)) [
      | inl s ↦ ground arith
      | inr d ↦ ground (arith, find_prev-none bs i)
    ]
    | inr (j, s) ↦ ground arith
  ]

-- Unlinking a buffer takes it, and no other, out of a list without duplicates.
pub is_in-unlink_other : (b x : ℕ) (bs : List ℕ) → x ≢ b → is_in x (unlink b bs) ≡ is_in x bs
unfolding is_in unlink
is_in-unlink_other b x [] h = refl
is_in-unlink_other b x (c ∷ bs) h = ground (arith, is_in-unlink_other b x bs h)

pub is_in-unlink : (b : ℕ) (bs : List ℕ) → distinct bs ≡ true → is_in b (unlink b bs) ≡ false
unfolding is_in unlink distinct
is_in-unlink b [] h = refl
is_in-unlink b (c ∷ bs) h = ground (arith, is_in-unlink b bs)

pub distinct-unlink : (b : ℕ) (bs : List ℕ) → distinct bs ≡ true → distinct (unlink b bs) ≡ true
unfolding unlink distinct
distinct-unlink b [] h = refl
distinct-unlink b (c ∷ bs) h = elim (Bool-cases (c == b)) [
  | inl s ↦ ground arith
  | inr d ↦ ground (arith, distinct-unlink b bs, is_in-unlink_other b c bs)
]
