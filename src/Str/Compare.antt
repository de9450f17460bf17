-- ===== src/Str/Compare.antt =====
-- What `strncmp` and `memcmp` of Lab/code/string.c compare.
use xmu_learning_os.Base.{
  Bool-cases, arith, inl, inr, some, suc, zero, ℕ, ◌+◌, ◌<◌, ◌==◌, ◌≡◌, ◌≢◌, ◌≤◌,
}
use xmu_learning_os.Str.{strlen_from, strncmp, strncmp_from}
use mathlib.Core.Path.{subst}

strncmp_from_agree :
    (n i : ℕ) (p q : ℕ → ℕ) (k : ℕ)
    → ((j : ℕ) → p j < 256)
    → ((j : ℕ) → q j < 256)
    → strncmp_from n i p q ≡ 0
    → i ≤ k
    → k < i + n
    → ((j : ℕ) → i ≤ j → j < k → p j ≢ 0)
    → p k ≡ q k
unfolding strncmp_from
strncmp_from_agree zero i p q k bp bq e h l z = absurd (omega arith)
strncmp_from_agree (suc n) i p q k bp bq e h l z =
    let same : p i ≡ q i = ground (arith, bp i, bq i) in
    elim (Bool-cases (i == k)) [
      | inl s ↦ (let t : i ≡ k = ground arith in subst (λ x. p x ≡ q x) t same)
      | inr d ↦
          (let lt : i < k = ground arith in
            let nz = z i (omega arith) lt in
            strncmp_from_agree n (i + 1) p q k bp bq (ground (arith, nz)) (omega arith)
              (omega arith) (λ j a b. z j (omega (arith, a)) b))
    ]

-- Where `strncmp` on bytes returns 0, the strings agree at every offset below `n` before which the
-- first string has no NUL.
pub strncmp_lem :
    (p q : ℕ → ℕ) (n k : ℕ)
    → ((j : ℕ) → p j < 256)
    → ((j : ℕ) → q j < 256)
    → strncmp p q n ≡ 0
    → k < n
    → ((j : ℕ) → j < k → p j ≢ 0)
    → p k ≡ q k
unfolding strncmp
strncmp_lem p q n k bp bq e l z =
    strncmp_from_agree n 0 p q k bp bq e (omega arith) (omega arith) (λ j a b. z j b)

-- With enough fuel, `strlen` is the place of the first NUL.
strlen_from_lem :
    (fuel n z : ℕ) (s : ℕ → ℕ)
    → n ≤ z
    → z < n + fuel
    → s z ≡ 0
    → ((j : ℕ) → n ≤ j → j < z → s j ≢ 0)
    → strlen_from fuel n s ≡ some z
unfolding strlen_from
strlen_from_lem zero n z s l h e nz = absurd (omega arith)
strlen_from_lem (suc fuel) n z s l h e nz = elim (Bool-cases (n == z)) [
  | inl q ↦ ground arith
  | inr q ↦ ground (
    arith,
    nz n,
    strlen_from_lem fuel (n + 1) z s (ground arith) (omega arith) e (λ j u v. nz j (omega arith) v),
  )
]
