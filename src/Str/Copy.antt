-- ===== src/Str/Copy.antt =====
-- What `safestrcpy` leaves: the string up to its NUL, cut to the room that there is.
use xmu_learning_os.Base.{
  Bool-cases, arith, inl, inr, suc, update, zero, ℕ, ◌+◌, ◌<◌, ◌==◌, ◌≡◌, ◌≢◌, ◌≤◌,
}
use xmu_learning_os.Str.{copy_name, safestrcpy}

copy_name_before : (m i : ℕ) (s t : ℕ → ℕ) (k : ℕ) → k < i → copy_name m i s t k ≡ s k
unfolding copy_name
copy_name_before zero i s t k h = ground arith
copy_name_before (suc m) i s t k h =
    ground (arith, copy_name_before m (i + 1) (update s i (t i)) t k)

copy_name_copies :
    (m i : ℕ) (s t : ℕ → ℕ) (k : ℕ)
    → i ≤ k
    → k < i + m
    → ((j : ℕ) → i ≤ j → j < k → t j ≢ 0)
    → copy_name m i s t k ≡ t k
unfolding copy_name
copy_name_copies zero i s t k l h nz = absurd (omega arith)
copy_name_copies (suc m) i s t k l h nz = elim (Bool-cases (i == k)) [
  | inl e ↦ ground (arith, copy_name_before m (i + 1) (update s i (t i)) t k)
  | inr d ↦ ground (
    arith,
    nz i,
    copy_name_copies m (i + 1) (update s i (t i)) t k (ground arith) (omega arith)
        (λ j u v. nz j (omega arith) v),
  )
]

copy_name_ends :
    (m i : ℕ) (s t : ℕ → ℕ)
    → ((j : ℕ) → i ≤ j → j < i + m → t j ≢ 0)
    → copy_name m i s t (i + m) ≡ 0
unfolding copy_name
copy_name_ends zero i s t nz = ground arith
copy_name_ends (suc m) i s t nz =
    let e : i + suc m ≡ i + 1 + m = omega arith in
    let rest =
      copy_name_ends m (i + 1) (update s i (t i)) t (λ j u v. nz j (omega arith) (omega arith)) in
    ground (arith, nz i, rest)

pub safestrcpy-copies :
    (s t : ℕ → ℕ) (k : ℕ) → k < 15 → ((j : ℕ) → j < k → t j ≢ 0) → safestrcpy s t 16 k ≡ t k
unfolding safestrcpy
safestrcpy-copies s t k h nz =
    copy_name_copies 15 0 s t k (omega arith) (omega arith) (λ j u v. nz j v)

pub safestrcpy-ends : (s t : ℕ → ℕ) → ((j : ℕ) → j < 15 → t j ≢ 0) → safestrcpy s t 16 15 ≡ 0
unfolding safestrcpy
safestrcpy-ends s t nz = copy_name_ends 15 0 s t (λ j u v. nz j v)
