-- ===== src/Proc/Listing.antt =====
-- What `getptable` returns.
use xmu_learning_os.Base.{
  Bool, List, [], add32, ap, arith, false, if_both, if◌then◌else◌, ltb, refl, slt, some, suc, sym,
  take, true, zero, ℕ, ◌&&◌, ◌*◌, ◌+◌, ◌-◌, ◌<◌, ◌==◌, ◌∙◌, ◌∷◌, ◌≡◌, ◌≢◌, ◌≤◌,
}
use xmu_learning_os.Proc.{Kernel, Proc, is_unused, nproc}
use xmu_learning_os.Proc.Table.{Entry, entry_of, entry_size, getptable, table_from}

-- The entries of the processes in use, of the `r` processes from `p` on.
abbrev pub used_from : (ℕ → Proc) → ℕ → ℕ → List Entry
used_from t zero p = []
used_from t (suc r) p =
    let rest = used_from t r (p + 1) in
    if is_unused (t p).state then rest else entry_of t (t p) ∷ rest

below : (a b : ℕ) → ltb a b ≡ true → a < b
below a b e = ground arith

not_below : (a b : ℕ) → ltb a b ≡ false → b ≤ a
not_below a b e = ground arith

-- While an entry fits that is not the last one.
room :
    (n i : ℕ)
    → n ≤ 64
    → i < n
    → (slt i n && slt (add32 (entry_size * i) entry_size) (entry_size * n)) ≡ ltb (i + 1) n
room n i h l = ground arith

take-none : {A : Type 0} (m : ℕ) (xs : List A) → m ≡ 0 → take m xs ≡ []
take-none m xs e = ap (λ k. take k xs) e

take-some :
    {A : Type 0} (m k : ℕ) (x : A) (xs : List A) → m ≡ suc k → take m (x ∷ xs) ≡ x ∷ take k xs
take-some m k x xs e = ap (λ j. take j (x ∷ xs)) e

-- One process of the loop, where an entry fits.
entry_step :
    (b : Bool) (m k : ℕ) (e : Entry) (skips rest after : List Entry)
    → m ≡ suc k
    → skips ≡ take m after
    → rest ≡ take k after
    → (if b then skips else e ∷ rest) ≡ take m (if b then after else e ∷ after)
entry_step true m k e skips rest after q s r = s
entry_step false m k e skips rest after q s r = ap (λ x. e ∷ x) r ∙ sym (take-some m k e after q)

table_from-used :
    (n : ℕ) (t : ℕ → Proc) (r p i : ℕ)
    → n ≤ 64
    → i < n
    → table_from n (entry_size * n) t r p i ≡ take (n - 1 - i) (used_from t r p)
unfolding table_from
table_from-used n t zero p i h l = nothing (n - 1 - i)
  where
    nothing : (m : ℕ) → [] ≡ take m (used_from t zero p)
    nothing zero = refl
    nothing (suc m) = refl
table_from-used n t (suc r) p i h l =
    if_both (λ xs. xs ≡ take (n - 1 - i) (used_from t (suc r) p))
      (slt i n && slt (add32 (entry_size * i) entry_size) (entry_size * n)) _ _
      (λ q.
        let more : i + 1 < n = below (i + 1) n (sym (room n i h l) ∙ q) in
        entry_step (is_unused (t p).state) (n - 1 - i) (n - 1 - (i + 1)) (entry_of t (t p))
          (table_from n (entry_size * n) t r (p + 1) i)
          (table_from n (entry_size * n) t r (p + 1) (i + 1)) (used_from t r (p + 1)) (omega arith)
          (table_from-used n t r (p + 1) i h l) (table_from-used n t r (p + 1) (i + 1) h more))
      (λ q.
        let full = not_below (i + 1) n (sym (room n i h l) ∙ q) in
        sym (take-none (n - 1 - i) (used_from t (suc r) p) (omega arith)))

-- With the size that `sys_getptable` asks for, a buffer of up to NPROC entries gets the processes in
-- use in the order of the table, but never one in its last place.
pub getptable_lem :
    {S : Type 0} (n buffer : ℕ) (k : Kernel S)
    → 0 < n
    → n ≤ nproc
    → buffer ≢ 0
    → getptable n (entry_size * n) buffer k ≡ some (take (n - 1) (used_from k.procs nproc 0))
unfolding getptable
getptable_lem n buffer k h l b =
    if_both (λ x. x ≡ some (take (n - 1) (used_from k.procs nproc 0))) (buffer == 0) _ _
      (λ z. absurd (b (ground arith)))
      (λ z. ap some (
        table_from-used n k.procs nproc 0 0 l h
        ∙ ap (λ m. take m (used_from k.procs nproc 0)) (omega arith)))
