-- ===== src/Printf/Numbers.antt =====
-- `printint` and `atoi`.
use xmu_learning_os.Base.{
  List, [], ap, arith, false, if_both, if◌then◌else◌, slt, sub32, suc, sym, true, zero, ℕ, ◌%◌, ◌*◌,
  ◌++◌, ◌+◌, ◌-◌, ◌/◌, ◌<◌, ◌==◌, ◌^◌, ◌∙◌, ◌∷◌, ◌≡◌,
}
use xmu_learning_os.Printf.{
  atoi, atoi_from, backwards, digit, digits_of, int_buf, is_digit, minus, printint,
}
use mathlib.Core.List.{append_assoc, append-nil}

is_digit-digit : (d : ℕ) → d < 10 → (is_digit (digit d) ≡ true) × (digit d ≡ 48 + d)
is_digit-digit d h = (ground arith, ground arith)

-- A digit is added to the number.
atoi_from-digit :
    (q d : ℕ) (s : List ℕ)
    → d < 10
    → q * 10 + d < 2 ^ 31
    → atoi_from q (digit d ∷ s) ≡ atoi_from (q * 10 + d) s
unfolding atoi_from
atoi_from-digit q d s h l =
    let (e, f) = is_digit-digit d h in
    let same : (q * 10 + digit d + 2 ^ 32 - 48) % 2 ^ 32 ≡ q * 10 + d = omega (arith, f) in
    ground (arith, ap (λ n. atoi_from n s) same)

half : (n x : ℕ) → x < 2 ^ suc n → x / 10 < 2 ^ n
half n x h = omega arith

atoi-digits :
    (n x : ℕ) (s : List ℕ)
    → x < 2 ^ n
    → x < 2 ^ 31
    → atoi_from 0 (backwards (digits_of n 10 x) ++ s) ≡ atoi_from x s
unfolding digits_of backwards
atoi-digits zero x s h l = ap (λ k. atoi_from k s) (omega arith)
atoi-digits (suc n) x s h l =
    let q = x / 10 in
    let high = if q == 0 then [] else digits_of n 10 q in
    let above : atoi_from 0 (backwards high ++ digit (x % 10) ∷ s)
        ≡ atoi_from q (digit (x % 10) ∷ s) =
      if_both
        (λ ds. atoi_from 0 (backwards ds ++ digit (x % 10) ∷ s) ≡ atoi_from q (digit (x % 10) ∷ s))
        (q == 0) _ _ (λ e. ap (λ k. atoi_from k (digit (x % 10) ∷ s)) (ground arith))
        (λ e. atoi-digits n q (digit (x % 10) ∷ s) (half n x h) (omega arith)) in
    ap (atoi_from 0) (append_assoc (backwards high) (digit (x % 10) ∷ []) s)
    ∙ above
    ∙ atoi_from-digit q (x % 10) s (omega arith) (omega arith)
    ∙ ap (λ k. atoi_from k s) (omega arith)

-- What `printint` writes for a number that is not negative, `atoi` reads as the number.
pub atoi-printint : (x : ℕ) → x < 2 ^ 31 → atoi (printint x 10 true) ≡ x
unfolding atoi atoi_from printint int_buf
atoi-printint x h =
    let plain : slt x 0 ≡ false = ground arith in
    let read = atoi-digits 32 x [] (omega arith) h in
    let ds = digits_of 32 10 x in
    ap (λ b. atoi_from 0 (backwards (if b then digits_of 32 10 (sub32 0 x) ++ minus ∷ [] else ds)))
      plain
    ∙ ap (atoi_from 0) (sym (append-nil (backwards ds)))
    ∙ read
