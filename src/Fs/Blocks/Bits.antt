-- ===== src/Fs/Blocks/Bits.antt =====
-- The bits of a byte, as the bitmap of Lab/code/fs.c sets them.
use xmu_learning_os.Base.{
  ap, arith, refl, suc, sym, zero, ℕ, ◌%◌, ◌+◌, ◌/◌, ◌<◌, ◌^◌, ◌∙◌, ◌≡◌, ◌≢◌,
}
use native.Mathlib.Nat.{pow-succ', div-div-eq-div-mul}

-- Bit `j` of a number.
abbrev pub bit : ℕ → ℕ → ℕ
bit x j = x / 2 ^ j % 2

raise : (r x : ℕ) → (x + 2 ^ suc r) / 2 ≡ x / 2 + 2 ^ r
raise r x = omega arith

even : (r x : ℕ) → (x + 2 ^ suc r) % 2 ≡ x % 2
even r x = omega arith

bit-suc : (x j : ℕ) → bit x (suc j) ≡ bit (x / 2) j
bit-suc x j =
    ap (λ d. x / d % 2) (pow-succ' 2 j) ∙ ap (λ y. y % 2) (sym (div-div-eq-div-mul x 2 (2 ^ j)))

-- Where bit `r` is clear, adding its weight sets it, changes no other bit, and keeps the width.
pub bit-set : (r x : ℕ) → bit x r ≡ 0 → bit (x + 2 ^ r) r ≡ 1
bit-set zero x h = omega (arith, h)
bit-set (suc r) x h =
    bit-suc (x + 2 ^ suc r) r
    ∙ ap (λ y. bit y r) (raise r x)
    ∙ bit-set r (x / 2) (sym (bit-suc x r) ∙ h)

pub bit-set_other : (r j x : ℕ) → j ≢ r → bit x r ≡ 0 → bit (x + 2 ^ r) j ≡ bit x j
bit-set_other zero zero x d h = absurd (d refl)
bit-set_other zero (suc j) x d h =
    let same : (x + 1) / 2 ≡ x / 2 = omega (arith, h) in
    bit-suc (x + 1) j ∙ ap (λ y. bit y j) same ∙ sym (bit-suc x j)
bit-set_other (suc r) zero x d h = omega (arith, even r x)
bit-set_other (suc r) (suc j) x d h =
    bit-suc (x + 2 ^ suc r) j
    ∙ ap (λ y. bit y j) (raise r x)
    ∙ bit-set_other r j (x / 2) (λ e. d (ap suc e)) (sym (bit-suc x r) ∙ h)
    ∙ sym (bit-suc x j)

pub bit-set_bounded : (n r x : ℕ) → r < n → x < 2 ^ n → bit x r ≡ 0 → x + 2 ^ r < 2 ^ n
bit-set_bounded zero r x l b h = absurd (omega arith)
bit-set_bounded (suc n) zero x l b h = omega (arith, h)
bit-set_bounded (suc n) (suc r) x l b h =
    let inner = bit-set_bounded n r (x / 2) (omega arith) (omega arith) (sym (bit-suc x r) ∙ h) in
    omega (arith, inner)
