-- ===== src/Base/Word.antt =====
-- 32-bit words: `uint` is a number below 2 ^ 32, and an `int` is its two's complement pattern.
use Prim.Native.Nat.{ℕ, ◌+◌, ◌-◌, ◌%◌, ◌^◌, ◌<◌}
use mathlib.Core.Bool.{Bool}
use xmu_learning_os.Base.Tests.{ltb, leb}

-- `a + b` and `a - b` on `int` and `uint`: the same on patterns.
abbrev pub add32 : ℕ → ℕ → ℕ
add32 a b = (a + b) % 2 ^ 32

abbrev pub sub32 : ℕ → ℕ → ℕ
sub32 a b = (a + 2 ^ 32 - b) % 2 ^ 32

-- The pattern of -1.
abbrev pub minus_one : ℕ
minus_one = 2 ^ 32 - 1

-- `a < b` and `a <= b` on `int`: the bias turns the signed order into the order of numbers.
abbrev pub bias : ℕ → ℕ
bias a = (a + 2 ^ 31) % 2 ^ 32

abbrev pub slt : ℕ → ℕ → Bool
slt a b = ltb (bias a) (bias b)

abbrev pub sle : ℕ → ℕ → Bool
sle a b = leb (bias a) (bias b)

-- A pattern below 2 ^ 31 stands for itself, and the others for negative numbers.
abbrev pub IsInt : ℕ → Type 0
IsInt a = a < 2 ^ 32

abbrev pub IsNonneg : ℕ → Type 0
IsNonneg a = a < 2 ^ 31
