-- ===== src/Tests/StrTests.antt =====
-- The theorems on strings at concrete names.
use xmu_learning_os.Base.{arith, if◌then◌else◌, refl, ℕ, ◌+◌, ◌==◌, ◌≡◌}
use xmu_learning_os.Str.{memmove, strncmp, strncmp_from}
use xmu_learning_os.Str.Compare.{strncmp_lem}
use xmu_learning_os.Str.Move.{memmove_lem}

-- A name of two bytes and NULs.
abbrev short_name : ℕ → ℕ
short_name i = if i == 0 then 97 else if i == 1 then 98 else 0

-- The same with another byte after the NUL.
abbrev long_name : ℕ → ℕ
long_name i = if i == 0 then 97 else if i == 1 then 98 else if i == 2 then 0 else 7

strncmp_test : short_name 1 ≡ long_name 1
unfolding strncmp strncmp_from
strncmp_test =
    strncmp_lem short_name long_name 14 1 (λ j. ground arith) (λ j. ground arith) refl (omega arith)
      (λ j l. ground arith)

-- Four bytes move up by two within one memory.
memmove_lem_example : memmove 2 0 4 (λ a. a + 10) 5 ≡ 13
memmove_lem_example = (memmove_lem 2 0 4 (λ a. a + 10)).0 3 (omega arith)
