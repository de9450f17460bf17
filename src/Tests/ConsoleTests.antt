-- ===== src/Tests/ConsoleTests.antt =====
-- The theorems on the console at a concrete input.
use xmu_learning_os.Base.{[], arith, refl, true, ℕ, ◌∷◌, ◌≡◌}
use xmu_learning_os.Console.{
  Input, backspace, consoleintr, input_char, kill_line, read_line, store_char,
}
use xmu_learning_os.Console.InOrder.{InOrder, Reach-InOrder, here, input_of, next, reads, types}
use xmu_learning_os.Proc.{other}
use xmu_learning_os.Samples.{alone}

abbrev blank_input : Input
blank_input = record { line = λ i. 0; r = 0; w = 0; e = 0 }

-- The characters `h`, backspace, `a` and the end of the line, of which one is read.
abbrev typed : Input
typed = (consoleintr (other 0) (104 ∷ 8 ∷ 97 ∷ 13 ∷ []) (blank_input, alone)).0

Reach-InOrder_example : InOrder (input_of (read_line 1 true typed))
Reach-InOrder_example =
    Reach-InOrder ℕ (other 0) {s = blank_input}
      (omega arith, omega arith, omega arith, omega arith, omega arith)
      (next (next here (types (104 ∷ 8 ∷ 97 ∷ 13 ∷ []) alone)) (reads 1 true))

typed_test : (typed.w ≡ 2) × (typed.e ≡ 2) × (typed.line 0 ≡ 97)
unfolding consoleintr input_char backspace store_char kill_line
typed_test = (refl, refl, refl)
