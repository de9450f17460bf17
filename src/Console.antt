-- ===== src/Console.antt =====
-- Lab/code/console.c: the input line of `consoleintr` and `consoleread`. What `consputc` shows is
-- not part of the state. `input.r`, `input.w` and `input.e` are `uint` counters into a ring. A
-- reader sleeps on `chan`, the address of `input.r`.
pub mod InOrder
use xmu_learning_os.Base.{
  Bool, List, Option, [], add32, false, if◌then◌else◌, ltb, none, not, some, sub32, suc, true,
  update, zero, ℕ, ◌%◌, ◌&&◌, ◌==◌, ◌||◌, ◌∷◌,
}
use xmu_learning_os.Proc.{Chan, Kernel}
use xmu_learning_os.Proc.Sleep.{sleep, wakeup}

abbrev pub input_buf : ℕ
input_buf = 128

pub record Input : Type 0 where
  pub line : ℕ → ℕ
  pub r : ℕ
  pub w : ℕ
  pub e : ℕ

-- `\n`, `\r` and the control characters
abbrev pub newline : ℕ
newline = 10

abbrev pub carriage : ℕ
carriage = 13

abbrev pub ctrl_d : ℕ
ctrl_d = 4

abbrev pub ctrl_h : ℕ
ctrl_h = 8

abbrev pub ctrl_p : ℕ
ctrl_p = 16

abbrev pub ctrl_u : ℕ
ctrl_u = 21

abbrev pub delete : ℕ
delete = 127

-- The loop of `C('U')`, with `n` as the characters that may go.
unfoldable pub kill_line : ℕ → Input → Input
kill_line zero s = s
kill_line (suc n) s =
    let rest = kill_line n (record s { e = sub32 s.e 1 }) in
    if (s.e == s.w) || (s.line (sub32 s.e 1 % input_buf) == newline) then s else rest

unfoldable pub backspace : Input → Input
backspace s = if s.e == s.w then s else record s { e = sub32 s.e 1 }

-- A character that is kept, and whether it ends the line.
abbrev pub translate : ℕ → ℕ
translate c = if c == carriage then newline else c

unfoldable pub store_char : ℕ → Input → Input
store_char c s = record s { line = update s.line (s.e % input_buf) (translate c); e = add32 s.e 1 }

abbrev pub ends_line : ℕ → Input → Bool
ends_line c s = (translate c == newline) || (translate c == ctrl_d) || (s.e == add32 s.r input_buf)

-- One character of `consoleintr`, with whether it wakes the readers.
unfoldable pub input_char : ℕ → Input → Bool × Input
unfolding kill_line backspace store_char
input_char c s =
    if c == ctrl_p
    then (false, s)
    else if c == ctrl_u
    then (false, kill_line input_buf s)
    else if (c == ctrl_h) || (c == delete)
    then (false, backspace s)
    else if not (c == 0) && ltb (sub32 s.e s.r) input_buf
    then (let s' = store_char c s in
        if ends_line c s' then (true, record s' { w = s'.e }) else (false, s'))
    else (false, s)

-- The loop of `consoleintr` over what `getc` returns, with the kernel whose readers it wakes.
unfoldable pub consoleintr : {S : Type 0} → Chan → List ℕ → Input × Kernel S → Input × Kernel S
unfolding input_char
consoleintr chan [] s = s
consoleintr chan (c ∷ cs) (s, k) =
    let (woken, s') = input_char c s in consoleintr chan cs (s', if woken then wakeup chan k else k)

-- How the copying loop of `consoleread` ends: at the end of the line, of the file or of the count,
-- or with so many characters still wanted and none there.
pub data Copied : Type 0 where
  done : List ℕ → Input → Copied
  short : ℕ → List ℕ → Input → Copied

abbrev pub prepend : ℕ → Copied → Copied
prepend c (done cs s) = done (c ∷ cs) s
prepend c (short n cs s) = short n (c ∷ cs) s

-- The loop with `n` characters wanted; `fresh` says that none has been copied yet.
unfoldable pub read_line : ℕ → Bool → Input → Copied
read_line zero fresh s = done [] s
read_line (suc n) fresh s =
    let c = s.line (s.r % input_buf) in
    let s' = record s { r = add32 s.r 1 } in
    let rest = read_line n false s' in
    if s.r == s.w
    then short (suc n) [] s
    else if c == ctrl_d
    then (if fresh then done [] s' else done [] s)
    else if c == newline
    then done (c ∷ []) s'
    else prepend c rest

-- A round of `consoleread` with `n` characters wanted: where they are not there, the caller fails
-- if it is killed, and else sleeps. It holds no inode's lock meanwhile.
unfoldable pub consoleread_round :
    {S : Type 0} → Chan → ℕ → ℕ → Bool → Input → Kernel S → Option Copied × Kernel S
unfolding read_line
consoleread_round chan cur n fresh s k = elim (read_line n fresh s) [
  | done cs s' ↦ (some (done cs s'), k)
  | short m cs s' ↦
      if (k.procs cur).killed == 0 then (some (short m cs s'), sleep cur chan k) else (none, k)
]
