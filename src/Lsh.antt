-- ===== src/Lsh.antt =====
-- Lab/code/lsh.c: the second shell, its tokens, its commands as system calls, and a round of `main`.
-- A string is its characters up to the NUL.
pub mod Words
use xmu_learning_os.Base.{
  Bool, List, Option, [], drop, false, if◌then◌else◌, length, ltb, none, not, slt, some, suc, take,
  true, update, zero, ℕ, ◌&&◌, ◌*◌, ◌+◌, ◌-◌, ◌==◌, ◌||◌, ◌∷◌,
}
use xmu_learning_os.Printf.{strcmp, strlen}
use xmu_learning_os.Shell.{has}
use xmu_learning_os.Shell.Running.{
  Message, Process, changes_dir, closes, dups, exec_refused, execs, exits, forks, help, many_dirs,
  many_inputs, many_outputs, no_access, no_input, no_output, no_pipe, opens, parse_error, pipes,
  prints, unlinks, waits_for,
}

-- " \t\r\n\a"
abbrev pub delimiters : List ℕ
delimiters = 32 ∷ 9 ∷ 13 ∷ 10 ∷ 7 ∷ []

abbrev pub tok_size : ℕ
tok_size = 64

-- EXEC, PIPE, REDIN and REDOUT
pub data Kind : Type 0 where
  runs_one runs_pipe reads_from writes_to : Kind

-- `struct cmd` with the counters of `main`: `words` is `left` and, from `tok_size` on, `right`.
pub record Line : Type 0 where
  pub kind : Kind
  pub words : ℕ → Option (List ℕ)
  pub left_i : ℕ
  pub right_i : ℕ

abbrev pub is_exec : Kind → Bool
is_exec runs_one = true
is_exec _ = false

unfoldable pub strcspn : List ℕ → List ℕ → ℕ
strcspn [] chars = 0
strcspn (c ∷ s) chars = let rest = strcspn s chars in if has chars c then 0 else suc rest

-- The `do` loop of `strtok`: `[]` is the NUL.
unfoldable pub skip_delimiters : List ℕ → List ℕ → List ℕ
skip_delimiters [] delim = []
skip_delimiters (c ∷ s) delim =
    let rest = skip_delimiters s delim in if has delim c then rest else c ∷ s

-- The token, and the string that `lasts` points to.
unfoldable pub strtok : List ℕ → List ℕ → Option (List ℕ × List ℕ)
unfolding strcspn skip_delimiters
strtok s delim = elim (skip_delimiters s delim) [
  | [] ↦ none
  | c ∷ t ↦ let n = strcspn (c ∷ t) delim in some (take n (c ∷ t), drop (n + 1) (c ∷ t))
]

abbrev pub is_text : List ℕ → List ℕ → Bool
is_text s t = strcmp s t == 0

-- The body of the loop of `main` on a token. `none` is a write past `struct cmd`.
unfoldable pub add_token : List ℕ → Line → Option Line
unfolding strcmp
add_token token l =
    if is_text token (60 ∷ [])
    then some (record l { kind = reads_from })
    else if is_text token (62 ∷ [])
    then some (record l { kind = writes_to })
    else if is_text token (124 ∷ [])
    then some (record l { kind = runs_pipe })
    else if is_exec l.kind
    then if ltb l.left_i (2 * tok_size)
      then some (record l { words = update l.words l.left_i (some token); left_i = l.left_i + 1 })
      else none
    else if ltb l.right_i tok_size
    then some (record l {
      words = update l.words (tok_size + l.right_i) (some token);
      right_i = l.right_i + 1;
    })
    else none

abbrev pub empty_line : Line
empty_line = record { kind = runs_one; words = λ i. none; left_i = 0; right_i = 0 }

-- The loop over the tokens. Each round takes a character at least.
unfoldable pub read_tokens : ℕ → List ℕ → Line → Option Line
unfolding strtok add_token
read_tokens zero s l = some l
read_tokens (suc n) s l = elim (strtok s delimiters) [
  | none ↦ some l
  | some (token, rest) ↦ elim (add_token token l) [ none ↦ none | some l' ↦ read_tokens n rest l' ]
]

unfoldable pub read_command : List ℕ → Option Line
unfolding read_tokens
read_command s = read_tokens (length s) s empty_line

-- The strings from a word on, up to a null pointer.
unfoldable pub args_from : ℕ → (ℕ → Option (List ℕ)) → ℕ → List (List ℕ)
args_from zero words i = []
args_from (suc n) words i =
    let rest = args_from n words (i + 1) in elim (words i) [ none ↦ [] | some s ↦ s ∷ rest ]

-- `at_null` is the string at address 0, which a null pointer stands for.
module _ (at_null : List ℕ) where
  abbrev pub string_of : Option (List ℕ) → List ℕ
  string_of none = at_null
  string_of (some s) = s

  abbrev pub left : Line → ℕ → List ℕ
  left l i = string_of (l.words i)

  abbrev pub right : Line → ℕ → List ℕ
  right l i = string_of (l.words (tok_size + i))

  -- `exec(argv[0], argv)` from a word on, and what follows where it fails.
  unfoldable pub exec_at : ℕ → Line → Process
  unfolding args_from
  exec_at i l =
      execs (string_of (l.words i)) (args_from (2 * tok_size - i) l.words i)
        (prints exec_refused exits)

  -- `printf` where the second word of the right side is there.
  abbrev pub warn_second : Line → Message → Process → Process
  warn_second l m p = elim (l.words (tok_size + 1)) [ none ↦ p | some s ↦ prints m p ]

  unfoldable pub lsh_cd : Line → Process → Process
  lsh_cd l again =
      let change =
        changes_dir (left l 1)
          λ r. if slt r 0 then prints (no_access (left l 1)) again else again in
      elim (l.words 2) [ none ↦ change | some s ↦ prints many_dirs change ]

  -- The child that has `fd` as its descriptor `to`.
  abbrev pub exec_with : ℕ → ℕ → Line → Process
  exec_with to fd l = closes to (dups fd (closes fd (exec_at 0 l)))

  -- The child at one end of a pipe.
  abbrev pub exec_end : ℕ → ℕ → ℕ → ℕ → Line → Process
  exec_end other to fd i l = closes other (closes to (dups fd (closes fd (exec_at i l))))

  -- What `lsh_execute` does for each type of command.
  unfoldable pub launch : Kind → Line → Process → Process
  unfolding exec_at
  launch runs_one l again = forks (exec_at 0 l) λ pid. waits_for again
  launch reads_from l again = warn_second l many_inputs (
      opens (right l 0) 0 λ fd.
        if slt fd 0
        then prints (no_input (right l 0)) again
        else forks (exec_with 0 fd l) λ pid. closes fd (waits_for again))
  launch writes_to l again = warn_second l many_outputs (
      unlinks (right l 0) (
        opens (right l 0) 513 λ fd.
          if slt fd 0
          then prints (no_output (right l 0)) again
          else forks (exec_with 1 fd l) λ pid. closes fd (waits_for again)))
  launch runs_pipe l again = pipes λ ends. elim ends [
    | none ↦ prints no_pipe again
    | some (r, w) ↦ forks (exec_end r 1 w 0 l) λ pid.
        forks (exec_end w 0 r tok_size l) λ pid2. closes r (closes w (waits_for (waits_for again)))
  ]

  unfoldable pub lsh_execute : Line → Process → Process
  unfolding strcmp lsh_cd launch
  lsh_execute l again =
      if is_text (left l 0) (99 ∷ 100 ∷ [])
      then lsh_cd l again
      else if is_text (left l 0) (104 ∷ 101 ∷ 108 ∷ 112 ∷ [])
      then prints help again
      else if is_text (left l 0) (101 ∷ 120 ∷ 105 ∷ 116 ∷ [])
      then exits
      else launch l.kind l again

  -- A round of `main` on the line that `gets` gave. `none` is a write past `struct cmd`.
  unfoldable pub lsh_round : Process → List ℕ → Option Process
  unfolding read_command lsh_execute strlen
  lsh_round again s = elim (read_command s) [
    | none ↦ none
    | some l ↦ some (
        if (strlen (left l 0) == 0) || (not (is_exec l.kind) && (strlen (right l 0) == 0))
        then prints parse_error again
        else lsh_execute l again)
  ]
