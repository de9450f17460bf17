-- ===== src/Shell.antt =====
-- Lab/code/sh.c: the parser of the shell. A `char*` into the line is its position there. The end `es`
-- is where the line's NUL is. `malloc` does not fail.
pub mod Lines
pub mod Parsing
pub mod Running
pub mod Runs
pub mod Strings
pub mod Tokens
use xmu_learning_os.Base.{
  Bool, Bytes, List, [], false, if◌then◌else◌, leb, not, suc, true, update, zero, ℕ, ◌&&◌, ◌++◌,
  ◌+◌, ◌-◌, ◌==◌, ◌||◌, ◌∷◌,
}

-- A command. A string is where it starts and where it stops.
pub data Cmd : Type 0 where
  exec_cmd : List (ℕ × ℕ) → Cmd
  redir_cmd : Cmd → ℕ × ℕ → ℕ → ℕ → Cmd
  pipe_cmd : Cmd → Cmd → Cmd
  list_cmd : Cmd → Cmd → Cmd
  back_cmd : Cmd → Cmd

abbrev pub maxargs : ℕ
maxargs = 10

-- What a parser comes to: a result and the position after it, or a panic. `out_of_rounds` belongs to
-- the model only.
pub data Parse (A : Type 0) : Type 0 where
  parsed : A → ℕ → Parse A
  syntax_error : Parse A
  out_of_rounds : Parse A

abbrev pub Parser : Type 0 → Type 0
Parser A = ℕ → Parse A

infixl 5 ◌>>=◌ ◌>>◌
abbrev pub ◌>>=◌ : {A B : Type 0} → Parser A → (A → Parser B) → Parser B
◌>>=◌ m f s = elim (m s) [
  | parsed a s' ↦ f a s'
  | syntax_error ↦ syntax_error
  | out_of_rounds ↦ out_of_rounds
]

abbrev pub ◌>>◌ : {B : Type 0} → Parser (Unit {0}) → Parser B → Parser B
m >> k = m >>= λ u. k

abbrev pub pure : {A : Type 0} → A → Parser A
pure a s = parsed a s

-- `strchr(s, c) != 0`
abbrev pub has : List ℕ → ℕ → Bool
has [] c = false
has (x ∷ xs) c = (x == c) || has xs c

-- " \t\r\n\v"
abbrev pub whitespace : List ℕ
whitespace = 32 ∷ 9 ∷ 13 ∷ 10 ∷ 11 ∷ []

-- "<|>&;()"
abbrev pub symbols : List ℕ
symbols = 60 ∷ 124 ∷ 62 ∷ 38 ∷ 59 ∷ 40 ∷ 41 ∷ []

-- The tokens of one character: "|();&<"
abbrev pub single : List ℕ
single = 124 ∷ 40 ∷ 41 ∷ 59 ∷ 38 ∷ 60 ∷ []

-- The tokens `a`, `>` and `+`.
abbrev pub word : ℕ
word = 97

abbrev pub greater : ℕ
greater = 62

abbrev pub append : ℕ
append = 43

pub record Token : Type 0 where
  pub kind : ℕ
  pub start : ℕ
  pub stop : ℕ

-- `cmd->argv[argc] = q; cmd->eargv[argc] = eq;` on the command inside its redirections.
unfoldable pub add_arg : ℕ × ℕ → Cmd → Cmd
add_arg a (exec_cmd args) = exec_cmd (args ++ a ∷ [])
add_arg a (redir_cmd c file mode fd) = redir_cmd (add_arg a c) file mode fd
add_arg a (pipe_cmd l r) = pipe_cmd l r
add_arg a (list_cmd l r) = list_cmd l r
add_arg a (back_cmd c) = back_cmd c

module _ (buf : Bytes) where
  -- `while (s < es && test(*s)) s++;`, with `n` characters left.
  unfoldable pub skip : (ℕ → Bool) → ℕ → ℕ → ℕ
  skip test zero s = s
  skip test (suc n) s = let rest = skip test n (s + 1) in if test (buf s) then rest else s

  abbrev pub is_word : ℕ → Bool
  is_word c = not (has whitespace c) && not (has symbols c)

  -- The token at `s`, which is not a space.
  unfoldable pub token_at : ℕ → ℕ → Token
  unfolding skip
  token_at es s =
      let c = buf s in
      if c == 0
      then record { kind = 0; start = s; stop = s }
      else if has single c
      then record { kind = c; start = s; stop = s + 1 }
      else if c == greater
      then if buf (s + 1) == greater
        then record { kind = append; start = s; stop = s + 2 }
        else record { kind = greater; start = s; stop = s + 1 }
      else record { kind = word; start = s; stop = skip is_word (es - s) s }

  module _ (es : ℕ) where
    abbrev pub skip_spaces : ℕ → ℕ
    skip_spaces s = skip (has whitespace) (es - s) s

    unfoldable pub gettoken : Parser Token
    gettoken s = let t = token_at es (skip_spaces s) in parsed t (skip_spaces t.stop)

    unfoldable pub peek : List ℕ → Parser Bool
    peek toks s = let s' = skip_spaces s in parsed (not (buf s' == 0) && has toks (buf s')) s'

    -- A string and where it goes: the descriptor and the mode.
    abbrev pub redir_of : ℕ → Token → (ℕ × ℕ) × ℕ × ℕ
    redir_of tok t = if tok == 60 then ((t.start, t.stop), 0, 0) else ((t.start, t.stop), 513, 1)

    abbrev pub redircmd : Cmd → (ℕ × ℕ) × ℕ × ℕ → Cmd
    redircmd cmd r = redir_cmd cmd (r.0) (r.1) (r.2)

    -- The loops and the recursion of the parser have `n` rounds.
    unfoldable pub parseredirs : ℕ → Cmd → Parser Cmd
    parseredirs zero cmd s = out_of_rounds
    parseredirs (suc n) cmd s =
        (do
          more ← peek (60 ∷ 62 ∷ [])
          elim more [
            | false ↦ pure cmd
            | true ↦ (do
              tok ← gettoken
              t ← gettoken
              elim (t.kind == word) [
                | false ↦ λ s. syntax_error
                | true ↦ parseredirs n (redircmd cmd (redir_of tok.kind t))
              ])
          ])
          s

    -- The loop of `parseexec`, with `argc` arguments so far.
    unfoldable pub parseargs : ℕ → ℕ → Cmd → Parser Cmd
    parseargs zero argc ret s = out_of_rounds
    parseargs (suc n) argc ret s =
        (do
          ends ← peek (124 ∷ 41 ∷ 38 ∷ 59 ∷ [])
          elim ends [
            | true ↦ pure ret
            | false ↦ (do
              t ← gettoken
              elim (t.kind == 0) [
                | true ↦ pure ret
                | false ↦ elim (not (t.kind == word) || leb maxargs (argc + 1)) [
                  | true ↦ λ s. syntax_error
                  | false ↦ parseredirs (suc n) (add_arg (t.start, t.stop) ret) >>= λ ret'.
                      parseargs n (argc + 1) ret'
                ]
              ])
          ])
          s

    -- `line` is `parseline` with fewer rounds.
    module _ (line : Parser Cmd) where
      unfoldable pub parseblock : ℕ → Parser Cmd
      parseblock n = do
        opens ← peek (40 ∷ [])
        elim opens [
          | false ↦ λ s. syntax_error
          | true ↦ (do
            tok ← gettoken
            cmd ← line
            closes ← peek (41 ∷ [])
            elim closes [
              | false ↦ λ s. syntax_error
              | true ↦ gettoken >>= λ tok'. parseredirs n cmd
            ])
        ]

      unfoldable pub parseexec : ℕ → Parser Cmd
      parseexec n = do
        opens ← peek (40 ∷ [])
        elim opens [
          | true ↦ parseblock n
          | false ↦ parseredirs n (exec_cmd []) >>= λ ret. parseargs n 0 ret
        ]

      unfoldable pub parsepipe : ℕ → Parser Cmd
      parsepipe zero s = out_of_rounds
      parsepipe (suc n) s =
          (do
            cmd ← parseexec (suc n)
            more ← peek (124 ∷ [])
            elim more [
              | false ↦ pure cmd
              | true ↦ (do tok ← gettoken; right ← parsepipe n; pure (pipe_cmd cmd right))
            ])
            s

    -- `while(peek(ps, es, "&"))`
    unfoldable pub parsebacks : ℕ → Cmd → Parser Cmd
    parsebacks zero cmd s = out_of_rounds
    parsebacks (suc n) cmd s =
        (do
          more ← peek (38 ∷ [])
          elim more [ false ↦ pure cmd | true ↦ gettoken >>= λ tok. parsebacks n (back_cmd cmd) ])
          s

    unfoldable pub parseline : ℕ → Parser Cmd
    parseline zero s = out_of_rounds
    parseline (suc n) s =
        (do
          first_cmd ← parsepipe (parseline n) (suc n)
          cmd ← parsebacks (suc n) first_cmd
          more ← peek (59 ∷ [])
          elim more [
            | false ↦ pure cmd
            | true ↦ (do tok ← gettoken; right ← parseline n; pure (list_cmd cmd right))
          ])
          s

    -- `parsecmd` before `nulterminate`.
    unfoldable pub parse_line : Parser Cmd
    parse_line = do
      cmd ← parseline (es + 1)
      more ← peek []
      λ s. if s == es then parsed cmd s else syntax_error

-- The NUL at the end of each string.
unfoldable pub end_strings : List (ℕ × ℕ) → Bytes → Bytes
end_strings [] buf = buf
end_strings (a ∷ args) buf = end_strings args (update buf (a.1) 0)

unfoldable pub nulterminate : Cmd → Bytes → Bytes
nulterminate (exec_cmd args) buf = end_strings args buf
nulterminate (redir_cmd c file mode fd) buf = update (nulterminate c buf) (file.1) 0
nulterminate (pipe_cmd l r) buf = nulterminate r (nulterminate l buf)
nulterminate (list_cmd l r) buf = nulterminate r (nulterminate l buf)
nulterminate (back_cmd c) buf = nulterminate c buf

-- `parsecmd(buf)` for a line of `es` characters: the command and the buffer.
unfoldable pub parsecmd : Bytes → ℕ → Parse (Cmd × Bytes)
parsecmd buf es = elim (parse_line buf es 0) [
  | parsed cmd s ↦ parsed (cmd, nulterminate cmd buf) s
  | syntax_error ↦ syntax_error
  | out_of_rounds ↦ out_of_rounds
]
