-- ===== src/Shell/Lines.antt =====
-- `parsecmd` on a line: the parser and `nulterminate`.
use xmu_learning_os.Base.{Bytes, [], ap, arith, if_both, sym, ℕ, ◌+◌, ◌<◌, ◌==◌, ◌∙◌, ◌≡◌, ◌≤◌}
use xmu_learning_os.Shell.{
  Cmd, Parse, nulterminate, out_of_rounds, parse_line, parsecmd, parsed, parseline, peek,
  syntax_error,
}
use xmu_learning_os.Shell.Parsing.{parseline-Ends}
use xmu_learning_os.Shell.Runs.{Ends, Found, InLine, at, bind-Ends, fails, run-Ends}
use xmu_learning_os.Shell.Strings.{
  Every, Every-outside, InLine-Every, Reads, end_strings-Reads, end_strings-kept,
  nulterminate-strings, strings,
}
use xmu_learning_os.Shell.Tokens.{peek-IsPeek}
use mathlib.Core.Path.{subst}

module _ (buf : Bytes) (es : ℕ) (ends : buf es ≡ 0) where
  parse_line-Ends :
      (s : ℕ) → s ≤ es → Ends (λ cmd s'. InLine buf es cmd × (s' ≡ es)) (parse_line buf es s)
  unfolding parse_line
  parse_line-Ends s h =
      bind-Ends (Found buf es ends 0 s) (parseline buf es (es + 1)) _ s
        (parseline-Ends buf es ends (es + 1) s h (omega arith))
        λ cmd s1 (low, high, i).
          let (b, s2, e, p) = peek-IsPeek buf es ends [] s1 high in
          run-Ends (peek buf es []) _ s1 e (
            if_both (Ends (λ cmd s'. InLine buf es cmd × (s' ≡ es))) (s2 == es) _ _
              (λ q. at (i, ground arith)) (λ q. fails))

-- What `parsecmd` leaves: all of the line is taken, each string of the command is a word of the line,
-- which the buffer still holds, with a NUL behind it, and nothing behind the line is changed.
pub record Done (buf : Bytes) (es : ℕ) (r : Cmd × Bytes) (s : ℕ) : Type 0 where
  pub taken : s ≡ es
  pub reads : Every (Reads buf es (r.1)) (strings (r.0))
  pub outside : (k : ℕ) → es < k → r.1 k ≡ buf k

nulterminate-Done :
    (buf : Bytes) (es : ℕ) (c : Cmd) (s : ℕ)
    → InLine buf es c
    → s ≡ es
    → Done buf es (c, nulterminate c buf) s
nulterminate-Done buf es c s i e =
    let words = InLine-Every buf es c i in
    let same = nulterminate-strings c buf in
    record {
      taken = e;
      reads =
          subst (λ b. Every (Reads buf es b) (strings c)) (sym same)
            (end_strings-Reads buf es (strings c) words);
      outside = λ k l.
          ap (λ b. b k) same
          ∙ end_strings-kept buf es (strings c) buf k (Every-outside buf es k (strings c) l words);
    }

-- `parsecmd` on a line that ends in NUL ends: either it panics, or it takes the whole line, and then
-- every string of its command is a word of the line that still reads the same and has a NUL behind
-- it, and nothing behind the line is changed.
pub parsecmd-Ends : (buf : Bytes) (es : ℕ) → buf es ≡ 0 → Ends (Done buf es) (parsecmd buf es)
unfolding parsecmd
parsecmd-Ends buf es ends = go (parse_line buf es 0) (parse_line-Ends buf es ends 0 (omega arith))
  where
    go :
        (r : Parse Cmd)
        → Ends (λ cmd s'. InLine buf es cmd × (s' ≡ es)) r
        → Ends (Done buf es) (elim r as (λ x. Parse (Cmd × Bytes)) [
          | parsed cmd s ↦ parsed (cmd, nulterminate cmd buf) s
          | syntax_error ↦ syntax_error
          | out_of_rounds ↦ out_of_rounds
        ])
    go (parsed cmd s) (at (i, e)) = at (nulterminate-Done buf es cmd s i e)
    go syntax_error h = fails
    go out_of_rounds h = elim h [ ]
