-- ===== src/Tests/UserTests.antt =====
-- The theorems on user programs at concrete inputs.
use xmu_learning_os.Base.{Bytes, List, [], arith, get_or, refl, true, ℕ, ◌↔◌, ◌∷◌, ◌≡◌}
use xmu_learning_os.Grep.{match, match_one, matchhere, matchstar}
use xmu_learning_os.Grep.Matching.{Found, match_iff}
use xmu_learning_os.Lsh.{empty_line, read_command}
use xmu_learning_os.Lsh.Words.{add_all, read_command_lem, words_of}
use xmu_learning_os.Printf.{atoi, printint}
use xmu_learning_os.Printf.Numbers.{atoi-printint}
use xmu_learning_os.Shell.{
  add_arg, exec_cmd, gettoken, parse_line, parseargs, parsebacks, parseblock, parsecmd, parsed,
  parseexec, parseline, parsepipe, parseredirs, peek, pipe_cmd, redir_cmd, skip, token_at,
}
use xmu_learning_os.Shell.Lines.{Done, parsecmd-Ends}
use xmu_learning_os.Shell.Runs.{Ends}

-- `grep` for `^ab*.$` in `abbbc`.
match_iff_example :
    (match (94 ∷ 97 ∷ 98 ∷ 42 ∷ 46 ∷ 36 ∷ []) (97 ∷ 98 ∷ 98 ∷ 98 ∷ 99 ∷ []) ≡ true)
    ↔ Found (94 ∷ 97 ∷ 98 ∷ 42 ∷ 46 ∷ 36 ∷ []) (97 ∷ 98 ∷ 98 ∷ 98 ∷ 99 ∷ [])
match_iff_example = match_iff (94 ∷ 97 ∷ 98 ∷ 42 ∷ 46 ∷ 36 ∷ []) (97 ∷ 98 ∷ 98 ∷ 98 ∷ 99 ∷ [])

match_test : match (94 ∷ 97 ∷ 98 ∷ 42 ∷ 46 ∷ 36 ∷ []) (97 ∷ 98 ∷ 98 ∷ 98 ∷ 99 ∷ []) ≡ true
unfolding match matchhere matchstar match_one
match_test = refl

-- The line `a b|c>d`.
abbrev line : Bytes
line k = get_or (97 ∷ 32 ∷ 98 ∷ 124 ∷ 99 ∷ 62 ∷ 100 ∷ []) k 0

parsecmd-Ends_example : Ends (Done line 7) (parsecmd line 7)
parsecmd-Ends_example = parsecmd-Ends line 7 refl

parse_test :
    parse_line line 7 0
    ≡ parsed
        (pipe_cmd
          (exec_cmd ((0, 1) ∷ (2, 3) ∷ []))
          (redir_cmd (exec_cmd ((4, 5) ∷ [])) (6, 7) 513 1))
        7
unfolding parse_line parseline parsepipe parseexec parseblock parseredirs parseargs parsebacks peek
    gettoken token_at skip add_arg
parse_test = refl

-- The number 307.
atoi-printint_example : atoi (printint 307 10 true) ≡ 307
atoi-printint_example = atoi-printint 307 (omega arith)

-- The line `wc < f`.
abbrev lsh_line : List ℕ
lsh_line = 119 ∷ 99 ∷ 32 ∷ 60 ∷ 32 ∷ 102 ∷ 10 ∷ []

read_command_lem_example : read_command lsh_line ≡ add_all (words_of lsh_line) empty_line
read_command_lem_example = read_command_lem lsh_line

words_test : words_of lsh_line ≡ (119 ∷ 99 ∷ []) ∷ (60 ∷ []) ∷ (102 ∷ []) ∷ []
unfolding words_of
words_test = refl
