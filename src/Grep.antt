-- ===== src/Grep.antt =====
-- Lab/code/grep.c: the matcher, and the lines of a buffer. A string is the list of its characters up
-- to the NUL.
pub mod Matching
use xmu_learning_os.Base.{Bool, List, [], false, if◌then◌else◌, true, ℕ, ◌++◌, ◌==◌, ◌||◌, ◌∷◌}

abbrev pub hat : ℕ
hat = 94

abbrev pub full_stop : ℕ
full_stop = 46

abbrev pub asterisk : ℕ
asterisk = 42

abbrev pub dollar : ℕ
dollar = 36

abbrev pub newline : ℕ
newline = 10

-- `c == '.' || c == x`
abbrev pub fits : ℕ → ℕ → Bool
fits c x = (c == full_stop) || (c == x)

-- `matchstar(c, re, text)`, where `here` is `matchhere(re, ...)`.
unfoldable pub matchstar : ℕ → (List ℕ → Bool) → List ℕ → Bool
matchstar c here [] = here []
matchstar c here (x ∷ text) =
    let rest = matchstar c here text in
    if here (x ∷ text) then true else if (x == c) || (c == full_stop) then rest else false

-- The last case of `matchhere`: one character, and `here` is `matchhere(re+1, ...)`.
unfoldable pub match_one : ℕ → (List ℕ → Bool) → List ℕ → Bool
match_one c here [] = false
match_one c here (x ∷ text) = if fits c x then here text else false

abbrev pub at_end : List ℕ → Bool
at_end [] = true
at_end (x ∷ text) = false

unfoldable pub matchhere : List ℕ → List ℕ → Bool
unfolding matchstar match_one
matchhere [] text = true
matchhere (c ∷ []) text = if c == dollar then at_end text else match_one c (λ t. true) text
matchhere (c ∷ d ∷ re) text =
    let star = matchstar c (matchhere re) text in
    let one = match_one c (matchhere (d ∷ re)) text in if d == asterisk then star else one

-- The loop of `match`.
unfoldable pub match_from : List ℕ → List ℕ → Bool
unfolding matchhere
match_from re [] = matchhere re []
match_from re (x ∷ text) =
    let rest = match_from re text in if matchhere re (x ∷ text) then true else rest

unfoldable pub match : List ℕ → List ℕ → Bool
unfolding matchhere match_from
match [] text = match_from [] text
match (c ∷ re) text = if c == hat then matchhere re text else match_from (c ∷ re) text

-- The loop over the lines of the buffer: what is written, and what is left after the last newline.
-- `line` is what stands before the buffer's rest in its line. A NUL ends the buffer's string, and
-- `seen` tells whether a newline has been found.
unfoldable pub grep_lines : List ℕ → List ℕ → List ℕ → Bool → List ℕ × List ℕ × Bool
unfolding match
grep_lines re line [] seen = ([], line, seen)
grep_lines re line (c ∷ cs) seen =
    let next = grep_lines re [] cs true in
    let stay = grep_lines re (line ++ c ∷ []) cs seen in
    if c == 0
    then ([], line ++ c ∷ cs, seen)
    else if c == newline
    then (if match re line then line ++ newline ∷ next.0 else next.0, next.1, next.2)
    else stay

-- A round of `grep` with the `n` bytes that `read` returned after the `m` kept ones: what is written
-- and what is kept. Where no newline was found, nothing is kept.
unfoldable pub grep_round : List ℕ → List ℕ → List ℕ → List ℕ × List ℕ
unfolding grep_lines
grep_round re kept got =
    let (out, rest, seen) = grep_lines re [] (kept ++ got) false in (out, if seen then rest else [])
