-- ===== src/Lsh/Words.antt =====
-- The loop of `main` in Lab/code/lsh.c reads the words of the line, and ends.
use xmu_learning_os.Base.{
  Bool, Bool-cases, List, Option, Option-cases, [], ap, arith, drop, false, if◌then◌else◌, inl, inr,
  length, length-drop, none, not, refl, some, suc, sym, take, zero, ℕ, ◌+◌, ◌<◌, ◌∙◌, ◌∷◌, ◌≡◌, ◌≤◌,
  ◌⊎◌,
}
use xmu_learning_os.Lsh.{
  Line, add_token, delimiters, empty_line, read_command, read_tokens, skip_delimiters, strcspn,
  strtok,
}
use xmu_learning_os.Shell.{has}

is_delimiter : ℕ → Bool
is_delimiter c = has delimiters c

-- Does a word go on here?
goes_on : List ℕ → Bool
unfolding is_delimiter
goes_on [] = false
goes_on (c ∷ s) = not (is_delimiter c)

-- A character in front of the first word.
abbrev put_first : ℕ → List (List ℕ) → List (List ℕ)
put_first c [] = (c ∷ []) ∷ []
put_first c (w ∷ ws) = (c ∷ w) ∷ ws

-- The words of a line: the longest runs without a delimiter, in order.
unfoldable pub words_of : List ℕ → List (List ℕ)
unfolding is_delimiter goes_on
words_of [] = []
words_of (c ∷ s) =
    let ws = words_of s in
    if is_delimiter c then ws else if goes_on s then put_first c ws else (c ∷ []) ∷ ws

-- Every word added to the command, in order.
unfoldable pub add_all : List (List ℕ) → Line → Option Line
add_all [] l = some l
add_all (w ∷ ws) l = elim (add_token w l) [ none ↦ none | some l' ↦ add_all ws l' ]

words_of-skip : (s : List ℕ) → words_of (skip_delimiters s delimiters) ≡ words_of s
unfolding words_of skip_delimiters is_delimiter
words_of-skip [] = refl
words_of-skip (c ∷ s) = ground (arith, words_of-skip s)

List-cases : (s : List ℕ) → (s ≡ []) ⊎ ((c : ℕ) × (t : List ℕ) × (s ≡ c ∷ t))
List-cases [] = inl refl
List-cases (c ∷ t) = inr (c, t, refl)

skip_lem :
    (s : List ℕ) (c : ℕ) (t : List ℕ)
    → skip_delimiters s delimiters ≡ c ∷ t
    → (is_delimiter c ≡ false) × (length t < length s)
unfolding skip_delimiters is_delimiter
skip_lem [] c t e = cc
skip_lem (d ∷ s) c t e = ground (arith, skip_lem s c t)

-- A word is what `strcspn` counts, and the other words are after it.
words_of-word :
    (c : ℕ) (s : List ℕ)
    → is_delimiter c ≡ false
    → let n = strcspn s delimiters in words_of (c ∷ s) ≡ (c ∷ take n s) ∷ words_of (drop (n + 1) s)
unfolding words_of strcspn is_delimiter goes_on
words_of-word c [] h = ground arith
words_of-word c (d ∷ s) h = elim (Bool-cases (is_delimiter d)) [
  | inl e ↦ ground arith
  | inr e ↦ ground (arith, words_of-word d s e)
]

-- `strtok` gives the first word and what follows it.
strtok-none :
    (s : List ℕ)
    → skip_delimiters s delimiters ≡ []
    → (strtok s delimiters ≡ none) × (words_of s ≡ [])
unfolding strtok words_of
strtok-none s e = (rw (e, strtok) refl, sym (words_of-skip s) ∙ ap words_of e)

strtok-some :
    (s : List ℕ) (c : ℕ) (t : List ℕ)
    → skip_delimiters s delimiters ≡ c ∷ t
    → let n = strcspn t delimiters in
      (strtok s delimiters ≡ some (c ∷ take n t, drop (n + 1) t))
      × (words_of s ≡ (c ∷ take n t) ∷ words_of (drop (n + 1) t))
      × (length (drop (n + 1) t) < length s)
unfolding strtok strcspn is_delimiter
strtok-some s c t e =
    let (h, l) = skip_lem s c t e in
    (
      ground (arith, h),
      sym (words_of-skip s) ∙ ap words_of e ∙ words_of-word c t h,
      omega (arith, l, length-drop (strcspn t delimiters + 1) t),
    )

read_tokens_lem :
    (n : ℕ) (s : List ℕ) (l : Line) → length s ≤ n → read_tokens n s l ≡ add_all (words_of s) l
unfolding read_tokens add_all words_of
read_tokens_lem zero [] l h = refl
read_tokens_lem zero (c ∷ s) l h = absurd (omega arith)
read_tokens_lem (suc n) s l h = elim (List-cases (skip_delimiters s delimiters)) [
  | inl e ↦ let (a, b) = strtok-none s e in rw (a, b, read_tokens) refl
  | inr (c, t, e) ↦
      let m = strcspn t delimiters in
      let (a, b, k) = strtok-some s c t e in
      elim (Option-cases (add_token (c ∷ take m t) l)) [
        | inl none_left ↦ rw (a, b, none_left, read_tokens, add_all) refl
        | inr (l2, added) ↦
            rw (a, b, added, read_tokens, add_all)
              (read_tokens_lem n (drop (m + 1) t) l2 (omega (arith, k)))
      ]
]

-- The loop over `strtok` ends, and what it makes of a line is what its words make, one by one: the
-- words are the longest runs of characters that are no delimiters, in order.
pub read_command_lem : (s : List ℕ) → read_command s ≡ add_all (words_of s) empty_line
unfolding read_command
read_command_lem s = read_tokens_lem (length s) s empty_line (omega arith)
