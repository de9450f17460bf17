-- ===== src/Shell/Runs.antt =====
-- Runs of the parser that end, and commands whose strings lie in the line.
use xmu_learning_os.Base.{
  Bool, Bytes, List, [], arith, false, if_both, refl, true, ℕ, ◌++◌, ◌+◌, ◌==◌, ◌∷◌, ◌≡◌, ◌≢◌, ◌≤◌,
}
use xmu_learning_os.Shell.{
  Cmd, Parse, Parser, Token, add_arg, back_cmd, exec_cmd, gettoken, list_cmd, out_of_rounds, parsed,
  peek, pipe_cmd, redir_cmd, redir_of, redircmd, syntax_error, word, ◌>>=◌,
}
use xmu_learning_os.Shell.Tokens.{IsNext, IsWord, gettoken-IsNext, peek-IsPeek}

-- A run that ends: with a result, of which `Q` holds, or with a panic.
pub data Ends {A : Type 0} (Q : A → ℕ → Type 0) : Parse A → Type 0 where
  at : {a : A} {s : ℕ} → Q a s → Ends Q (parsed a s)
  fails : Ends Q syntax_error

-- All strings of a command are words of the line.
abbrev pub AllSpans : Bytes → ℕ → List (ℕ × ℕ) → Type 0
AllSpans buf es [] = Unit {0}
AllSpans buf es (a ∷ args) = IsWord buf es a × AllSpans buf es args

abbrev pub InLine : Bytes → ℕ → Cmd → Type 0
InLine buf es (exec_cmd args) = AllSpans buf es args
InLine buf es (redir_cmd c file mode fd) = InLine buf es c × IsWord buf es file
InLine buf es (pipe_cmd l r) = InLine buf es l × InLine buf es r
InLine buf es (list_cmd l r) = InLine buf es l × InLine buf es r
InLine buf es (back_cmd c) = InLine buf es c

AllSpans-append :
    (buf : Bytes) (es : ℕ) (args : List (ℕ × ℕ)) (a : ℕ × ℕ)
    → AllSpans buf es args
    → IsWord buf es a
    → AllSpans buf es (args ++ a ∷ [])
AllSpans-append buf es [] a h i = (i, tt)
AllSpans-append buf es (b ∷ args) a (j, h) i = (j, AllSpans-append buf es args a h i)

pub add_arg-InLine :
    (buf : Bytes) (es : ℕ) (a : ℕ × ℕ) (c : Cmd)
    → InLine buf es c
    → IsWord buf es a
    → InLine buf es (add_arg a c)
unfolding add_arg
add_arg-InLine buf es a (exec_cmd args) h i = AllSpans-append buf es args a h i
add_arg-InLine buf es a (redir_cmd c file mode fd) (h, j) i = (add_arg-InLine buf es a c h i, j)
add_arg-InLine buf es a (pipe_cmd l r) h i = h
add_arg-InLine buf es a (list_cmd l r) h i = h
add_arg-InLine buf es a (back_cmd c) h i = h

-- A run whose first part is known, and a run that branches.
pub run-Ends :
    {A B : Type 0} {Q : B → ℕ → Type 0} (m : Parser A) (f : A → Parser B) (s : ℕ) {a : A} {s' : ℕ}
    → m s ≡ parsed a s'
    → Ends Q (f a s')
    → Ends Q ((m >>= f) s)
run-Ends m f s e h = rw (◌>>=◌, e) h

pub bind-Ends :
    {A B : Type 0} (P : A → ℕ → Type 0) {Q : B → ℕ → Type 0} (m : Parser A) (f : A → Parser B)
    (s : ℕ)
    → Ends P (m s)
    → ((a : A) (s' : ℕ) → P a s' → Ends Q (f a s'))
    → Ends Q ((m >>= f) s)
bind-Ends {A} {B} P {Q} m f s h k = go (m s) h
  where
    go :
        (r : Parse A)
        → Ends P r
        → Ends Q (elim r as (λ x. Parse B) [
          | parsed a s' ↦ f a s'
          | syntax_error ↦ syntax_error
          | out_of_rounds ↦ out_of_rounds
        ])
    go (parsed a s') (at h) = k a s' h
    go syntax_error h = fails
    go out_of_rounds h = elim h [ ]

pub either-Ends :
    {B : Type 0} {Q : B → ℕ → Type 0} (b : Bool) (x y : Parser B) (s : ℕ)
    → (b ≡ true → Ends Q (x s))
    → (b ≡ false → Ends Q (y s))
    → Ends Q ((elim b as (λ b. Parser B) [ true ↦ x | false ↦ y ]) s)
either-Ends true x y s h k = h refl
either-Ends false x y s h k = k refl

module _ (buf : Bytes) (es : ℕ) (ends : buf es ≡ 0) where
  -- A command after `s`, at least `k` characters on.
  abbrev pub Found : ℕ → ℕ → Cmd → ℕ → Type 0
  Found k s cmd s' = (s + k ≤ s') × (s' ≤ es) × InLine buf es cmd

  pub weaken :
      (k s k' s0 : ℕ) (r : Parse Cmd) → s0 + k' ≤ s + k → Ends (Found k s) r → Ends (Found k' s0) r
  weaken k s k' s0 (parsed a s') l (at (h, i, j)) = at (omega arith, i, j)
  weaken k s k' s0 syntax_error l h = fails
  weaken k s k' s0 out_of_rounds l h = elim h [ ]

  -- `peek` followed by a branch, and `gettoken`.
  pub peek-Ends :
      {B : Type 0} {Q : B → ℕ → Type 0} (toks : List ℕ) (x y : Parser B) (s : ℕ)
      → s ≤ es
      → ((s' : ℕ) → s ≤ s' → s' ≤ es → buf s' ≢ 0 → Ends Q (x s'))
      → ((s' : ℕ) → s ≤ s' → s' ≤ es → Ends Q (y s'))
      → Ends Q ((peek buf es toks >>= λ b. elim b as (λ b. Parser B) [ true ↦ x | false ↦ y ]) s)
  peek-Ends {B} toks x y s h k k' =
      let (b, s1, e, p) = peek-IsPeek buf es ends toks s h in
      run-Ends (peek buf es toks) (λ b. elim b as (λ b. Parser B) [ true ↦ x | false ↦ y ]) s e
        (either-Ends b x y s1 (λ t. k s1 p.after p.bounded (p.alive t))
          (λ f. k' s1 p.after p.bounded))

  pub token-Ends :
      {B : Type 0} {Q : B → ℕ → Type 0} (f : Token → Parser B) (s : ℕ)
      → s ≤ es
      → ((t : Token) (s' : ℕ) → IsNext buf es ends s t s' → Ends Q (f t s'))
      → Ends Q ((gettoken buf es >>= f) s)
  token-Ends f s h k =
      let (t, s', e, p) = gettoken-IsNext buf es ends s h in
      run-Ends (gettoken buf es) f s e (k t s' p)

  pub word_kind : (t : Token) → (t.kind == word) ≡ true → t.kind ≢ 0
  word_kind t e z = absurd (ground arith)

  -- The string of a word.
  pub word-IsWord :
      (s : ℕ) (t : Token) (s' : ℕ)
      → IsNext buf es ends s t s'
      → (t.kind == word) ≡ true
      → IsWord buf es (t.start, t.stop)
  word-IsWord s t s' p w = p.whole (ground arith)

  pub redir-InLine :
      (k : ℕ) (cmd : Cmd) (t : Token)
      → InLine buf es cmd
      → IsWord buf es (t.start, t.stop)
      → InLine buf es (redircmd buf es cmd (redir_of buf es k t))
  redir-InLine k cmd t i j =
      (i, if_both (λ (r : (ℕ × ℕ) × ℕ × ℕ). IsWord buf es (r.0)) (k == 60) _ _ (λ e. j) (λ e. j))
