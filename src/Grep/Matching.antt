-- ===== src/Grep/Matching.antt =====
-- The matcher decides an inductive relation between the items of a pattern and the text.
use xmu_learning_os.Base.{
  Bool, Bool-cases, List, [], ap, arith, false, if◌then◌else◌, inl, inr, refl, sym, true, ℕ, ◌==◌,
  ◌||◌, ◌↔◌, ◌∙◌, ◌∷◌, ◌≡◌, ◌≢◌,
}
use xmu_learning_os.Grep.{
  asterisk, at_end, dollar, fits, full_stop, hat, match, match_from, match_one, matchhere,
  matchstar,
}
use mathlib.Core.Path.{subst}

-- An item: one character, any number of them, or the end of the text.
pub data Item : Type 0 where
  one many : ℕ → Item
  end : Item

-- A `$` is an item of its own at the end only, and a `*` belongs to the character before it.
unfoldable pub items : List ℕ → List Item
items [] = []
items (c ∷ []) = if c == dollar then end ∷ [] else one c ∷ []
items (c ∷ d ∷ re) =
    let rest = items (d ∷ re) in
    let after = items re in if d == asterisk then many c ∷ after else one c ∷ rest

-- A character of a pattern stands for a character of the text.
pub data Fits : ℕ → ℕ → Type 0 where
  itself : {c : ℕ} → Fits c c
  any : {x : ℕ} → Fits full_stop x

-- The text starts with something that matches the items.
pub data Starts : List Item → List ℕ → Type 0 where
  done : {t : List ℕ} → Starts [] t
  ends : Starts (end ∷ []) []
  takes :
      {c x : ℕ} {p : List Item} {t : List ℕ} → Fits c x → Starts p t → Starts (one c ∷ p) (x ∷ t)
  leaves : {c : ℕ} {p : List Item} {t : List ℕ} → Starts p t → Starts (many c ∷ p) t
  repeats :
      {c x : ℕ} {p : List Item} {t : List ℕ}
      → Fits c x
      → Starts (many c ∷ p) t
      → Starts (many c ∷ p) (x ∷ t)

-- Some suffix of the text starts with a match.
pub data Contains (p : List Item) : List ℕ → Type 0 where
  now : {t : List ℕ} → Starts p t → Contains p t
  later : {x : ℕ} {t : List ℕ} → Contains p t → Contains p (x ∷ t)

-- What a pattern asks for.
pub data Found : List ℕ → List ℕ → Type 0 where
  anchored : {re text : List ℕ} → Starts (items re) text → Found (hat ∷ re) text
  anywhere :
      {re text : List ℕ}
      → ((re' : List ℕ) → re ≢ hat ∷ re')
      → Contains (items re) text
      → Found re text

fits-Fits : (c x : ℕ) → fits c x ≡ true → Fits c x
fits-Fits c x e = elim (Bool-cases (c == x)) [
  | inl s ↦ subst (λ y. Fits c y) (ground arith) itself
  | inr d ↦ subst (λ y. Fits y x) (ground arith) any
]

Fits-fits : {c x : ℕ} → Fits c x → fits c x ≡ true
Fits-fits {c} itself = ground arith
Fits-fits {x} any = ground arith

-- The test that `matchstar` makes.
fits_either : (c x : ℕ) → ((x == c) || (c == full_stop)) ≡ fits c x
fits_either c x = ground arith

module _ (p : List Item) (here : List ℕ → Bool) where
  -- `here` decides whether a text starts with a match.
  module _ (sound : (t : List ℕ) → here t ≡ true → Starts p t) where
    matchstar-Starts : (c : ℕ) (t : List ℕ) → matchstar c here t ≡ true → Starts (many c ∷ p) t
    unfolding matchstar
    matchstar-Starts c [] e = leaves (sound [] e)
    matchstar-Starts c (x ∷ t) e = elim (Bool-cases (here (x ∷ t))) [
      | inl h ↦ leaves (sound (x ∷ t) h)
      | inr h ↦ repeats (fits-Fits c x (ground arith)) (matchstar-Starts c t (ground arith))
    ]

    match_one-Starts : (c : ℕ) (t : List ℕ) → match_one c here t ≡ true → Starts (one c ∷ p) t
    unfolding match_one
    match_one-Starts c [] e = cc
    match_one-Starts c (x ∷ t) e = takes (fits-Fits c x (ground arith)) (sound t (ground arith))

  module _ (complete : (t : List ℕ) → Starts p t → here t ≡ true) where
    Starts-matchstar : (c : ℕ) (t : List ℕ) → Starts (many c ∷ p) t → matchstar c here t ≡ true
    unfolding matchstar
    Starts-matchstar c [] (leaves d) = complete [] d
    Starts-matchstar c (x ∷ t) (leaves d) = rw (complete (x ∷ t) d)
    Starts-matchstar c (x ∷ t) (repeats f d) =
        ground (arith, Starts-matchstar c t d, fits_either c x, Fits-fits f)

    Starts-match_one : (c : ℕ) (t : List ℕ) → Starts (one c ∷ p) t → match_one c here t ≡ true
    unfolding match_one
    Starts-match_one c [] d = elim d [ ]
    Starts-match_one c (x ∷ t) (takes f d) = ground (arith, Fits-fits f, complete t d)

-- The two cases of a pattern with two characters or more, and those of one with one.
module _ (c d : ℕ) (re : List ℕ) where
  items-many : (d == asterisk) ≡ true → items (c ∷ d ∷ re) ≡ many c ∷ items re
  unfolding items
  items-many e = ground arith

  items-one : (d == asterisk) ≡ false → items (c ∷ d ∷ re) ≡ one c ∷ items (d ∷ re)
  unfolding items
  items-one e = ground arith

  matchhere-many :
      (t : List ℕ)
      → (d == asterisk) ≡ true
      → matchhere (c ∷ d ∷ re) t ≡ matchstar c (matchhere re) t
  unfolding matchhere
  matchhere-many t e = ground arith

  matchhere-one :
      (t : List ℕ)
      → (d == asterisk) ≡ false
      → matchhere (c ∷ d ∷ re) t ≡ match_one c (matchhere (d ∷ re)) t
  unfolding matchhere
  matchhere-one t e = ground arith

at_end-Starts : (t : List ℕ) → at_end t ≡ true → Starts (end ∷ []) t
at_end-Starts [] e = ends
at_end-Starts (x ∷ t) e = cc

Starts-at_end : (t : List ℕ) → Starts (end ∷ []) t → at_end t ≡ true
Starts-at_end [] d = refl
Starts-at_end (x ∷ t) d = elim d [ ]

-- The cases of a pattern with one character.
module _ (c : ℕ) where
  items-end : (c == dollar) ≡ true → items (c ∷ []) ≡ end ∷ []
  unfolding items
  items-end e = ground arith

  items-last : (c == dollar) ≡ false → items (c ∷ []) ≡ one c ∷ []
  unfolding items
  items-last e = ground arith

  matchhere-end : (t : List ℕ) → (c == dollar) ≡ true → matchhere (c ∷ []) t ≡ at_end t
  unfolding matchhere
  matchhere-end t e = ground arith

  matchhere-last :
      (t : List ℕ) → (c == dollar) ≡ false → matchhere (c ∷ []) t ≡ match_one c (λ t. true) t
  unfolding matchhere
  matchhere-last t e = ground arith

  last-Starts : (t : List ℕ) → matchhere (c ∷ []) t ≡ true → Starts (items (c ∷ [])) t
  last-Starts t e = elim (Bool-cases (c == dollar)) [
    | inl s ↦
        subst (λ p. Starts p t) (sym (items-end s)) (at_end-Starts t (sym (matchhere-end t s) ∙ e))
    | inr n ↦
        subst (λ p. Starts p t) (sym (items-last n))
          (match_one-Starts [] (λ t. true) (λ t e. done) c t (sym (matchhere-last t n) ∙ e))
  ]

  Starts-last : (t : List ℕ) → Starts (items (c ∷ [])) t → matchhere (c ∷ []) t ≡ true
  Starts-last t e = elim (Bool-cases (c == dollar)) [
    | inl s ↦ matchhere-end t s ∙ Starts-at_end t (subst (λ p. Starts p t) (items-end s) e)
    | inr n ↦
        matchhere-last t n
        ∙ Starts-match_one [] (λ t. true) (λ t e. refl) c t
            (subst (λ p. Starts p t) (items-last n) e)
  ]

matchhere-Starts : (re t : List ℕ) → matchhere re t ≡ true → Starts (items re) t
unfolding items
matchhere-Starts [] t e = done
matchhere-Starts (c ∷ []) t e = last-Starts c t e
matchhere-Starts (c ∷ d ∷ re) t e = elim (Bool-cases (d == asterisk)) [
  | inl s ↦
      subst (λ p. Starts p t) (sym (items-many c d re s))
        (matchstar-Starts (items re) (matchhere re) (matchhere-Starts re) c t
          (sym (matchhere-many c d re t s) ∙ e))
  | inr n ↦
      subst (λ p. Starts p t) (sym (items-one c d re n))
        (match_one-Starts (items (d ∷ re)) (matchhere (d ∷ re)) (matchhere-Starts (d ∷ re)) c t
          (sym (matchhere-one c d re t n) ∙ e))
]

Starts-matchhere : (re t : List ℕ) → Starts (items re) t → matchhere re t ≡ true
unfolding matchhere
Starts-matchhere [] t e = refl
Starts-matchhere (c ∷ []) t e = Starts-last c t e
Starts-matchhere (c ∷ d ∷ re) t e = elim (Bool-cases (d == asterisk)) [
  | inl s ↦
      matchhere-many c d re t s
      ∙ Starts-matchstar (items re) (matchhere re) (Starts-matchhere re) c t
          (subst (λ p. Starts p t) (items-many c d re s) e)
  | inr n ↦
      matchhere-one c d re t n
      ∙ Starts-match_one (items (d ∷ re)) (matchhere (d ∷ re)) (Starts-matchhere (d ∷ re)) c t
          (subst (λ p. Starts p t) (items-one c d re n) e)
]

match_from-Contains : (re t : List ℕ) → match_from re t ≡ true → Contains (items re) t
unfolding match_from
match_from-Contains re [] e = now (matchhere-Starts re [] e)
match_from-Contains re (x ∷ t) e = elim (Bool-cases (matchhere re (x ∷ t))) [
  | inl h ↦ now (matchhere-Starts re (x ∷ t) h)
  | inr h ↦ later (match_from-Contains re t (ground arith))
]

Contains-match_from : (re t : List ℕ) → Contains (items re) t → match_from re t ≡ true
unfolding match_from
Contains-match_from re [] (now d) = Starts-matchhere re [] d
Contains-match_from re (x ∷ t) (now d) = rw (Starts-matchhere re (x ∷ t) d)
Contains-match_from re (x ∷ t) (later d) = ground (arith, Contains-match_from re t d)

match-anchored : (re t : List ℕ) → match (hat ∷ re) t ≡ matchhere re t
unfolding match
match-anchored re t = refl

match-anywhere : (re t : List ℕ) → ((re' : List ℕ) → re ≢ hat ∷ re') → match re t ≡ match_from re t
unfolding match
match-anywhere [] t h = refl
match-anywhere (c ∷ re) t h = elim (Bool-cases (c == hat)) [
  | inl s ↦ absurd (h re (ap (λ x. x ∷ re) (ground arith)))
  | inr n ↦ ground arith
]

no_hat : (c : ℕ) (re re' : List ℕ) → (c == hat) ≡ false → c ∷ re ≢ hat ∷ re'
no_hat c re re' n e = let same : c ≡ hat = cc in absurd (ground arith)

match-Found : (re t : List ℕ) → match re t ≡ true → Found re t
match-Found [] t e =
    anywhere (λ re' q. cc) (match_from-Contains [] t (sym (match-anywhere [] t (λ re' q. cc)) ∙ e))
match-Found (c ∷ re) t e = elim (Bool-cases (c == hat)) [
  | inl s ↦
      let same : c ≡ hat = ground arith in
      subst (λ x. Found (x ∷ re) t) (sym same)
        (anchored (
          matchhere-Starts re t
            (sym (match-anchored re t) ∙ ap (λ x. match (x ∷ re) t) (sym same) ∙ e)))
  | inr n ↦
      let free : (re' : List ℕ) → c ∷ re ≢ hat ∷ re' = λ re'. no_hat c re re' n in
      anywhere free (match_from-Contains (c ∷ re) t (sym (match-anywhere (c ∷ re) t free) ∙ e))
]

Found-match : (re t : List ℕ) → Found re t → match re t ≡ true
Found-match re t (anchored {re = re'} d) = match-anchored re' t ∙ Starts-matchhere re' t d
Found-match re t (anywhere h d) = match-anywhere re t h ∙ Contains-match_from re t d

-- `match` returns 1 exactly where the text has what the pattern asks for: a match at its start after
-- `^`, and otherwise a match anywhere.
pub match_iff : (re t : List ℕ) → (match re t ≡ true) ↔ Found re t
match_iff re t = (match-Found re t, Found-match re t)
