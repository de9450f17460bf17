-- ===== src/Shell/Tokens.antt =====
-- How far `gettoken` and `peek` go.
use xmu_learning_os.Base.{
  Bool, Bool-cases, Bytes, List, ap, arith, false, if_both, inl, inr, refl, suc, sym, true, zero, ℕ,
  ◌+◌, ◌-◌, ◌<◌, ◌==◌, ◌∙◌, ◌≡◌, ◌≢◌, ◌≤◌, ◌⊎◌,
}
use xmu_learning_os.Shell.{
  Token, append, gettoken, greater, has, is_word, parsed, peek, single, skip, skip_spaces, token_at,
  whitespace, word,
}

module _ (buf : Bytes) where
  skip-bounds : (test : ℕ → Bool) (n s : ℕ) → (s ≤ skip buf test n s) × (skip buf test n s ≤ s + n)
  unfolding skip
  skip-bounds test zero s = omega arith
  skip-bounds test (suc n) s = ground (arith, skip-bounds test n (s + 1))

  skip-moves : (test : ℕ → Bool) (n s : ℕ) → test (buf s) ≡ true → 0 < n → s < skip buf test n s
  unfolding skip
  skip-moves test zero s e h = absurd (omega arith)
  skip-moves test (suc n) s e h = ground (arith, skip-bounds test n (s + 1))

  -- The run of characters that `skip` passes over, and where it stops.
  skip-run : (test : ℕ → Bool) (n s k : ℕ) → s ≤ k → k < skip buf test n s → test (buf k) ≡ true
  unfolding skip
  skip-run test zero s k a b = absurd (omega arith)
  skip-run test (suc n) s k a b =
      if_both (λ x. k < x → test (buf k) ≡ true) (test (buf s)) _ _
        (λ p b. elim (Bool-cases (k == s)) [
          | inl e ↦ ap (λ j. test (buf j)) (ground arith) ∙ p
          | inr e ↦ skip-run test n (s + 1) k (ground arith) b
        ])
        (λ p b. absurd (omega arith)) b

  skip-end :
      (test : ℕ → Bool) (n s : ℕ)
      → (skip buf test n s ≡ s + n) ⊎ (test (buf (skip buf test n s)) ≡ false)
  unfolding skip
  skip-end test zero s = inl (omega arith)
  skip-end test (suc n) s =
      if_both (λ x. (x ≡ s + suc n) ⊎ (test (buf x) ≡ false)) (test (buf s)) _ _
        (λ p. further (skip-end test n (s + 1))) inr
    where
      further :
          {x : ℕ}
          → (x ≡ s + 1 + n) ⊎ (test (buf x) ≡ false)
          → (x ≡ s + suc n) ⊎ (test (buf x) ≡ false)
      further (inl e) = inl (omega arith)
      further (inr e) = inr e

  -- A whole word in a line of `es` characters.
  pub record IsWord (es : ℕ) (a : ℕ × ℕ) : Type 0 where
    pub filled : a.0 < a.1
    pub bounded : a.1 ≤ es
    pub letters : (k : ℕ) → a.0 ≤ k → k < a.1 → is_word buf (buf k) ≡ true
    pub ended : (a.1 ≡ es) ⊎ (is_word buf (buf (a.1)) ≡ false)

  module _ (es : ℕ) (ends : buf es ≡ 0) where
    -- A character that begins a word.
    begins_word :
        (c : ℕ)
        → has whitespace c ≡ false
        → has single c ≡ false
        → (c == greater) ≡ false
        → is_word buf c ≡ true
    begins_word c w p g = ground arith

    in_line : (s : ℕ) → s ≤ es → (buf s == 0) ≡ false → s < es
    in_line s h e = elim (Bool-cases (s == es)) [
      | inl q ↦ let here : buf s ≡ 0 = ap buf (ground arith) ∙ ends in absurd (ground arith)
      | inr q ↦ ground arith
    ]

    no_word : (c : ℕ) → has single c ≡ true → c ≢ word
    no_word c p e = let z : false ≡ true = rw e at p in cc

    -- A token from `s` on.
    pub record IsToken (s : ℕ) (t : Token) : Type 0 where
      pub starts : t.start ≡ s
      pub ordered : s ≤ t.stop
      pub bounded : t.stop ≤ es
      pub moves : t.kind ≢ 0 → s < t.stop
      pub proceeds : buf s ≢ 0 → s < t.stop
      pub whole : t.kind ≡ word → IsWord es (t.start, t.stop)

    at_end :
        (s x : ℕ)
        → s ≤ es
        → (x ≡ s + (es - s)) ⊎ (is_word buf (buf x) ≡ false)
        → (x ≡ es) ⊎ (is_word buf (buf x) ≡ false)
    at_end s x h (inl e) = inl (omega arith)
    at_end s x h (inr e) = inr e

    token_at-IsToken :
        (s : ℕ) → s ≤ es → has whitespace (buf s) ≡ false → IsToken s (token_at buf es s)
    unfolding token_at
    token_at-IsToken s h w =
        if_both (IsToken s) (buf s == 0) _ _ (λ z. still (ground arith))
          λ z.
            if_both (IsToken s) (has single (buf s)) _ _
              (λ p. by_one (buf s) (no_word (buf s) p) (in_line s h z))
              λ p.
                if_both (IsToken s) (buf s == greater) _ _
                  (λ g.
                    if_both (IsToken s) (buf (s + 1) == greater) _ _
                      (λ g'.
                        by_two
                          (in_line (s + 1) (let l = in_line s h z in omega arith) (ground arith)))
                      (λ g'. by_one greater (λ e. cc) (in_line s h z)))
                  (λ g. by_word (in_line s h z) (begins_word (buf s) w p g))
      where
        still : buf s ≡ 0 → IsToken s (record { kind = 0; start = s; stop = s })
        still z = record {
          starts = refl;
          ordered = omega arith;
          bounded = h;
          moves = λ n. absurd (n refl);
          proceeds = λ n. absurd (n z);
          whole = λ e. cc;
        }

        by_one :
            (k : ℕ) → k ≢ word → s < es → IsToken s (record { kind = k; start = s; stop = s + 1 })
        by_one k d l = record {
          starts = refl;
          ordered = omega arith;
          bounded = omega arith;
          moves = λ n. omega arith;
          proceeds = λ n. omega arith;
          whole = λ e. absurd (d e);
        }

        by_two : s + 1 < es → IsToken s (record { kind = append; start = s; stop = s + 2 })
        by_two l = record {
          starts = refl;
          ordered = omega arith;
          bounded = omega arith;
          moves = λ n. omega arith;
          proceeds = λ n. omega arith;
          whole = λ e. cc;
        }

        by_word :
            s < es
            → is_word buf (buf s) ≡ true
            → IsToken s
                (record { kind = word; start = s; stop = skip buf (is_word buf) (es - s) s })
        by_word l c =
            let (low, high) = skip-bounds (is_word buf) (es - s) s in
            let far = skip-moves (is_word buf) (es - s) s c (omega arith) in
            record {
              starts = refl;
              ordered = low;
              bounded = omega arith;
              moves = λ n. far;
              proceeds = λ n. far;
              whole = λ e. record {
                filled = far;
                bounded = omega arith;
                letters = skip-run (is_word buf) (es - s) s;
                ended = at_end s _ h (skip-end (is_word buf) (es - s) s);
              };
            }

    skip_spaces-bounds : (s : ℕ) → s ≤ es → (s ≤ skip_spaces buf es s) × (skip_spaces buf es s ≤ es)
    skip_spaces-bounds s h =
        let (low, high) = skip-bounds (has whitespace) (es - s) s in (low, omega arith)

    -- Where the spaces end.
    skip-stops :
        (test : ℕ → Bool) (n s : ℕ)
        → test 0 ≡ false
        → s + n ≡ es
        → test (buf (skip buf test n s)) ≡ false
    unfolding skip
    skip-stops test zero s z e = ap test (ap buf (omega arith) ∙ ends) ∙ z
    skip-stops test (suc n) s z e =
        if_both (λ x. test (buf x) ≡ false) (test (buf s)) _ _
          (λ p. skip-stops test n (s + 1) z (omega arith)) (λ p. p)

    -- What `gettoken` comes to from `s` on: a token in the line, and the position after it.
    pub record IsNext (s : ℕ) (t : Token) (s' : ℕ) : Type 0 where
      pub after : s ≤ s'
      pub before : t.stop ≤ es
      pub bounded : s' ≤ es
      pub filled : t.kind ≢ 0 → (t.start < t.stop) × (s < s')
      pub proceeds : buf s ≢ 0 → s < s'
      pub whole : t.kind ≡ word → IsWord es (t.start, t.stop)

    token-IsNext :
        (s s1 : ℕ) (t : Token) (s' : ℕ)
        → s ≤ s1
        → IsToken s1 t
        → t.stop ≤ s'
        → s' ≤ es
        → IsNext s t s'
    token-IsNext s s1 t s' low i l h =
        let begins = i.starts in
        let ordered = i.ordered in
        record {
          after = omega arith;
          before = i.bounded;
          bounded = h;
          whole = i.whole;
          filled = λ n. (let m = i.moves n in (omega arith, omega arith));
          proceeds = λ n. elim (Bool-cases (s1 == s)) [
            | inl e ↦
                let same : s1 ≡ s = ground arith in
                let m = i.proceeds (λ z. n (ap buf (sym same) ∙ z)) in omega arith
            | inr e ↦ ground arith
          ];
        }

    pub gettoken-IsNext :
        (s : ℕ)
        → s ≤ es
        → (t : Token) × (s' : ℕ) × (gettoken buf es s ≡ parsed t s') × IsNext s t s'
    unfolding gettoken
    gettoken-IsNext s h =
        let s1 = skip_spaces buf es s in
        let (low, high) = skip_spaces-bounds s h in
        let i =
          token_at-IsToken s1 high (skip-stops (has whitespace) (es - s) s refl (omega arith)) in
        let t = token_at buf es s1 in
        let (low', high') = skip_spaces-bounds t.stop i.bounded in
        (t, skip_spaces buf es t.stop, refl, token-IsNext s s1 t _ low i low' high')

    -- `peek` passes over spaces, and where it says yes the next token is not the end.
    pub record IsPeek (s : ℕ) (b : Bool) (s' : ℕ) : Type 0 where
      pub after : s ≤ s'
      pub bounded : s' ≤ es
      pub alive : b ≡ true → buf s' ≢ 0

    pub peek-IsPeek :
        (toks : List ℕ) (s : ℕ)
        → s ≤ es
        → (b : Bool) × (s' : ℕ) × (peek buf es toks s ≡ parsed b s') × IsPeek s b s'
    unfolding peek
    peek-IsPeek toks s h =
        let s1 = skip_spaces buf es s in
        let (low, high) = skip_spaces-bounds s h in
        (_, s1, refl, record { after = low; bounded = high; alive = λ e z. absurd (ground arith) })
