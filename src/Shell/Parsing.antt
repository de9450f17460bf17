-- ===== src/Shell/Parsing.antt =====
-- The parser of the shell ends, and the strings of its command lie in the line.
use xmu_learning_os.Base.{
  Bytes, [], arith, leb, not, suc, true, zero, ℕ, ◌+◌, ◌<◌, ◌==◌, ◌||◌, ◌∷◌, ◌≡◌, ◌≤◌,
}
use xmu_learning_os.Shell.{
  Cmd, Parser, back_cmd, exec_cmd, maxargs, parseargs, parsebacks, parseblock, parseexec, parseline,
  parsepipe, parseredirs, word,
}
use xmu_learning_os.Shell.Runs.{
  Ends, Found, InLine, add_arg-InLine, at, bind-Ends, either-Ends, fails, peek-Ends, redir-InLine,
  token-Ends, weaken, word-IsWord, word_kind,
}

module _ (buf : Bytes) (es : ℕ) (ends : buf es ≡ 0) where
  parseredirs-Ends :
      (n : ℕ) (cmd : Cmd) (s : ℕ)
      → s ≤ es
      → es < s + n
      → InLine buf es cmd
      → Ends (Found buf es ends 0 s) (parseredirs buf es n cmd s)
  unfolding parseredirs
  parseredirs-Ends zero cmd s h l i = absurd (omega arith)
  parseredirs-Ends (suc n) cmd s h l i =
      peek-Ends buf es ends (60 ∷ 62 ∷ []) _ _ s h
        (λ s1 low high alive. token-Ends buf es ends _ s1 high λ tok s2 p.
          token-Ends buf es ends _ s2 p.bounded λ t s3 q.
            let further = p.proceeds alive in
            let onward = q.after in
            either-Ends (t.kind == word) _ _ s3
              (λ w. weaken buf es ends 0 s3 0 s _ (omega arith) (
                parseredirs-Ends n _ s3 q.bounded (omega arith) (
                  redir-InLine buf es ends tok.kind cmd t i (word-IsWord buf es ends s2 t s3 q w))))
              (λ w. fails))
        (λ s1 low high. at (omega arith, high, i))

  parseargs-Ends :
      (n argc : ℕ) (ret : Cmd) (s : ℕ)
      → s ≤ es
      → es < s + n
      → InLine buf es ret
      → Ends (Found buf es ends 0 s) (parseargs buf es n argc ret s)
  unfolding parseargs
  parseargs-Ends zero argc ret s h l i = absurd (omega arith)
  parseargs-Ends (suc n) argc ret s h l i =
      peek-Ends buf es ends (124 ∷ 41 ∷ 38 ∷ 59 ∷ []) _ _ s h
        (λ s1 low high alive. at (omega arith, high, i))
        (λ s1 low high. token-Ends buf es ends _ s1 high λ t s2 p.
          let onward = p.after in
          either-Ends (t.kind == 0) _ _ s2 (λ z. at (omega arith, p.bounded, i))
            (λ z.
              either-Ends (not (t.kind == word) || leb maxargs (argc + 1)) _ _ s2 (λ w. fails)
                (λ w.
                  let is_word : (t.kind == word) ≡ true = ground arith in
                  let (filled, further) = p.filled (word_kind buf es ends t is_word) in
                  bind-Ends (Found buf es ends 0 s2) (parseredirs buf es (suc n) _) _ s2
                    (parseredirs-Ends (suc n) _ s2 p.bounded (omega arith)
                      (add_arg-InLine buf es (t.start, t.stop) ret i (p.whole (ground arith))))
                    λ ret' s3 (low', high', i').
                      weaken buf es ends 0 s3 0 s _ (omega arith)
                        (parseargs-Ends n (argc + 1) ret' s3 high' (omega arith) i'))))

  -- `line` is `parseline` where `n` characters are left at most.
  module _ (line : Parser Cmd) (n : ℕ)
      (line-Ends : (s : ℕ) → s ≤ es → es < s + n → Ends (Found buf es ends 0 s) (line s)) where
    parseblock-Ends :
        (m s : ℕ)
        → s ≤ es
        → es < s + m
        → es < s + suc n
        → Ends (Found buf es ends 0 s) (parseblock buf es line m s)
    unfolding parseblock
    parseblock-Ends m s h l l' =
        peek-Ends buf es ends (40 ∷ []) _ _ s h
          (λ s1 low high alive. token-Ends buf es ends _ s1 high λ t s2 p.
            let further = p.proceeds alive in
            bind-Ends (Found buf es ends 0 s2) line _ s2 (line-Ends s2 p.bounded (omega arith))
              λ cmd s3 (low', high', i).
                peek-Ends buf es ends (41 ∷ []) _ _ s3 high'
                  (λ s4 low'' high'' alive'. token-Ends buf es ends _ s4 high'' λ t' s5 q.
                    let onward = q.after in
                    weaken buf es ends 0 s5 0 s _ (omega arith)
                      (parseredirs-Ends m cmd s5 q.bounded (omega arith) i))
                  (λ s4 low'' high''. fails))
          (λ s1 low high. fails)

    parseexec-Ends :
        (m s : ℕ)
        → s ≤ es
        → es < s + m
        → es < s + suc n
        → Ends (Found buf es ends 0 s) (parseexec buf es line m s)
    unfolding parseexec
    parseexec-Ends m s h l l' =
        peek-Ends buf es ends (40 ∷ []) _ _ s h
          (λ s1 low high alive.
            weaken buf es ends 0 s1 0 s _ (omega arith)
              (parseblock-Ends m s1 high (omega arith) (omega arith)))
          (λ s1 low high.
            bind-Ends (Found buf es ends 0 s1) (parseredirs buf es m (exec_cmd [])) _ s1
              (parseredirs-Ends m (exec_cmd []) s1 high (omega arith) tt)
              λ ret s2 (low', high', i).
                weaken buf es ends 0 s2 0 s _ (omega arith)
                  (parseargs-Ends m 0 ret s2 high' (omega arith) i))

    parsepipe-Ends :
        (m s : ℕ)
        → s ≤ es
        → es < s + m
        → es < s + suc n
        → Ends (Found buf es ends 0 s) (parsepipe buf es line m s)
    unfolding parsepipe
    parsepipe-Ends zero s h l l' = absurd (omega arith)
    parsepipe-Ends (suc m) s h l l' =
        bind-Ends (Found buf es ends 0 s) (parseexec buf es line (suc m)) _ s
          (parseexec-Ends (suc m) s h l l')
          λ cmd s1 (low, high, i).
            peek-Ends buf es ends (124 ∷ []) _ _ s1 high
              (λ s2 low' high' alive. token-Ends buf es ends _ s2 high' λ t s3 p.
                let further = p.proceeds alive in
                bind-Ends (Found buf es ends 0 s3) (parsepipe buf es line m) _ s3
                  (parsepipe-Ends m s3 p.bounded (omega arith) (omega arith))
                  λ right s4 (low'', high'', j). at (omega arith, high'', (i, j)))
              (λ s2 low' high'. at (omega arith, high', i))

  parsebacks-Ends :
      (n : ℕ) (cmd : Cmd) (s : ℕ)
      → s ≤ es
      → es < s + n
      → InLine buf es cmd
      → Ends (Found buf es ends 0 s) (parsebacks buf es n cmd s)
  unfolding parsebacks
  parsebacks-Ends zero cmd s h l i = absurd (omega arith)
  parsebacks-Ends (suc n) cmd s h l i =
      peek-Ends buf es ends (38 ∷ []) _ _ s h
        (λ s1 low high alive. token-Ends buf es ends _ s1 high λ t s2 p.
          let further = p.proceeds alive in
          weaken buf es ends 0 s2 0 s _ (omega arith)
            (parsebacks-Ends n (back_cmd cmd) s2 p.bounded (omega arith) i))
        (λ s1 low high. at (omega arith, high, i))

  pub parseline-Ends :
      (n s : ℕ) → s ≤ es → es < s + n → Ends (Found buf es ends 0 s) (parseline buf es n s)
  unfolding parseline
  parseline-Ends zero s h l = absurd (omega arith)
  parseline-Ends (suc n) s h l =
      bind-Ends (Found buf es ends 0 s) (parsepipe buf es (parseline buf es n) (suc n)) _ s
        (parsepipe-Ends (parseline buf es n) n (parseline-Ends n) (suc n) s h l l)
        λ first_cmd s1 (low, high, i).
          bind-Ends (Found buf es ends 0 s1) (parsebacks buf es (suc n) first_cmd) _ s1
            (parsebacks-Ends (suc n) first_cmd s1 high (omega arith) i)
            λ cmd s2 (low', high', i').
              peek-Ends buf es ends (59 ∷ []) _ _ s2 high'
                (λ s3 low'' high'' alive. token-Ends buf es ends _ s3 high'' λ t s4 p.
                  let further = p.proceeds alive in
                  bind-Ends (Found buf es ends 0 s4) (parseline buf es n) _ s4
                    (parseline-Ends n s4 p.bounded (omega arith))
                    λ right s5 (low''', high''', j). at (omega arith, high''', (i', j)))
                (λ s3 low'' high''. at (omega arith, high'', i'))
