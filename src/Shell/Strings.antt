-- ===== src/Shell/Strings.antt =====
-- What `nulterminate` does to the strings of a command.
use xmu_learning_os.Base.{
  Bytes, List, [], ap, arith, false, inl, inr, refl, sym, true, update, ℕ, ◌++◌, ◌<◌, ◌∙◌, ◌∷◌, ◌≡◌,
  ◌≢◌, ◌≤◌, ◌⊎◌,
}
use xmu_learning_os.Shell.{
  Cmd, back_cmd, end_strings, exec_cmd, is_word, list_cmd, nulterminate, pipe_cmd, redir_cmd,
}
use xmu_learning_os.Shell.Runs.{AllSpans, InLine}
use xmu_learning_os.Shell.Tokens.{IsWord}

-- The strings of a command, in the order in which `nulterminate` ends them.
abbrev pub strings : Cmd → List (ℕ × ℕ)
strings (exec_cmd args) = args
strings (redir_cmd c file mode fd) = strings c ++ file ∷ []
strings (pipe_cmd l r) = strings l ++ strings r
strings (list_cmd l r) = strings l ++ strings r
strings (back_cmd c) = strings c

abbrev pub Every : (ℕ × ℕ → Type 0) → List (ℕ × ℕ) → Type 0
Every P [] = Unit {0}
Every P (a ∷ l) = P a × Every P l

Every-append : (P : ℕ × ℕ → Type 0) (l m : List (ℕ × ℕ)) → Every P l → Every P m → Every P (l ++ m)
Every-append P [] m h i = i
Every-append P (a ∷ l) m (j, h) i = (j, Every-append P l m h i)

Every-both :
    (P Q R : ℕ × ℕ → Type 0) (l : List (ℕ × ℕ))
    → ((a : ℕ × ℕ) → P a → Q a → R a)
    → Every P l
    → Every Q l
    → Every R l
Every-both P Q R [] f h i = tt
Every-both P Q R (a ∷ l) f (p, h) (q, i) = (f a p q, Every-both P Q R l f h i)

end_strings-append :
    (l m : List (ℕ × ℕ)) (buf : Bytes)
    → end_strings (l ++ m) buf ≡ end_strings m (end_strings l buf)
unfolding end_strings
end_strings-append [] m buf = refl
end_strings-append (a ∷ l) m buf = end_strings-append l m (update buf (a.1) 0)

pub nulterminate-strings :
    (c : Cmd) (buf : Bytes) → nulterminate c buf ≡ end_strings (strings c) buf
unfolding nulterminate end_strings
nulterminate-strings (exec_cmd args) buf = refl
nulterminate-strings (redir_cmd c file mode fd) buf =
    ap (λ b. update b (file.1) 0) (nulterminate-strings c buf)
    ∙ sym (end_strings-append (strings c) (file ∷ []) buf)
nulterminate-strings (pipe_cmd l r) buf =
    nulterminate-strings r (nulterminate l buf)
    ∙ ap (end_strings (strings r)) (nulterminate-strings l buf)
    ∙ sym (end_strings-append (strings l) (strings r) buf)
nulterminate-strings (list_cmd l r) buf =
    nulterminate-strings r (nulterminate l buf)
    ∙ ap (end_strings (strings r)) (nulterminate-strings l buf)
    ∙ sym (end_strings-append (strings l) (strings r) buf)
nulterminate-strings (back_cmd c) buf = nulterminate-strings c buf

-- A NUL stays, and each string gets one.
end_strings-zero : (l : List (ℕ × ℕ)) (b : Bytes) (k : ℕ) → b k ≡ 0 → end_strings l b k ≡ 0
unfolding end_strings
end_strings-zero [] b k e = e
end_strings-zero (a ∷ l) b k e = end_strings-zero l (update b (a.1) 0) k (ground arith)

end_strings-ended : (l : List (ℕ × ℕ)) (b : Bytes) → Every (λ a. end_strings l b (a.1) ≡ 0) l
unfolding end_strings
end_strings-ended [] b = tt
end_strings-ended (a ∷ l) b = (
  end_strings-zero l (update b (a.1) 0) (a.1) (ground arith),
  end_strings-ended l (update b (a.1) 0),
)

module _ (buf : Bytes) (es : ℕ) where
  -- No string stops at `k`.
  abbrev Apart : ℕ → List (ℕ × ℕ) → Type 0
  Apart k l = Every (λ a. (a.1 ≡ k → ⊥)) l

  pub end_strings-kept :
      (l : List (ℕ × ℕ)) (b : Bytes) (k : ℕ) → Apart k l → end_strings l b k ≡ b k
  unfolding end_strings
  end_strings-kept [] b k h = refl
  end_strings-kept (a ∷ l) b k (n, h) = end_strings-kept l (update b (a.1) 0) k h ∙ ground arith

  pub InLine-Every : (c : Cmd) → InLine buf es c → Every (IsWord buf es) (strings c)
  InLine-Every (exec_cmd args) h = args-Every args h
    where
      args-Every : (l : List (ℕ × ℕ)) → AllSpans buf es l → Every (IsWord buf es) l
      args-Every [] h = tt
      args-Every (a ∷ l) (i, h) = (i, args-Every l h)
  InLine-Every (redir_cmd c file mode fd) (h, i) =
      Every-append (IsWord buf es) (strings c) (file ∷ []) (InLine-Every c h) (i, tt)
  InLine-Every (pipe_cmd l r) (h, i) =
      Every-append (IsWord buf es) (strings l) (strings r) (InLine-Every l h) (InLine-Every r i)
  InLine-Every (list_cmd l r) (h, i) =
      Every-append (IsWord buf es) (strings l) (strings r) (InLine-Every l h) (InLine-Every r i)
  InLine-Every (back_cmd c) h = InLine-Every c h

  -- A word's character is not where a word stops, and neither is what is behind the line.
  not_stop : (k : ℕ) (a : ℕ × ℕ) → k < es → is_word buf (buf k) ≡ true → IsWord buf es a → a.1 ≢ k
  not_stop k a h w i e = stops i.ended
    where
      stops : (a.1 ≡ es) ⊎ (is_word buf (buf (a.1)) ≡ false) → ⊥
      stops (inl s) = omega arith
      stops (inr s) = let z : false ≡ true = sym s ∙ ap (λ j. is_word buf (buf j)) e ∙ w in cc

  Every-Apart :
      (k : ℕ) (l : List (ℕ × ℕ))
      → k < es
      → is_word buf (buf k) ≡ true
      → Every (IsWord buf es) l
      → Apart k l
  Every-Apart k [] h w i = tt
  Every-Apart k (a ∷ l) h w (j, i) = (not_stop k a h w j, Every-Apart k l h w i)

  pub Every-outside : (k : ℕ) (l : List (ℕ × ℕ)) → es < k → Every (IsWord buf es) l → Apart k l
  Every-outside k [] h i = tt
  Every-outside k (a ∷ l) h (j, i) =
      (λ e. (let b = j.bounded in omega arith), Every-outside k l h i)

  -- The string `a` reads in `b` as it does in the line, and ends there.
  pub record Reads (b : Bytes) (a : ℕ × ℕ) : Type 0 where
    pub word : IsWord buf es a
    pub kept : (k : ℕ) → a.0 ≤ k → k < a.1 → b k ≡ buf k
    pub ended : b (a.1) ≡ 0

  pub end_strings-Reads :
      (l : List (ℕ × ℕ)) → Every (IsWord buf es) l → Every (Reads (end_strings l buf)) l
  end_strings-Reads l h =
      Every-both (IsWord buf es) (λ a. end_strings l buf (a.1) ≡ 0) (Reads (end_strings l buf)) l
        (λ a i e. record {
          word = i;
          kept = λ k low high.
              end_strings-kept l buf k
                (Every-Apart k l (let b = i.bounded in omega arith) (i.letters k low high) h);
          ended = e;
        })
        h (end_strings-ended l buf)
