-- ===== src/Console/InOrder.antt =====
-- The counters of the console's input: read, then written, then edited, and at most one ring apart.
use xmu_learning_os.Base.{
  Bool, Bool-cases, List, [], add32, arith, false, if_both, if◌then◌else◌, inl, inr, ltb, not,
  sub32, suc, zero, ℕ, ◌%◌, ◌&&◌, ◌<◌, ◌==◌, ◌^◌, ◌||◌, ◌∷◌, ◌≢◌, ◌≤◌,
}
use xmu_learning_os.Console.{
  Copied, Input, backspace, consoleintr, ctrl_d, ctrl_h, ctrl_p, ctrl_u, delete, done, ends_line,
  input_buf, input_char, kill_line, newline, prepend, read_line, short, store_char,
}
use xmu_learning_os.Proc.{Chan, Kernel}
use xmu_learning_os.Proc.Sleep.{wakeup}

abbrev pub InOrder : Input → Type 0
InOrder s =
    (s.r < 2 ^ 32)
    × (s.w < 2 ^ 32)
    × (s.e < 2 ^ 32)
    × (sub32 s.w s.r ≤ sub32 s.e s.r)
    × (sub32 s.e s.r ≤ input_buf)

back_one : (s : Input) → InOrder s → s.e ≢ s.w → InOrder (record s { e = sub32 s.e 1 })
back_one s (a, b, c, d, f) n = ground arith

kill_line-InOrder : (n : ℕ) (s : Input) → InOrder s → InOrder (kill_line n s)
unfolding kill_line
kill_line-InOrder zero s h = h
kill_line-InOrder (suc n) s h = elim (Bool-cases (s.e == s.w)) [
  | inl e ↦ rw (e, kill_line) h
  | inr d ↦
      let o = kill_line-InOrder n (record s { e = sub32 s.e 1 }) (back_one s h (ground arith)) in
      if_both InOrder ((s.e == s.w) || (s.line (sub32 s.e 1 % input_buf) == newline)) s
        (kill_line n (record s { e = sub32 s.e 1 })) (λ t. h) (λ t. o)
]

store_char-InOrder :
    (c : ℕ) (s : Input) → InOrder s → sub32 s.e s.r < input_buf → InOrder (store_char c s)
unfolding store_char
store_char-InOrder c s (a, b, d, f, g) l = ground arith

commit_line : (s : Input) → InOrder s → InOrder (record s { w = s.e })
commit_line s (a, b, d, f, g) = ground arith

take_one : (s : Input) → InOrder s → s.r ≢ s.w → InOrder (record s { r = add32 s.r 1 })
take_one s (a, b, d, f, g) n = ground arith

-- The state of a round is in order.
abbrev Kept : Bool × Input → Type 0
Kept p = InOrder (p.1)

input_char-InOrder : (c : ℕ) (s : Input) → InOrder s → InOrder (input_char c s).1
unfolding input_char backspace
input_char-InOrder c s h =
    if_both Kept (c == ctrl_p) _ _ (λ t. h)
      λ f1.
        if_both Kept (c == ctrl_u) _ _ (λ t. kill_line-InOrder input_buf s h)
          λ f2.
            if_both Kept ((c == ctrl_h) || (c == delete)) _ _
              (λ t. if_both InOrder (s.e == s.w) _ _ (λ u. h) (λ u. back_one s h (ground arith)))
              λ f3.
                if_both Kept (not (c == 0) && ltb (sub32 s.e s.r) input_buf) _ _
                  (λ t.
                    let o = store_char-InOrder c s h (ground arith) in
                    if_both Kept (ends_line c (store_char c s)) _ _
                      (λ u. commit_line (store_char c s) o) (λ u. o))
                  (λ t. h)

module _ {S : Type 0} (chan : Chan) where
  consoleintr-InOrder :
      (cs : List ℕ) (s : Input) (k : Kernel S) → InOrder s → InOrder (consoleintr chan cs (s, k)).0
  unfolding consoleintr
  consoleintr-InOrder [] s k h = h
  consoleintr-InOrder (c ∷ cs) s k h =
      let (woken, s') = input_char c s in
      consoleintr-InOrder cs s' (if woken then wakeup chan k else k) (input_char-InOrder c s h)

abbrev pub input_of : Copied → Input
input_of (done cs s) = s
input_of (short n cs s) = s

prepended : (c : ℕ) (r : Copied) → InOrder (input_of r) → InOrder (input_of (prepend c r))
prepended c (done cs s) h = h
prepended c (short n cs s) h = h

read_line-InOrder :
    (n : ℕ) (fresh : Bool) (s : Input) → InOrder s → InOrder (input_of (read_line n fresh s))
unfolding read_line
read_line-InOrder zero fresh s h = h
read_line-InOrder (suc n) fresh s h = elim (Bool-cases (s.r == s.w)) [
  | inl e ↦ rw (e, read_line) h
  | inr d ↦
      let c = s.line (s.r % input_buf) in
      let s' : Input = record s { r = add32 s.r 1 } in
      let o = take_one s h (ground arith) in
      let rest = prepended c (read_line n false s') (read_line-InOrder n false s' o) in
      if_both (λ x. InOrder (input_of x)) (s.r == s.w) _ _ (λ t. h)
        λ f1.
          if_both (λ x. InOrder (input_of x)) (c == ctrl_d) _ _
            (λ t. if_both (λ x. InOrder (input_of x)) fresh _ _ (λ u. o) (λ u. h))
            λ f2. if_both (λ x. InOrder (input_of x)) (c == newline) _ _ (λ t. o) (λ t. rest)
]

-- What the interrupt handler and the readers do to the input.
module _ (S : Type 0) (chan : Chan) where
  pub data Step (s : Input) : Input → Type 0 where
    types : (cs : List ℕ) (k : Kernel S) → Step s (consoleintr chan cs (s, k)).0
    reads : (n : ℕ) (fresh : Bool) → Step s (input_of (read_line n fresh s))

  pub data Reach (s : Input) : Input → Type 0 where
    here : Reach s s
    next : {s' s'' : Input} → Reach s s' → Step s' s'' → Reach s s''

  -- However interrupts and reads follow each other, the readers do not pass the committed lines,
  -- these do not pass the edited line, and no more than the ring is held, though the counters wrap.
  pub Reach-InOrder : {s s' : Input} → InOrder s → Reach s s' → InOrder s'
  Reach-InOrder h here = h
  Reach-InOrder h (next {s' = m} r (types cs k)) =
      consoleintr-InOrder chan cs m k (Reach-InOrder h r)
  Reach-InOrder h (next {s' = m} r (reads n fresh)) =
      read_line-InOrder n fresh m (Reach-InOrder h r)
