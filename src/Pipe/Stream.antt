-- ===== src/Pipe/Stream.antt =====
-- What passes through a pipe: `pipewrite` appends a prefix of its bytes and stops early only at a
-- full pipe, `piperead` takes from the front, and no byte is lost, made up or overtaken.
use xmu_learning_os.Base.{
  Bool, Bool-cases, List, [], ap, arith, false, if◌then◌else◌, inl, inr, length, refl, suc, sym,
  true, zero, ℕ, ◌++◌, ◌<◌, ◌==◌, ◌||◌, ◌∙◌, ◌∷◌, ◌≡◌, ◌≢◌, ◌≤◌,
}
use xmu_learning_os.Pipe.{
  Pipe, Progress, blocked, broken, get_byte, is_empty, is_full, put_byte, read_bytes, write_bytes,
  written,
}
use xmu_learning_os.Pipe.Fifo.{IsValid, contents, get_byte-contents, put_byte-contents}
use xmu_learning_os.Proc.Sleep.{put}
use mathlib.Core.List.{append-nil, append_assoc}

-- The bytes that a run of the loop leaves to be written.
abbrev pub Owes : Progress → List ℕ → Type 0
Owes written rest = rest ≡ []
Owes (blocked cs) rest = rest ≡ cs
Owes broken rest = Unit {0}

-- What a run of the write loop over `src` makes of the pipe `p`.
abbrev pub Writes : List ℕ → Pipe → Progress × Pipe → Type 0
Writes src p r =
    (done : List ℕ) × (rest : List ℕ) × (src ≡ done ++ rest)
    × (contents r.1 ≡ contents p ++ done)
    × Owes r.0 rest
    × (r.0 ≢ written → is_full r.1 ≡ true)
    × IsValid r.1

full-Writes :
    (b : Bool) (src : List ℕ) (p : Pipe)
    → IsValid p
    → is_full p ≡ true
    → Writes src p (if b then broken else blocked src, p)
full-Writes true src p v e = ([], src, refl, sym (append-nil (contents p)), tt, λ n. e, v)
full-Writes false src p v e = ([], src, refl, sym (append-nil (contents p)), refl, λ n. e, v)

more-Writes :
    (c : ℕ) (cs : List ℕ) (p : Pipe) (r : Progress × Pipe)
    → IsValid p
    → is_full p ≡ false
    → Writes cs (put_byte c p) r
    → Writes (c ∷ cs) p r
more-Writes c cs p r v e (done, rest, split, held, owed, stop, v') =
    let (put, _) = put_byte-contents c p v e in
    (
      c ∷ done,
      rest,
      ap (◌∷◌ c) split,
      held ∙ ap (λ (xs : List ℕ). xs ++ done) put ∙ append_assoc (contents p) (c ∷ []) done,
      owed,
      stop,
      v',
    )

-- The loop of `pipewrite` appends a prefix of its bytes to what a valid pipe holds, leaves the rest
-- to be written, and stops early only at a full pipe; the pipe stays valid.
pub write_bytes_lem :
    (killed : Bool) (src : List ℕ) (p : Pipe) → IsValid p → Writes src p (write_bytes killed src p)
unfolding write_bytes
write_bytes_lem killed [] p v =
    ([], [], refl, sym (append-nil (contents p)), refl, λ n. absurd (n refl), v)
write_bytes_lem killed (c ∷ cs) p v = elim (Bool-cases (is_full p)) [
  | inl e ↦ rw e (full-Writes (p.readopen == 0 || killed) (c ∷ cs) p v e)
  | inr e ↦ rw e (
      more-Writes c cs p (write_bytes killed cs (put_byte c p)) v e
        (write_bytes_lem killed cs (put_byte c p) (put_byte-contents c p v e).1))
]

-- `piperead` returns the oldest bytes, as many as are asked for or as there are.
pub read_bytes_lem :
    (n : ℕ) (p : Pipe)
    → IsValid p
    → let (out, p') = read_bytes n p in
      (contents p ≡ out ++ contents p')
      × (length out ≤ n)
      × (length out < n → is_empty p' ≡ true)
      × IsValid p'
unfolding read_bytes
read_bytes_lem zero p v = (refl, omega arith, λ l. absurd (omega arith), v)
read_bytes_lem (suc n) p v = elim (Bool-cases (is_empty p)) [
  | inl e ↦ rw e (refl, omega arith, λ l. e, v)
  | inr e ↦ rw e (
      let (got, v') = get_byte-contents p v e in
      let (split, few, stop, v'') = read_bytes_lem n (get_byte p).1 v' in
      (got ∙ ap (◌∷◌ (get_byte p).0) split, omega arith, λ l. stop (omega arith), v''))
]
