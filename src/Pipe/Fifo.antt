-- ===== src/Pipe/Fifo.antt =====
-- A pipe is a bounded queue of bytes, also where the counters wrap.
use xmu_learning_os.Base.{
  List, [], add32, ap, arith, false, refl, sub32, suc, update, zero, ℕ, ◌%◌, ◌++◌, ◌+◌, ◌<◌, ◌^◌,
  ◌∙◌, ◌∷◌, ◌≡◌, ◌≢◌, ◌≤◌,
}
use xmu_learning_os.Pipe.{Pipe, get_byte, is_empty, is_full, pipesize, put_byte}
use mathlib.Core.Path.{ap₂}

-- The `n` bytes from the counter `r` on.
abbrev pub window : (ℕ → ℕ) → ℕ → ℕ → List ℕ
window d r zero = []
window d r (suc n) = d (r % pipesize) ∷ window d (add32 r 1) n

abbrev pub size : Pipe → ℕ
size p = sub32 p.nwrite p.nread

-- What the pipe holds, oldest first.
abbrev pub contents : Pipe → List ℕ
contents p = window p.content p.nread (size p)

pub record IsValid (p : Pipe) : Type 0 where
  pub nread_fits : p.nread < 2 ^ 32
  pub nwrite_fits : p.nwrite < 2 ^ 32
  pub bounded : size p ≤ pipesize

window-snoc :
    (d : ℕ → ℕ) (r n : ℕ)
    → window d r (suc n) ≡ window d r n ++ (d ((r + n) % 2 ^ 32 % pipesize) ∷ [])
window-snoc d r zero = ap (λ i. d i ∷ []) (omega arith)
window-snoc d r (suc n) =
    ap (◌∷◌ (d (r % pipesize)))
      (window-snoc d (add32 r 1) n ∙ ap (λ i. window d (add32 r 1) n ++ (d i ∷ [])) (omega arith))

-- A write outside the window is not seen in it.
window-update :
    (d : ℕ → ℕ) (i c r n : ℕ)
    → ((k : ℕ) → k < n → i ≢ (r + k) % 2 ^ 32 % pipesize)
    → window (update d i c) r n ≡ window d r n
window-update d i c r zero h = refl
window-update d i c r (suc n) h =
    ap₂ ◌∷◌ (ground (arith, h 0 (omega arith)))
      (window-update d i c (add32 r 1) n (λ k l e. h (suc k) (omega arith) (e ∙ omega arith)))

pub put_byte-contents :
    (c : ℕ) (p : Pipe)
    → IsValid p
    → is_full p ≡ false
    → (contents (put_byte c p) ≡ contents p ++ (c ∷ [])) × IsValid (put_byte c p)
unfolding put_byte
put_byte-contents c p v h =
    let i = p.nwrite % pipesize in
    let d = update p.content i c in
    let n = size p in
    let grown : size (put_byte c p) ≡ suc n = ground arith in
    let last : d ((p.nread + n) % 2 ^ 32 % pipesize) ≡ c = ground arith in
    (
      ap (window d p.nread) grown
          ∙ window-snoc d p.nread n
          ∙ ap₂ (λ (xs : List ℕ) y. xs ++ (y ∷ []))
              (window-update p.content i c p.nread n (λ k l. ground arith)) last,
      ground arith,
    )

pub get_byte-contents :
    (p : Pipe)
    → IsValid p
    → is_empty p ≡ false
    → (contents p ≡ (get_byte p).0 ∷ contents (get_byte p).1) × IsValid (get_byte p).1
unfolding get_byte
get_byte-contents p v h =
    let shrunk : size p ≡ suc (size (get_byte p).1) = ground arith in
    (ap (window p.content p.nread) shrunk, ground arith)
