-- ===== src/Base/Spans.antt =====
-- Spans of memory: the bytes read from and written to a range.
use Prim.Native.Nat.{ℕ, zero, suc, ◌+◌, ◌-◌, ◌≤◌, ◌<◌}
use mathlib.Core.Path.{◌≡◌, refl, sym, ap, ◌∙◌}
use mathlib.Core.Logic.{inl, inr}
use mathlib.Core.List.{List, [], ◌∷◌, ◌++◌}
use native.Mathlib.Omega.{arith}
use xmu_learning_os.Base.Tests.{◌==◌, Bool-cases}
use xmu_learning_os.Base.Array.{update}
use xmu_learning_os.Base.Lists.{length, take, drop, get_or}
use xmu_learning_os.Base.Memory.{Bytes, bytes_at, put_bytes, put_bytes_below}

pub bytes_at_same :
    (m m' : Bytes) (a b n : ℕ)
    → ((j : ℕ) → j < n → m (a + j) ≡ m' (b + j))
    → bytes_at m a n ≡ bytes_at m' b n
unfolding bytes_at
bytes_at_same m m' a b zero h = refl
bytes_at_same m m' a b (suc n) h =
    let e : m a ≡ m' b = ground (arith, h 0 (omega arith)) in
    let r = bytes_at_same m m' (a + 1) (b + 1) n (λ j l. ground (arith, h (1 + j) (omega arith))) in
    cc

pub bytes_at-add :
    (m : Bytes) (a n k : ℕ) → bytes_at m a (n + k) ≡ bytes_at m a n ++ bytes_at m (a + n) k
unfolding bytes_at
bytes_at-add m a zero k = ground arith
bytes_at-add m a (suc n) k =
    let e : suc n + k ≡ suc (n + k) = omega arith in
    let f : a + 1 + n ≡ a + suc n = omega arith in
    ap (λ x. bytes_at m a x) e
    ∙ ap (λ r. m a ∷ r) (bytes_at-add m (a + 1) n k)
    ∙ ap (λ x. m a ∷ (bytes_at m (a + 1) n ++ bytes_at m x k)) f

pub put_bytes_inside :
    (m : Bytes) (a : ℕ) (cs : List ℕ) (b : ℕ)
    → a ≤ b
    → b < a + length cs
    → put_bytes m a cs b ≡ get_or cs (b - a) 0
unfolding put_bytes
put_bytes_inside m a [] b h l = absurd (omega arith)
put_bytes_inside m a (c ∷ cs) b h l = elim (Bool-cases (a == b)) [
  | inl s ↦
      (let e : b - a ≡ 0 = ground arith in
        put_bytes_below (update m a c) (a + 1) cs b (ground arith)
        ∙ ground arith
        ∙ ap (λ i. get_or (c ∷ cs) i 0) (sym e))
  | inr s ↦
      (let e : b - a ≡ suc (b - (a + 1)) = ground arith in
        put_bytes_inside (update m a c) (a + 1) cs b (ground arith) (omega arith)
        ∙ ap (λ i. get_or (c ∷ cs) i 0) (sym e))
]

pub length-take : (n : ℕ) (cs : List ℕ) → n ≤ length cs → length (take n cs) ≡ n
length-take zero cs h = refl
length-take (suc n) [] h = omega arith
length-take (suc n) (c ∷ cs) h = ap suc (length-take n cs (omega arith))

pub length-drop : (n : ℕ) (cs : List ℕ) → length (drop n cs) ≡ length cs - n
length-drop zero cs = omega arith
length-drop (suc n) [] = omega arith
length-drop (suc n) (c ∷ cs) = length-drop n cs ∙ omega arith

-- A write in two parts.
pub put_bytes-drop :
    (m : Bytes) (a n : ℕ) (cs : List ℕ)
    → n ≤ length cs
    → put_bytes (put_bytes m a (take n cs)) (a + n) (drop n cs) ≡ put_bytes m a cs
unfolding put_bytes
put_bytes-drop m a zero cs h = ap (λ x. put_bytes m x cs) (omega arith)
put_bytes-drop m a (suc n) [] h = absurd (omega arith)
put_bytes-drop m a (suc n) (c ∷ cs) h =
    ap (λ x. put_bytes (put_bytes (update m a c) (a + 1) (take n cs)) x (drop n cs)) (omega arith)
    ∙ put_bytes-drop (update m a c) (a + 1) n cs (omega arith)

pub put_bytes_same :
    (m m' : Bytes) (a : ℕ) (cs : List ℕ) (b : ℕ)
    → m b ≡ m' b
    → put_bytes m a cs b ≡ put_bytes m' a cs b
unfolding put_bytes
put_bytes_same m m' a [] b h = h
put_bytes_same m m' a (c ∷ cs) b h =
    put_bytes_same (update m a c) (update m' a c) (a + 1) cs b (ground (arith, h))

-- The same write, seen from two places.
pub put_bytes_shift :
    (m m' : Bytes) (a a' : ℕ) (cs : List ℕ) (b b' : ℕ)
    → b + a' ≡ b' + a
    → m b ≡ m' b'
    → put_bytes m a cs b ≡ put_bytes m' a' cs b'
unfolding put_bytes
put_bytes_shift m m' a a' [] b b' e h = h
put_bytes_shift m m' a a' (c ∷ cs) b b' e h =
    put_bytes_shift (update m a c) (update m' a' c) (a + 1) (a' + 1) cs b b' (omega arith)
      (ground (arith, h))
