-- ===== src/Base/Memory.antt =====
-- Memory as bytes by address, with little-endian halves and words, and the loops of `memset` and
-- `memmove`.
use Prim.Native.Nat.{ℕ, zero, suc, ◌+◌, ◌-◌, ◌*◌, ◌/◌, ◌%◌, ◌^◌, ◌≤◌, ◌<◌}
use mathlib.Core.Path.{◌≡◌, refl}
use mathlib.Core.Bool.{true, ◌&&◌}
use mathlib.Core.List.{List, [], ◌∷◌}
use native.Mathlib.Omega.{arith}
use xmu_learning_os.Base.Tests.{if◌then◌else◌, ltb, leb}
use xmu_learning_os.Base.Array.{update}
use xmu_learning_os.Base.Lists.{length}

abbrev pub Bytes : Type 0
Bytes = ℕ → ℕ

unfoldable pub get_half : Bytes → ℕ → ℕ
get_half m a = m a + m (a + 1) * 256

unfoldable pub put_half : Bytes → ℕ → ℕ → Bytes
put_half m a v = update (update m a (v % 256)) (a + 1) (v / 256 % 256)

unfoldable pub get_word : Bytes → ℕ → ℕ
get_word m a = m a + m (a + 1) * 256 + m (a + 2) * 65536 + m (a + 3) * 16777216

unfoldable pub put_word : Bytes → ℕ → ℕ → Bytes
put_word m a v =
    update
      (update (update (update m a (v % 256)) (a + 1) (v / 256 % 256)) (a + 2) (v / 65536 % 256))
      (a + 3) (v / 16777216 % 256)

-- `memset(a, c, n)`
unfoldable pub fill : Bytes → ℕ → ℕ → ℕ → Bytes
fill m a c n b = if leb a b && ltb b (a + n) then c % 256 else m b

-- `memmove(a, from + s, n)` between two memories that do not overlap
unfoldable pub copy : Bytes → ℕ → Bytes → ℕ → ℕ → Bytes
copy m a from s n b = if leb a b && ltb b (a + n) then from (s + (b - a)) else m b

-- The `n` bytes from `a` on, and the bytes of a buffer written from `a` on.
unfoldable pub bytes_at : Bytes → ℕ → ℕ → List ℕ
bytes_at m a zero = []
bytes_at m a (suc n) = m a ∷ bytes_at m (a + 1) n

unfoldable pub put_bytes : Bytes → ℕ → List ℕ → Bytes
put_bytes m a [] = m
put_bytes m a (c ∷ cs) = put_bytes (update m a c) (a + 1) cs

-- `n` words from `a` on.
unfoldable pub put_words : Bytes → ℕ → ℕ → (ℕ → ℕ) → Bytes
put_words m a zero f = m
put_words m a (suc n) f = put_word (put_words m a n f) (a + 4 * n) (f n)

-- What is put is what is got.
pub get_word-put_word : (m : Bytes) (a v : ℕ) → v < 2 ^ 32 → get_word (put_word m a v) a ≡ v
unfolding get_word put_word
get_word-put_word m a v h = ground arith

pub get_half-put_half : (m : Bytes) (a v : ℕ) → v < 2 ^ 16 → get_half (put_half m a v) a ≡ v
unfolding get_half put_half
get_half-put_half m a v h = ground arith

-- A byte outside what is written stays.
pub put_word_outside : (m : Bytes) (a v b : ℕ) → ltb b a ≡ true → put_word m a v b ≡ m b
unfolding put_word
put_word_outside m a v b h = ground arith

pub put_word_beyond : (m : Bytes) (a v b : ℕ) → a + 4 ≤ b → put_word m a v b ≡ m b
unfolding put_word
put_word_beyond m a v b h = ground arith

pub get_word-put_word_below :
    (m : Bytes) (a b v : ℕ) → b + 4 ≤ a → get_word (put_word m a v) b ≡ get_word m b
unfolding get_word put_word
get_word-put_word_below m a b v h = ground arith

pub get_word-put_word_above :
    (m : Bytes) (a b v : ℕ) → a + 4 ≤ b → get_word (put_word m a v) b ≡ get_word m b
unfolding get_word put_word
get_word-put_word_above m a b v h = ground arith

pub length-bytes_at : (m : Bytes) (a n : ℕ) → length (bytes_at m a n) ≡ n
unfolding bytes_at
length-bytes_at m a zero = refl
length-bytes_at m a (suc n) = ground (arith, length-bytes_at m (a + 1) n)

pub put_bytes_below : (m : Bytes) (a : ℕ) (cs : List ℕ) (b : ℕ) → b < a → put_bytes m a cs b ≡ m b
unfolding put_bytes
put_bytes_below m a [] b h = refl
put_bytes_below m a (c ∷ cs) b h = ground (arith, put_bytes_below (update m a c) (a + 1) cs b)

pub put_bytes_above :
    (m : Bytes) (a : ℕ) (cs : List ℕ) (b : ℕ) → a + length cs ≤ b → put_bytes m a cs b ≡ m b
unfolding put_bytes
put_bytes_above m a [] b h = refl
put_bytes_above m a (c ∷ cs) b h = ground (arith, put_bytes_above (update m a c) (a + 1) cs b)

-- Reading back what was written.
pub bytes_at-put_bytes :
    (m : Bytes) (a : ℕ) (cs : List ℕ) → bytes_at (put_bytes m a cs) a (length cs) ≡ cs
unfolding put_bytes bytes_at
bytes_at-put_bytes m a [] = refl
bytes_at-put_bytes m a (c ∷ cs) = ground (
  arith,
  bytes_at-put_bytes (update m a c) (a + 1) cs,
  put_bytes_below (update m a c) (a + 1) cs a,
)
