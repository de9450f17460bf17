-- ===== src/Str.antt =====
-- Lab/code/string.c: the string routines on memory. A `char*` is a function from offsets to bytes.
pub mod Compare
pub mod Copy
pub mod Move
use xmu_learning_os.Base.{
  Bytes, Option, if◌then◌else◌, ltb, none, not, sle, some, sub32, suc, update, zero, ℕ, ◌&&◌, ◌+◌,
  ◌-◌, ◌==◌,
}

-- The loop of `safestrcpy` with `m` as `n - 1`, and the last write.
unfoldable pub copy_name : ℕ → ℕ → (ℕ → ℕ) → (ℕ → ℕ) → ℕ → ℕ
copy_name zero i s t = update s i 0
copy_name (suc m) i s t =
    let c = t i in
    let s' = update s i c in
    let rest = copy_name m (i + 1) s' t in if c == 0 then update s' (i + 1) 0 else rest

unfoldable pub safestrcpy : (ℕ → ℕ) → (ℕ → ℕ) → ℕ → ℕ → ℕ
safestrcpy s t n = if sle n 0 then s else copy_name (n - 1) 0 s t

-- The loop of `memcmp` from offset `i`, with `n` bytes left.
unfoldable pub memcmp_from : ℕ → ℕ → (ℕ → ℕ) → (ℕ → ℕ) → ℕ
memcmp_from zero i v1 v2 = 0
memcmp_from (suc n) i v1 v2 =
    let rest = memcmp_from n (i + 1) v1 v2 in
    if not (v1 i == v2 i) then sub32 (v1 i) (v2 i) else rest

unfoldable pub memcmp : (ℕ → ℕ) → (ℕ → ℕ) → ℕ → ℕ
memcmp v1 v2 n = memcmp_from n 0 v1 v2

-- The loop of `strncmp` from offset `i`, with `n` bytes left, and its result.
unfoldable pub strncmp_from : ℕ → ℕ → (ℕ → ℕ) → (ℕ → ℕ) → ℕ
strncmp_from zero i p q = 0
strncmp_from (suc n) i p q =
    let rest = strncmp_from n (i + 1) p q in
    if not (p i == 0) && (p i == q i) then rest else sub32 (p i) (q i)

unfoldable pub strncmp : (ℕ → ℕ) → (ℕ → ℕ) → ℕ → ℕ
strncmp p q n = strncmp_from n 0 p q

-- The two loops of `strncpy`, from offset `i`, with `n` bytes left.
unfoldable pub pad_from : ℕ → ℕ → (ℕ → ℕ) → ℕ → ℕ
pad_from zero i s = s
pad_from (suc n) i s = pad_from n (i + 1) (update s i 0)

unfoldable pub strncpy_from : ℕ → ℕ → (ℕ → ℕ) → (ℕ → ℕ) → ℕ → ℕ
unfolding pad_from
strncpy_from zero i s t = s
strncpy_from (suc n) i s t =
    let rest = strncpy_from n (i + 1) (update s i (t i)) t in
    if t i == 0 then pad_from n (i + 1) (update s i (t i)) else rest

unfoldable pub strncpy : (ℕ → ℕ) → (ℕ → ℕ) → ℕ → ℕ → ℕ
strncpy s t n = if sle n 0 then s else strncpy_from n 0 s t

-- The two loops of `memmove`, up and down, with `n` bytes left.
unfoldable pub move_up : ℕ → ℕ → ℕ → Bytes → Bytes
move_up zero d s m = m
move_up (suc n) d s m = move_up n (d + 1) (s + 1) (update m d (m s))

unfoldable pub move_down : ℕ → ℕ → ℕ → Bytes → Bytes
move_down zero d s m = m
move_down (suc n) d s m = move_down n d s (update m (d + n) (m (s + n)))

-- `memmove(d, s, n)` within one memory, where neither region wraps.
unfoldable pub memmove : ℕ → ℕ → ℕ → Bytes → Bytes
unfolding move_up move_down
memmove d s n m =
    let up = move_up n d s m in
    let down = move_down n d s m in if ltb s d && ltb d (s + n) then down else up

-- `strlen` from `n` on: the number of bytes up to the NUL, where there is one within `fuel` bytes.
unfoldable pub strlen_from : ℕ → ℕ → (ℕ → ℕ) → Option ℕ
strlen_from zero n s = none
strlen_from (suc fuel) n s =
    let rest = strlen_from fuel (n + 1) s in if s n == 0 then some n else rest
