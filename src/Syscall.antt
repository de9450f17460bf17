-- ===== src/Syscall.antt =====
-- Lab/code/syscall.c: how a system call fetches its arguments from the user's memory. `none` is the
-- result -1; the address space has `sz` bytes, and `memory` is what it holds.
pub mod InBounds
use xmu_learning_os.Base.{
  Bytes, Option, add32, get_word, if◌then◌else◌, leb, ltb, none, slt, some, suc, zero, ℕ, ◌*◌, ◌+◌,
  ◌-◌, ◌==◌, ◌||◌,
}

pub record Caller : Type 0 where
  pub sz : ℕ
  pub esp : ℕ
  pub memory : Bytes

unfoldable pub fetchint : ℕ → Caller → Option ℕ
fetchint addr p =
    if leb p.sz addr || ltb p.sz (add32 addr 4) then none else some (get_word p.memory addr)

-- The loop of `fetchstr` from `s` on, with `n` bytes left before the end.
unfoldable pub scan_string : ℕ → ℕ → ℕ → Bytes → Option ℕ
scan_string zero s start m = none
scan_string (suc n) s start m =
    let rest = scan_string n (s + 1) start m in if m s == 0 then some (s - start) else rest

-- The address and the length.
unfoldable pub fetchstr : ℕ → Caller → Option (ℕ × ℕ)
unfolding scan_string
fetchstr addr p =
    if leb p.sz addr then none else elim (scan_string (p.sz - addr) addr addr p.memory) [
      | none ↦ none
      | some n ↦ some (addr, n)
    ]

unfoldable pub argint : ℕ → Caller → Option ℕ
unfolding fetchint
argint n p = fetchint (add32 (add32 p.esp 4) (4 * n)) p

unfoldable pub argptr : ℕ → ℕ → Caller → Option ℕ
unfolding argint
argptr n size p = elim (argint n p) [
  | none ↦ none
  | some i ↦ if slt size 0 || leb p.sz i || ltb p.sz (add32 i size) then none else some i
]

unfoldable pub argstr : ℕ → Caller → Option (ℕ × ℕ)
unfolding argint fetchstr
argstr n p = elim (argint n p) [ none ↦ none | some addr ↦ fetchstr addr p ]
