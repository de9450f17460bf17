-- ===== src/Syscall/InBounds.antt =====
-- Lab/code/syscall.c: what the kernel is given lies in the caller's memory. User memory ends below
-- `KERNBASE`, which is 2 ^ 31.
use xmu_learning_os.Base.{
  Bool-cases, Bytes, Option-cases, add32, ap, arith, get_word, inl, inr, some, suc, zero, ℕ, ◌*◌,
  ◌+◌, ◌-◌, ◌<◌, ◌==◌, ◌^◌, ◌∙◌, ◌≡◌, ◌≢◌, ◌≤◌,
}
use xmu_learning_os.Syscall.{Caller, argint, argptr, fetchint, fetchstr, scan_string}
use mathlib.Core.Path.{subst}

fetchint-some :
    (addr : ℕ) (p : Caller) (v : ℕ)
    → p.sz ≤ 2 ^ 31
    → fetchint addr p ≡ some v
    → (addr + 4 ≤ p.sz) × (v ≡ get_word p.memory addr)
unfolding fetchint
fetchint-some addr p v h e = ground arith

scan_string-some :
    (n s start : ℕ) (m : Bytes) (r : ℕ)
    → start ≤ s
    → scan_string n s start m ≡ some r
    → (s ≤ start + r)
      × (start + r < s + n)
      × (m (start + r) ≡ 0)
      × ((k : ℕ) → s ≤ k → k < start + r → m k ≢ 0)
unfolding scan_string
scan_string-some zero s start m r h e = absurd (ground arith)
scan_string-some (suc n) s start m r h e = elim (Bool-cases (m s == 0)) [
  | inl z ↦
      (let t : start + r ≡ s = ground arith in
        (omega arith, omega arith, ap m t ∙ ground arith, λ k a b. absurd (omega arith)))
  | inr nz ↦
      (let (a, b, c, d) = scan_string-some n (s + 1) start m r (omega arith) (ground arith) in
        (
          omega arith,
          omega arith,
          c,
          λ k lo hi. elim (Bool-cases (s == k)) [
            | inl sk ↦ (let t : s ≡ k = ground arith in subst (λ x. m x ≢ 0) t (λ z. ground arith))
            | inr ne ↦ d k (ground arith) hi
          ],
        ))
]

-- Where `fetchstr` succeeds, the string starts at the address, its length is the number of bytes
-- before the first NUL, and the NUL lies in the caller's memory too.
pub fetchstr_lem :
    (addr : ℕ) (p : Caller) (a n : ℕ)
    → fetchstr addr p ≡ some (a, n)
    → (a ≡ addr)
      × (a + n < p.sz)
      × (p.memory (a + n) ≡ 0)
      × ((k : ℕ) → a ≤ k → k < a + n → p.memory k ≢ 0)
unfolding fetchstr
fetchstr_lem addr p a n e = elim (Option-cases (scan_string (p.sz - addr) addr addr p.memory)) [
  | inl f ↦ absurd (ground (arith, f))
  | inr (r, f) ↦
      let (x, y, z, w) = scan_string-some (p.sz - addr) addr addr p.memory r (omega arith) f in
      let ea : a ≡ addr = ground (arith, f) in
      let en : n ≡ r = ground (arith, f) in
      let at : a + n ≡ addr + r = omega arith in
      let inside : addr < p.sz = ground arith in
      (
        ea,
        omega arith,
        ap (λ k. p.memory k) at ∙ z,
        λ k lo hi. w k (omega (arith, ea)) (omega (arith, at)),
      )
]

-- Where `argptr` succeeds in an address space below `KERNBASE`, the argument's word and all of the
-- block that it points to lie in the caller's memory.
pub argptr_lem :
    (n size : ℕ) (p : Caller) (i : ℕ)
    → p.sz ≤ 2 ^ 31
    → size < 2 ^ 32
    → argptr n size p ≡ some i
    → (add32 (add32 p.esp 4) (4 * n) + 4 ≤ p.sz)
      × (i ≡ get_word p.memory (add32 (add32 p.esp 4) (4 * n)))
      × (i + size ≤ p.sz)
unfolding argptr argint
argptr_lem n size p i h b e = elim (Option-cases (fetchint (add32 (add32 p.esp 4) (4 * n)) p)) [
  | inl f ↦ absurd (ground (arith, f))
  | inr (v, f) ↦
      let (x, y) = fetchint-some (add32 (add32 p.esp 4) (4 * n)) p v h f in
      (x, ground (arith, f, y), ground (arith, f, y))
]
