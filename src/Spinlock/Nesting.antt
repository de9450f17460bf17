-- ===== src/Spinlock/Nesting.antt =====
-- Lab/code/spinlock.c: `pushcli` and `popcli` nest.
use xmu_learning_os.Base.{
  Bool-cases, Option, arith, false, inl, inr, none, refl, some, suc, zero, ℕ, ◌+◌, ◌<◌, ◌==◌, ◌^◌,
  ◌≡◌, ◌≢◌,
}
use xmu_learning_os.Spinlock.{Cpu, popcli, pushcli}

-- What holds of a processor between calls: inside a nest interrupts are off.
pub record IsNested (c : Cpu) : Type 0 where
  pub bounded : c.ncli < 2 ^ 31
  pub off_inside : c.ncli ≢ 0 → c.interrupts ≡ false

-- Calls of `pushcli`, and then calls of `popcli`.
unfoldable pub push_times : ℕ → Cpu → Cpu
push_times zero c = c
push_times (suc n) c = pushcli (push_times n c)

unfoldable pub pop_times : ℕ → Cpu → Option Cpu
pop_times zero c = some c
pop_times (suc n) c = elim (popcli c) [ none ↦ none | some c' ↦ pop_times n c' ]

pushcli-IsNested : (c : Cpu) → c.ncli + 1 < 2 ^ 31 → IsNested c → IsNested (pushcli c)
unfolding pushcli
pushcli-IsNested c h v = ground arith

push_times-IsNested :
    (n : ℕ) (c : Cpu)
    → c.ncli + n < 2 ^ 31
    → IsNested c
    → IsNested (push_times n c) × ((push_times n c).ncli ≡ c.ncli + n)
unfolding push_times pushcli
push_times-IsNested zero c h v = (v, omega arith)
push_times-IsNested (suc n) c h v =
    let (w, e) = push_times-IsNested n c (omega arith) v in
    (ground (arith, w, e), ground (arith, e))

-- Inside a nest `popcli` takes back `pushcli`.
popcli-pushcli :
    (c : Cpu) → c.ncli ≢ 0 → c.ncli + 1 < 2 ^ 31 → IsNested c → popcli (pushcli c) ≡ some c
unfolding popcli pushcli
popcli-pushcli c z h v = ground (arith, v.off_inside z)

popcli-pushcli_first :
    (c : Cpu)
    → c.ncli ≡ 0
    → (d : Cpu) × (popcli (pushcli c) ≡ some d) × (d.ncli ≡ c.ncli) × (d.interrupts ≡ c.interrupts)
unfolding popcli pushcli
popcli-pushcli_first c z = (
  record { interrupts = c.interrupts; ncli = c.ncli; intena = c.interrupts },
  ground arith,
  refl,
  refl,
)

-- After any number of `pushcli` calls interrupts are off (if there is one), and as many `popcli`
-- calls do not panic and leave the depth and the interrupt flag as they were, on a processor where
-- interrupts are off inside a nest and while the depth fits in an `int`.
pub pop_times-push_times :
    (n : ℕ) (c : Cpu)
    → c.ncli + n < 2 ^ 31
    → IsNested c
    → (n ≢ 0 → (push_times n c).interrupts ≡ false)
      × ((d : Cpu) × (pop_times n (push_times n c) ≡ some d)
          × (d.ncli ≡ c.ncli)
          × (d.interrupts ≡ c.interrupts))
unfolding pop_times push_times pushcli
pop_times-push_times zero c h v = (λ z. absurd (z refl), (c, refl, refl, refl))
pop_times-push_times (suc zero) c h v = (
  λ z. refl,
  elim (Bool-cases (c.ncli == 0)) [
    | inl z ↦
        (let (d, e, k, i) = popcli-pushcli_first c (ground arith) in (d, ground (arith, e), k, i))
    | inr z ↦ (c, ground (arith, popcli-pushcli c (ground arith) (omega arith) v), refl, refl)
  ],
)
pop_times-push_times (suc (suc n)) c h v =
    let (w, e) = push_times-IsNested (suc n) c (omega arith) v in
    let (d, q, k, i) = (pop_times-push_times (suc n) c (omega arith) v).1 in
    let back =
      popcli-pushcli (push_times (suc n) c) (λ z. omega (arith, e, z)) (omega (arith, e)) w in
    (λ z. refl, (d, ground (arith, back, q), k, i))
