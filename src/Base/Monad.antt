-- ===== src/Base/Monad.antt =====
-- Code with state that may panic, or stop at a lock that another process holds.
use Prim.Native.Nat.{ℕ, zero, suc, ◌+◌}
use mathlib.Core.Path.{◌≡◌, refl, sym}
use mathlib.Core.Bool.{Bool, true, false}

pub data Stop : Type 0 where
  panicking waiting : Stop

pub data Result (A : Type 0) : Type 0 where
  ok : A → Result A
  stopped : Stop → Result A

abbrev pub M : Type 0 → Type 0 → Type 0
M S A = S → Result (A × S)

infixl 5 ◌>>=◌ ◌>>◌
abbrev pub ◌>>=◌ : {S A B : Type 0} → M S A → (A → M S B) → M S B
◌>>=◌ m f s = elim (m s) [ ok (a, s') ↦ f a s' | stopped e ↦ stopped e ]

abbrev pub ◌>>◌ : {S B : Type 0} → M S (Unit {0}) → M S B → M S B
m >> k = m >>= λ _. k

module _ {S : Type 0} where
  abbrev pub pure : {A : Type 0} → A → M S A
  pure a s = ok (a, s)

  abbrev pub panic : {A : Type 0} → M S A
  panic s = stopped panicking

  abbrev pub gets : {A : Type 0} → (S → A) → M S A
  gets f s = ok (f s, s)

  abbrev pub change : (S → S) → M S (Unit {0})
  change f s = ok (tt, f s)

  -- `if (b) panic(...);`
  abbrev pub panic_if : Bool → M S (Unit {0})
  panic_if b s = elim b [ true ↦ stopped panicking | false ↦ ok (tt, s) ]

-- The parts of a run that ends.
pub >>=-ok :
    {S A B : Type 0} (m : M S A) (f : A → M S B) (s : S) {r : B × S}
    → (m >>= f) s ≡ ok r
    → (a : A) × (s' : S) × (m s ≡ ok (a, s')) × (f a s' ≡ ok r)
>>=-ok {S} {A} {B} m f s {r} e = parts (m s) refl e
  where
    parts :
        (x : Result (A × S))
        → m s ≡ x
        → (elim x as (λ _. Result (B × S)) [ ok (a, s') ↦ f a s' | stopped e ↦ stopped e ]) ≡ ok r
        → (a : A) × (s' : S) × (m s ≡ ok (a, s')) × (f a s' ≡ ok r)
    parts (ok (a, s')) p q = (a, s', p, q)
    parts (stopped z) p q = cc

module _ {S : Type 0} where
  abbrev pub when : Bool → M S (Unit {0}) → M S (Unit {0})
  when b m s = elim b [ true ↦ m s | false ↦ ok (tt, s) ]

  -- `for (i = a; i < a + n; i++) f(i);`
  unfoldable pub for_each : ℕ → ℕ → (ℕ → M S (Unit {0})) → M S (Unit {0})
  for_each zero i f s = ok (tt, s)
  for_each (suc n) i f s = elim (f i s) [
    | ok (u, s') ↦ for_each n (i + 1) f s'
    | stopped e ↦ stopped e
  ]

pub ok_inj : {A : Type 0} {a b : A} → ok a ≡ ok b → a ≡ b
ok_inj e = cc

-- A run whose first part is known.
pub >>=-run :
    {S A B : Type 0} (m : M S A) (f : A → M S B) (s : S) (a : A) (s' : S)
    → m s ≡ ok (a, s')
    → (m >>= f) s ≡ f a s'
>>=-run m f s a s' e = rw (◌>>=◌, e)

pub panic_if-ok :
    {S : Type 0} (b : Bool) (s : S) {r : Unit {0} × S}
    → panic_if b s ≡ ok r
    → (b ≡ false) × (r ≡ (tt, s))
panic_if-ok true s e = cc
panic_if-ok false s e = (refl, sym (ok_inj e))
