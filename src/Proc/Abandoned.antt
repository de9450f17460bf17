-- ===== src/Proc/Abandoned.antt =====
-- What the loop of `exit` over the children of the exiting process leaves in the table.
use xmu_learning_os.Base.{
  Bool-cases, Option, arith, each, each-at, false, if◌then◌else◌, inl, inr, ltb, lt→ltb, refl, some,
  suc, true, update, zero, ℕ, ◌&&◌, ◌<◌, ◌==◌, ◌∙◌, ◌≡◌,
}
use xmu_learning_os.Proc.{Chan, Proc, chan_of, is_sleeping, is_zombie, nproc, same_chan, same_ref}
use xmu_learning_os.Proc.Exit.{abandon, abandon_at}
use xmu_learning_os.Proc.Sleep.{wake}

-- `q` is `p`, but for its parent, or because it was woken.
abbrev pub Keeps : Proc → Proc → Type 0
Keeps p q =
    (q.isthread ≡ p.isthread)
    × (q.chan ≡ p.chan)
    × (is_zombie q.state ≡ is_zombie p.state)
    × (is_sleeping q.state ≡ true → is_sleeping p.state ≡ true)

Keeps-trans : (p q r : Proc) → Keeps p q → Keeps q r → Keeps p r
Keeps-trans p q r a b = (b.0 ∙ a.0, b.1 ∙ a.1, b.2 ∙ a.2, λ s. a.3 (b.3 s))

pub wake-Keeps : (c : Chan) (p : Proc) → Keeps p (wake c p) × ((wake c p).parent ≡ p.parent)
unfolding wake
wake-Keeps c p = ground arith

pub wake-asleep :
    (c : Chan) (p : Proc)
    → is_sleeping (wake c p).state ≡ true
    → same_chan (wake c p).chan c ≡ false
unfolding wake
wake-asleep c p s = ground arith

-- A pass of `wake` over the table.
pub wake_all :
    (c : Chan) (t : ℕ → Proc) (j : ℕ)
    → Keeps (t j) (each nproc (wake c) t j) × ((each nproc (wake c) t j).parent ≡ (t j).parent)
wake_all c t j = elim (Bool-cases (ltb j nproc)) [
  | inl e ↦ rw (each-at nproc (wake c) t j, e) (wake-Keeps c (t j))
  | inr e ↦ rw (each-at nproc (wake c) t j, e) ((refl, refl, refl, λ s. s), refl)
]

pub wake_all-asleep :
    (c : Chan) (t : ℕ → Proc) (j : ℕ)
    → j < nproc
    → is_sleeping (each nproc (wake c) t j).state ≡ true
    → same_chan (each nproc (wake c) t j).chan c ≡ false
wake_all-asleep c t j h = rw (each-at nproc (wake c) t j, lt→ltb j nproc h) (wake-asleep c (t j))

-- One round of the loop.
module _ (ini : Option ℕ) (cur : ℕ) where
  round-Keeps :
      (n : ℕ) (t : ℕ → Proc) (j : ℕ)
      → Keeps (t j) (abandon_at ini cur n t j)
        × ((abandon_at ini cur n t j).parent
            ≡ (if n == j && same_ref (t j).parent (some cur) then ini else (t j).parent))
  unfolding abandon_at
  round-Keeps n t j =
      ground (arith, wake_all (chan_of ini) (update t n (record (t n) { parent = ini })) j)

  round-wakes :
      (n : ℕ) (t : ℕ → Proc) (i : ℕ)
      → same_ref (t n).parent (some cur) ≡ true
      → is_zombie (t n).state ≡ true
      → i < nproc
      → is_sleeping (abandon_at ini cur n t i).state ≡ true
      → same_chan (abandon_at ini cur n t i).chan (chan_of ini) ≡ false
  unfolding abandon_at
  round-wakes n t i p z h =
      rw (p, z) (wake_all-asleep (chan_of ini) (update t n (record (t n) { parent = ini })) i h)

  -- The loop changes no process but its parent, and wakes sleepers.
  pub abandon-Keeps : (n : ℕ) (t : ℕ → Proc) (j : ℕ) → Keeps (t j) (abandon n ini cur t j)
  unfolding abandon
  abandon-Keeps zero t j = (refl, refl, refl, λ s. s)
  abandon-Keeps (suc n) t j =
      let t' = abandon n ini cur t in
      Keeps-trans (t j) (t' j) (abandon_at ini cur n t' j) (abandon-Keeps n t j)
        (round-Keeps n t' j).0

  -- The children before `n`, and no others, are init's.
  pub abandon-parent :
      (n : ℕ) (t : ℕ → Proc) (j : ℕ)
      → (abandon n ini cur t j).parent
        ≡ (if ltb j n && same_ref (t j).parent (some cur) then ini else (t j).parent)
  unfolding abandon
  abandon-parent zero t j = ground arith
  abandon-parent (suc n) t j =
      ground (arith, abandon-parent n t j, (round-Keeps n (abandon n ini cur t) j).1)

  -- Where one of them has exited already, nobody is left asleep on init.
  pub abandon-wakes :
      (n : ℕ) (t : ℕ → Proc) (j i : ℕ)
      → same_ref (t j).parent (some cur) ≡ true
      → is_zombie (t j).state ≡ true
      → j < n
      → i < nproc
      → is_sleeping (abandon n ini cur t i).state ≡ true
      → same_chan (abandon n ini cur t i).chan (chan_of ini) ≡ false
  unfolding abandon
  abandon-wakes zero t j i p z l h s = absurd (omega arith)
  abandon-wakes (suc n) t j i p z l h s =
      let t' = abandon n ini cur t in
      elim (Bool-cases (j == n)) [
        | inl e ↦ ground (arith, abandon-parent n t n, abandon-Keeps n t n, round-wakes n t' i)
        | inr e ↦ ground (arith, abandon-wakes n t j i, round-Keeps n t' i)
      ]
