-- ===== src/Fs/Inodes/Cache.antt =====
-- Lab/code/fs.c: the scan of `iget`, and what `iget` returns.
use xmu_learning_os.Base.{
  Bool-cases, Option, add32, ap, arith, false, inl, inr, none, ok, ok_inj, panicking, refl, some,
  some_inj, stopped, suc, sym, true, update, zero, ℕ, ◌+◌, ◌<◌, ◌==◌, ◌∙◌, ◌≡◌, ◌≢◌, ◌≤◌, ◌⊎◌,
}
use xmu_learning_os.Fs.{Fs, Inode, ninode}
use xmu_learning_os.Fs.Inodes.{
  Place, cached, find_place, first_empty, fresh_inode, iget, is_cached, vacant,
}
use mathlib.Core.Path.{subst}

-- What the scan of `iget` finds.
find_place-cached :
    (d k n i : ℕ) (empty : Option ℕ) (t : ℕ → Inode) (j : ℕ)
    → find_place d k n i empty t ≡ cached j
    → (i ≤ j) × (j < i + n) × (is_cached d k (t j) ≡ true)
unfolding find_place
find_place-cached d k zero i empty t j e = absurd (ground arith)
find_place-cached d k (suc n) i empty t j e =
    ground (arith, find_place-cached d k n (i + 1) (first_empty empty i (t i)) t j)

find_place-absent :
    (d k n i : ℕ) (empty v : Option ℕ) (t : ℕ → Inode) (j : ℕ)
    → find_place d k n i empty t ≡ vacant v
    → i ≤ j
    → j < i + n
    → is_cached d k (t j) ≡ false
unfolding find_place
find_place-absent d k zero i empty v t j e h l = absurd (omega arith)
find_place-absent d k (suc n) i empty v t j e h l = elim (Bool-cases (i == j)) [
  | inl s ↦ ground arith
  | inr s ↦ ground (arith, find_place-absent d k n (i + 1) (first_empty empty i (t i)) v t j)
]

find_place-kept :
    (d k n i m : ℕ) (v : Option ℕ) (t : ℕ → Inode)
    → find_place d k n i (some m) t ≡ vacant v
    → v ≡ some m
unfolding find_place
find_place-kept d k zero i m v t e = ground arith
find_place-kept d k (suc n) i m v t e = ground (arith, find_place-kept d k n (i + 1) m v t)

find_place-vacant :
    (d k n i : ℕ) (t : ℕ → Inode) (j : ℕ)
    → find_place d k n i none t ≡ vacant (some j)
    → (i ≤ j) × (j < i + n) × ((t j).ref ≡ 0)
unfolding find_place
find_place-vacant d k zero i t j e = absurd (ground arith)
find_place-vacant d k (suc n) i t j e = elim (Bool-cases ((t i).ref == 0)) [
  | inl z ↦
      (let q : some j ≡ some i = ground (arith, find_place-kept d k n (i + 1) i (some j) t) in
        let p = some_inj q in (omega arith, omega arith, ap (λ x. (t x).ref) p ∙ ground arith))
  | inr z ↦ ground (arith, find_place-vacant d k n (i + 1) t j)
]

find_place-full :
    (d k n i : ℕ) (t : ℕ → Inode) (j : ℕ)
    → find_place d k n i none t ≡ vacant none
    → i ≤ j
    → j < i + n
    → (t j).ref ≢ 0
unfolding find_place
find_place-full d k zero i t j e h l = absurd (omega arith)
find_place-full d k (suc n) i t j e h l = elim (Bool-cases ((t i).ref == 0)) [
  | inl z ↦ absurd (ground (arith, find_place-kept d k n (i + 1) i none t))
  | inr z ↦ elim (Bool-cases (i == j)) [
    | inl s ↦ (let p : i ≡ j = ground arith in subst (λ x. (t x).ref ≢ 0) p (λ y. ground arith))
    | inr s ↦ ground (arith, find_place-full d k n (i + 1) t j)
  ]
]

Place-cases :
    (x : Place) → ((i : ℕ) × (x ≡ cached i)) ⊎ ((i : ℕ) × (x ≡ vacant (some i))) ⊎ (x ≡ vacant none)
Place-cases (cached i) = inl (i, refl)
Place-cases (vacant (some i)) = inr (inl (i, refl))
Place-cases (vacant none) = inr (inr refl)

abbrev pub with_ref : ℕ → ℕ → (ℕ → Inode) → ℕ → Inode
with_ref i r t = update t i (record (t i) { ref = r })

-- The cache after `iget` has returned the slot `i`: the inode was there and has one more
-- reference, or it was nowhere and the slot, which was free, is now its own.
unfoldable pub Got : ℕ → ℕ → (ℕ → Inode) → ℕ → (ℕ → Inode) → Type 0
Got d k t i t' =
    (i < ninode)
    × (((is_cached d k (t i) ≡ true) × (t' ≡ with_ref i (add32 (t i).ref 1) t))
        ⊎ (((j : ℕ) → j < ninode → is_cached d k (t j) ≡ false)
            × ((t i).ref ≡ 0)
            × (t' ≡ update t i (fresh_inode d k (t i)))))

module _ (d k : ℕ) (s : Fs) where
  iget_hit :
      (i : ℕ)
      → find_place d k ninode 0 none s.inodes ≡ cached i
      → iget d k s ≡ ok (i, record s { inodes = with_ref i (add32 (s.inodes i).ref 1) s.inodes })
  unfolding iget
  iget_hit i e = rw (iget, e)

  iget_miss :
      (i : ℕ)
      → find_place d k ninode 0 none s.inodes ≡ vacant (some i)
      → iget d k s ≡ ok (i, record s { inodes = update s.inodes i (fresh_inode d k (s.inodes i)) })
  unfolding iget
  iget_miss i e = rw (iget, e)

  iget_full : find_place d k ninode 0 none s.inodes ≡ vacant none → iget d k s ≡ stopped panicking
  unfolding iget
  iget_full e = rw (iget, e)

  -- What `iget` returns and does where it does not panic.
  pub iget-ok : (i : ℕ) (s' : Fs) → iget d k s ≡ ok (i, s') → Got d k s.inodes i s'.inodes
  unfolding Got
  iget-ok i s' e = elim (Place-cases (find_place d k ninode 0 none s.inodes)) [
    | inl (j, p) ↦
        (let (a, b, c) = find_place-cached d k ninode 0 none s.inodes j p in
          subst (λ x. Got d k s.inodes x.0 (x.1).inodes) (ok_inj (sym (iget_hit j p) ∙ e))
            (b, inl (c, refl)))
    | inr (inl (j, p)) ↦
        (let (a, b, c) = find_place-vacant d k ninode 0 s.inodes j p in
          subst (λ x. Got d k s.inodes x.0 (x.1).inodes) (ok_inj (sym (iget_miss j p) ∙ e))
            (
              b,
              inr (
                λ x h. find_place-absent d k ninode 0 none (some j) s.inodes x p (omega arith) h,
                c,
                refl,
              ),
            ))
    | inr (inr p) ↦ absurd (let f = iget_full p in ground (arith, f, e))
  ]
