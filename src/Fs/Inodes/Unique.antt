-- ===== src/Fs/Inodes/Unique.antt =====
-- Lab/code/fs.c: the inode cache keeps one copy of an inode, under `iget`, `idup` and the end of
-- `iput`, with any change of what is read from the disk in between.
use xmu_learning_os.Base.{
  Bool-cases, add32, ap, arith, false, inl, inr, ok, ok_inj, slt, sub32, sym, true, update, ℕ, ◌<◌,
  ◌==◌, ◌≡◌,
}
use xmu_learning_os.Fs.{Fs, Inode, ninode}
use xmu_learning_os.Fs.Inodes.{fresh_inode, idup, iget, is_cached}
use xmu_learning_os.Fs.Inodes.Cache.{Got, iget-ok, with_ref}
use xmu_learning_os.Fs.Release.{drop_inode_ref}
use mathlib.Core.Path.{subst}

-- No inode is in the cache twice.
unfoldable pub OneEntry : (ℕ → Inode) → Type 0
OneEntry t =
    (d k i j : ℕ)
    → i < ninode
    → j < ninode
    → is_cached d k (t i) ≡ true
    → is_cached d k (t j) ≡ true
    → i ≡ j

-- `iget`, `idup`, the last step of `iput`, and any change of the other fields, by operations on
-- inodes that have references.
pub data Step : Fs → Fs → Type 0 where
  gets_inode : {s s' : Fs} (d k i : ℕ) → iget d k s ≡ ok (i, s') → Step s s'
  adds_ref :
      {s s' : Fs} (i j : ℕ) → slt 0 (s.inodes i).ref ≡ true → idup i s ≡ ok (j, s') → Step s s'
  drops_ref :
      {s s' : Fs} (i : ℕ)
      → slt 0 (s.inodes i).ref ≡ true
      → drop_inode_ref i s ≡ ok (tt, s')
      → Step s s'
  changes :
      {s s' : Fs}
      → ((i : ℕ) → (s'.inodes i).dev ≡ (s.inodes i).dev)
      → ((i : ℕ) → (s'.inodes i).inum ≡ (s.inodes i).inum)
      → ((i : ℕ) → (s'.inodes i).ref ≡ (s.inodes i).ref)
      → Step s s'

pub data Reach (start : Fs) : Fs → Type 0 where
  here : Reach start start
  next : {s s' : Fs} → Reach start s → Step s s' → Reach start s'

-- Where an inode is cached after the step, it was before.
OneEntry-fewer :
    (t t' : ℕ → Inode)
    → ((d k i : ℕ) → is_cached d k (t' i) ≡ true → is_cached d k (t i) ≡ true)
    → OneEntry t
    → OneEntry t'
unfolding OneEntry
OneEntry-fewer t t' f one d k i j hi hj ci cj = one d k i j hi hj (f d k i ci) (f d k j cj)

with_ref-is_cached :
    (i r : ℕ) (t : ℕ → Inode)
    → slt 0 (t i).ref ≡ true
    → (d k x : ℕ) → is_cached d k (with_ref i r t x) ≡ true
    → is_cached d k (t x) ≡ true
with_ref-is_cached i r t h d k x c = elim (Bool-cases (i == x)) [
  | inl s ↦
      (let e : i ≡ x = ground arith in
        ground (arith, ap (λ y. (t y).ref) e, ap (λ y. (t y).dev) e, ap (λ y. (t y).inum) e))
  | inr s ↦ ground arith
]

OneEntry-fresh :
    (d k i : ℕ) (t : ℕ → Inode)
    → ((j : ℕ) → j < ninode → is_cached d k (t j) ≡ false)
    → OneEntry t
    → OneEntry (update t i (fresh_inode d k (t i)))
unfolding OneEntry
OneEntry-fresh d k i t absent one d' k' x y hx hy cx cy = elim (Bool-cases (i == x)) [
  | inl ix ↦ elim (Bool-cases (i == y)) [
    | inl iy ↦ ground arith
    | inr ny ↦ absurd (ground (arith, absent y hy))
  ]
  | inr nx ↦ elim (Bool-cases (i == y)) [
    | inl iy ↦ absurd (ground (arith, absent x hx))
    | inr ny ↦ one d' k' x y hx hy (ground arith) (ground arith)
  ]
]

idup-inodes :
    (i j : ℕ) (s s' : Fs)
    → idup i s ≡ ok (j, s')
    → s'.inodes ≡ with_ref i (add32 (s.inodes i).ref 1) s.inodes
unfolding idup
idup-inodes i j s s' e = sym (ap (λ x. x.1.inodes) (ok_inj e))

drop_inode_ref-inodes :
    (i : ℕ) (s s' : Fs)
    → drop_inode_ref i s ≡ ok (tt, s')
    → s'.inodes ≡ with_ref i (sub32 (s.inodes i).ref 1) s.inodes
unfolding drop_inode_ref
drop_inode_ref-inodes i s s' e = sym (ap (λ x. x.1.inodes) (ok_inj e))

OneEntry-with_ref :
    (i r : ℕ) (t t' : ℕ → Inode)
    → slt 0 (t i).ref ≡ true
    → t' ≡ with_ref i r t
    → OneEntry t
    → OneEntry t'
OneEntry-with_ref i r t t' h e one =
    subst OneEntry (sym e) (OneEntry-fewer t (with_ref i r t) (with_ref-is_cached i r t h) one)

Step-OneEntry : {s s' : Fs} → Step s s' → OneEntry s.inodes → OneEntry s'.inodes
unfolding Got
Step-OneEntry {s} {s'} (gets_inode d k i e) one = elim (iget-ok d k s i s' e).1 [
  | inl (c, q) ↦
      OneEntry-with_ref i (add32 (s.inodes i).ref 1) s.inodes s'.inodes (ground arith) q one
  | inr (absent, z, q) ↦ subst OneEntry (sym q) (OneEntry-fresh d k i s.inodes absent one)
]
Step-OneEntry {s} {s'} (adds_ref i j h e) one =
    OneEntry-with_ref i (add32 (s.inodes i).ref 1) s.inodes s'.inodes h (idup-inodes i j s s' e) one
Step-OneEntry {s} {s'} (drops_ref i h e) one =
    OneEntry-with_ref i (sub32 (s.inodes i).ref 1) s.inodes s'.inodes h
      (drop_inode_ref-inodes i s s' e) one
Step-OneEntry {s} {s'} (changes a b c) one =
    OneEntry-fewer s.inodes s'.inodes (λ d k i x. ground (arith, a i, b i, c i)) one

Reach-keeps : {s s' : Fs} → Reach s s' → OneEntry s.inodes → OneEntry s'.inodes
Reach-keeps here v = v
Reach-keeps (next r p) v = Step-OneEntry p (Reach-keeps r v)

-- From a cache without references on, no inode is ever in two slots: after any calls of `iget` that
-- return, any calls of `idup` on slots with references, any ends of `iput` on such slots, and any
-- changes of the fields other than `dev`, `inum` and `ref` in between.
pub Reach-OneEntry :
    {s s' : Fs} → ((i : ℕ) → (s.inodes i).ref ≡ 0) → Reach s s' → OneEntry s'.inodes
unfolding OneEntry
Reach-OneEntry {s} {s'} z r =
    Reach-keeps r (λ d k i j hi hj ci cj. absurd (ground (arith, z i, ci)))
