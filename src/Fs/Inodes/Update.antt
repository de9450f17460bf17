-- ===== src/Fs/Inodes/Update.antt =====
-- Lab/code/fs.c: `iupdate` changes the inode on the disk, and no other inode.
use xmu_learning_os.Base.{
  Bool-cases, Bytes, ap, arith, inl, inr, ltb, ok, sym, update, ℕ, ◌*◌, ◌+◌, ◌<◌, ◌==◌, ◌∙◌, ◌≡◌,
  ◌≢◌, ◌≤◌, ◌⊎◌,
}
use xmu_learning_os.Fs.{Fs, Inode, Superblock, iblock, ioffset}
use xmu_learning_os.Fs.Access.{write_block-ok}
use xmu_learning_os.Fs.Inodes.{iupdate, load_dinode, store_dinode}
use xmu_learning_os.Fs.Inodes.Dinode.{
  Fits, SameDinode, get_half-same, get_word-same, load_dinode-store_dinode, store_dinode-outside,
}
use mathlib.Core.Path.{subst}

-- Where an inode's copy on the disk is, as `ilock` loads it.
abbrev pub on_disk : Fs → ℕ → ℕ → Inode → Inode
on_disk s d n x = load_dinode (s.content d (iblock n s.sb)) (ioffset n) x

load_dinode_same :
    (w w' : Bytes) (a : ℕ) (x : Inode)
    → ((b : ℕ) → a ≤ b → b < a + 128 → w b ≡ w' b)
    → SameDinode (load_dinode w a x) (load_dinode w' a x)
unfolding load_dinode
load_dinode_same w w' a x at =
    let half = λ (o : ℕ) (h : o + 2 ≤ 128).
      get_half-same w w' (a + o) (at (a + o) (omega arith) (omega arith))
        (at (a + o + 1) (omega arith) (omega arith)) in
    let word = λ (b : ℕ) (l : a ≤ b) (h : b + 4 ≤ a + 128).
      get_word-same w w' b (at b (omega arith) (omega arith))
        (at (b + 1) (omega arith) (omega arith)) (at (b + 2) (omega arith) (omega arith))
        (at (b + 3) (omega arith) (omega arith)) in
    record {
      same_kind =
          get_half-same w w' a (at a (omega arith) (omega arith))
            (at (a + 1) (omega arith) (omega arith));
      same_major = half 2 (omega arith);
      same_minor = half 4 (omega arith);
      same_nlink = half 6 (omega arith);
      same_size = word (a + 8) (omega arith) (omega arith);
      same_addrs = λ k h. ground (arith, word (a + 12 + 4 * k) (omega arith) (omega arith));
    }

iupdate-ok :
    (i : ℕ) (s s' : Fs)
    → iupdate i s ≡ ok (tt, s')
    → let ip = s.inodes i in
      (s'.content
        ≡ update s.content ip.dev (
            update
              (s.content ip.dev)
              (iblock ip.inum s.sb)
              (store_dinode ip (s.content ip.dev (iblock ip.inum s.sb)) (ioffset ip.inum))))
      × (s'.sb ≡ s.sb)
      × (s'.inodes ≡ s.inodes)
unfolding iupdate
iupdate-ok i s s' e =
    let ip = s.inodes i in
    write_block-ok ip.dev (iblock ip.inum s.sb)
      (store_dinode ip (s.content ip.dev (iblock ip.inum s.sb)) (ioffset ip.inum)) s s' e

other_number : (ip : Inode) (d n : ℕ) → ip.dev ≡ d → (d ≢ ip.dev) ⊎ (n ≢ ip.inum) → n ≢ ip.inum
other_number ip d n e (inl h) = absurd (h (sym e))
other_number ip d n e (inr h) = h

-- Two inodes of one block do not overlap.
apart_offsets :
    (m n : ℕ) (sb : Superblock) (b : ℕ)
    → n ≢ m
    → iblock m sb ≡ iblock n sb
    → ioffset n ≤ b
    → b < ioffset n + 128
    → (b < ioffset m) ⊎ (ioffset m + 128 ≤ b)
apart_offsets m n sb b h p lo hi = elim (Bool-cases (ltb b (ioffset m))) [
  | inl l ↦ inl (ground arith)
  | inr l ↦ inr (ground arith)
]

-- The bytes of another inode.
other_bytes :
    (ip : Inode) (c : ℕ → ℕ → Bytes) (sb : Superblock) (d n b : ℕ)
    → (d ≢ ip.dev) ⊎ (n ≢ ip.inum)
    → ioffset n ≤ b
    → b < ioffset n + 128
    → update c ip.dev
        (update
          (c ip.dev)
          (iblock ip.inum sb)
          (store_dinode ip (c ip.dev (iblock ip.inum sb)) (ioffset ip.inum)))
        d
        (iblock n sb)
        b
      ≡ c d (iblock n sb) b
other_bytes ip c sb d n b h lo hi = elim (Bool-cases (ip.dev == d)) [
  | inr f ↦ ground arith
  | inl f ↦ elim (Bool-cases (iblock ip.inum sb == iblock n sb)) [
    | inr g ↦ (let e : ip.dev ≡ d = ground arith in ground (arith, ap (λ z. c z (iblock n sb) b) e))
    | inl g ↦
        (let e : ip.dev ≡ d = ground arith in
          let p : iblock ip.inum sb ≡ iblock n sb = ground arith in
          ground (
            arith,
            store_dinode-outside ip (c ip.dev (iblock ip.inum sb)) (ioffset ip.inum) b
                (apart_offsets ip.inum n sb b (other_number ip d n e h) p lo hi),
            ap (λ z. c z (iblock n sb) b) e,
            ap (λ z. c ip.dev z b) p,
          ))
  ]
]

update_hit : (c : ℕ → ℕ → Bytes) (d b : ℕ) (w : Bytes) → update c d (update (c d) b w) d b ≡ w
update_hit c d b w = ground arith

-- An `iupdate` that does not panic leaves on the disk, at the inode's number, what `ilock` then
-- loads as the same inode, where its fields fit; what it would load of every other inode, of the
-- same block too, stays, and so does the inode cache.
pub iupdate_lem :
    (i : ℕ) (s s' : Fs) (x : Inode)
    → iupdate i s ≡ ok (tt, s')
    → Fits (s.inodes i)
    → SameDinode (on_disk s' (s.inodes i).dev (s.inodes i).inum x) (s.inodes i)
      × ((d n : ℕ)
          → (d ≢ (s.inodes i).dev) ⊎ (n ≢ (s.inodes i).inum)
          → SameDinode (on_disk s' d n x) (on_disk s d n x))
      × (s'.inodes ≡ s.inodes)
iupdate_lem i s s' x e v =
    let ip = s.inodes i in
    let w = store_dinode ip (s.content ip.dev (iblock ip.inum s.sb)) (ioffset ip.inum) in
    let (c, b, t) = iupdate-ok i s s' e in
    (
      subst (λ z. SameDinode (load_dinode z (ioffset ip.inum) x) ip)
          (sym (
            ap (λ z. s'.content ip.dev (iblock ip.inum z)) b
            ∙ ap (λ z. z ip.dev (iblock ip.inum s.sb)) c
            ∙ update_hit s.content ip.dev (iblock ip.inum s.sb) w))
          (load_dinode-store_dinode ip x (s.content ip.dev (iblock ip.inum s.sb)) (ioffset ip.inum)
            v),
      λ d n h.
          load_dinode_same (s'.content d (iblock n s'.sb)) (s.content d (iblock n s.sb)) (ioffset n)
            x
            (λ y lo hi.
              ap (λ z. s'.content d (iblock n z) y) b
              ∙ ap (λ z. z d (iblock n s.sb) y) c
              ∙ other_bytes ip s.content s.sb d n y h lo hi),
      t,
    )
