-- ===== src/Fs/Content/Address.antt =====
-- Lab/code/fs.c: where the blocks of a file are: `bmap` on a file whose blocks are allocated.
use xmu_learning_os.Base.{
  >>=-run, Bool-cases, Bytes, ap, arith, false, get_word, gets, if◌then◌else◌, inl, inr, ltb, ok,
  sym, true, update, ℕ, ◌*◌, ◌-◌, ◌<◌, ◌>>=◌, ◌∙◌, ◌≡◌, ◌≢◌, ◌≤◌,
}
use xmu_learning_os.Fs.{Fs, maxfile, ndirect, nindirect}
use xmu_learning_os.Fs.Content.{bmap, indirect_block, own_block}

-- The block that holds the block `bn` of a file, by its addresses and the contents of the disk.
abbrev pub addr_of : (ℕ → Bytes) → (ℕ → ℕ) → ℕ → ℕ
addr_of c a bn = if ltb bn ndirect then a bn else get_word (c (a ndirect)) (4 * (bn - ndirect))

-- The first `nb` blocks of the file are allocated, each for itself, and none is the indirect block.
pub record IsMapped (c : ℕ → Bytes) (a : ℕ → ℕ) (nb : ℕ) : Type 0 where
  pub short_enough : nb ≤ maxfile
  pub allocated : (k : ℕ) → k < nb → addr_of c a k ≢ 0
  pub indirect : ndirect < nb → a ndirect ≢ 0
  pub distinct_blocks : (k l : ℕ) → k < nb → l < nb → addr_of c a k ≡ addr_of c a l → k ≡ l
  pub apart : (k : ℕ) → ndirect < nb → k < nb → addr_of c a k ≢ a ndirect

own_block-set :
    (i k : ℕ) (s : Fs) → (s.inodes i).addrs k ≢ 0 → own_block i k s ≡ ok ((s.inodes i).addrs k, s)
unfolding own_block
own_block-set i k s h = ground arith

indirect_block-set :
    (d a k : ℕ) (s : Fs)
    → get_word (s.content d a) (4 * k) ≢ 0
    → indirect_block d a k s ≡ ok (get_word (s.content d a) (4 * k), s)
unfolding indirect_block
indirect_block-set d a k s h = ground arith

addr_of_direct :
    (c : ℕ → Bytes) (a : ℕ → ℕ) (bn : ℕ) → ltb bn ndirect ≡ true → addr_of c a bn ≡ a bn
addr_of_direct c a bn l = rw (l)

addr_of_indirect :
    (c : ℕ → Bytes) (a : ℕ → ℕ) (bn : ℕ)
    → ltb bn ndirect ≡ false
    → addr_of c a bn ≡ get_word (c (a ndirect)) (4 * (bn - ndirect))
addr_of_indirect c a bn l = rw (l)

bmap_direct : (i bn : ℕ) → ltb bn ndirect ≡ true → bmap i bn ≡ own_block i bn
unfolding bmap
bmap_direct i bn l = rw (bmap, l)

bmap_indirect :
    (i bn : ℕ)
    → ltb bn ndirect ≡ false
    → ltb (bn - ndirect) nindirect ≡ true
    → bmap i bn ≡ (
        own_block i ndirect >>= λ a.
        gets (λ s. s.inodes i) >>= λ ip. indirect_block ip.dev a (bn - ndirect))
unfolding bmap
bmap_indirect i bn l r = rw (bmap, l, r)

-- On an allocated block `bmap` returns its address and changes nothing.
pub bmap-IsMapped :
    (i bn nb : ℕ) (s : Fs)
    → let ip = s.inodes i in
      IsMapped (s.content ip.dev) ip.addrs nb
      → bn < nb
      → bmap i bn s ≡ ok (addr_of (s.content ip.dev) ip.addrs bn, s)
bmap-IsMapped i bn nb s v h =
    let ip = s.inodes i in
    let c = s.content ip.dev in
    elim (Bool-cases (ltb bn ndirect)) [
      | inl l ↦
          (let e = addr_of_direct c ip.addrs bn l in
            ap (λ m. m s) (bmap_direct i bn l)
            ∙ own_block-set i bn s (λ z. v.allocated bn h (e ∙ z))
            ∙ ap (λ x. ok (x, s)) (sym e))
      | inr l ↦
          (let e = addr_of_indirect c ip.addrs bn l in
            ap (λ m. m s) (bmap_indirect i bn l (ground (arith, v.short_enough)))
            ∙ >>=-run (own_block i ndirect)
                (λ a. gets (λ s. s.inodes i) >>= λ ip. indirect_block ip.dev a (bn - ndirect)) s
                (ip.addrs ndirect) s (own_block-set i ndirect s (v.indirect (ground arith)))
            ∙ indirect_block-set ip.dev (ip.addrs ndirect) (bn - ndirect) s
                (λ z. v.allocated bn h (e ∙ z))
            ∙ ap (λ x. ok (x, s)) (sym e))
    ]

-- A write into a block of the file leaves its blocks where they are.
pub addr_of-update :
    (c : ℕ → Bytes) (a : ℕ → ℕ) (nb k : ℕ) (w : Bytes)
    → IsMapped c a nb
    → k < nb
    → (l : ℕ) → l < nb
    → addr_of (update c (addr_of c a k) w) a l ≡ addr_of c a l
addr_of-update c a nb k w v h l m = elim (Bool-cases (ltb l ndirect)) [
  | inl f ↦ ground arith
  | inr f ↦ ground (arith, v.apart k (ground arith) h)
]
