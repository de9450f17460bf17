-- ===== src/Fs/Blocks/Allocate.antt =====
-- Lab/code/fs.c: `balloc` takes the first block that is not marked, and `bfree` gives it back.
use xmu_learning_os.Base.{
  >>=-ok, Bool, Bool-cases, Bytes, Option-cases, ap, arith, false, fill, first-before, first-none,
  first-some, if◌then◌else◌, inl, inr, ltb, none, not, ok, ok_inj, pure, refl, some, suc, sym, true,
  update, zero, ℕ, ◌%◌, ◌+◌, ◌-◌, ◌<◌, ◌>>◌, ◌∙◌, ◌≡◌, ◌≤◌,
}
use xmu_learning_os.Fs.{Fs, Superblock, bblock, bpb, bsize, bzero, write_block}
use xmu_learning_os.Fs.Access.{write_block-ok}
use xmu_learning_os.Fs.Blocks.{
  balloc, balloc_from, bitmap_blocks, claim, find_clear, is_marked, mark,
}

-- Whether the bitmap has the block `b` as used.
abbrev pub is_used : Fs → ℕ → ℕ → Bool
is_used s d b = is_marked (s.content d (bblock b s.sb)) (b % bpb)

find_clear-some :
    (b : ℕ) (sb : Superblock) (w : Bytes) (bi : ℕ)
    → find_clear b sb w ≡ some bi
    → (bi < bpb)
      × (b + bi < sb.size)
      × (is_marked w bi ≡ false)
      × ((k : ℕ) → k < bi → is_marked w k ≡ true)
unfolding find_clear
find_clear-some b sb w bi e =
    let n = if ltb (sb.size - b) bpb then sb.size - b else bpb in
    let (lo, hi, t) = first-some (λ used. not used) n 0 (λ k. is_marked w k) bi e in
    (
      ground arith,
      ground arith,
      ground (arith, t),
      λ k h.
          ground (
            arith,
            first-before (λ used. not used) n 0 (λ x. is_marked w x) bi k e (omega arith) h,
          ),
    )

find_clear-none :
    (b : ℕ) (sb : Superblock) (w : Bytes) (k : ℕ)
    → find_clear b sb w ≡ none
    → k < bpb
    → b + k < sb.size
    → is_marked w k ≡ true
unfolding find_clear
find_clear-none b sb w k e h l =
    let n = if ltb (sb.size - b) bpb then sb.size - b else bpb in
    ground (
      arith,
      first-none (λ used. not used) n 0 (λ x. is_marked w x) k e (omega arith) (ground arith),
    )

-- Contents after the claim of a block.
unfoldable pub claimed : (ℕ → ℕ → Bytes) → Superblock → ℕ → ℕ → ℕ → ℕ → Bytes
claimed c sb d b =
    let m = bblock b sb in
    let c1 = update c d (update (c d) m (mark (c d m) (b % bpb))) in
    update c1 d (update (c1 d) b (fill (c1 d b) 0 0 bsize))

abbrev marked : (ℕ → ℕ → Bytes) → ℕ → ℕ → ℕ → ℕ → ℕ → Bytes
marked c d m k = update c d (update (c d) m (mark (c d m) k))

abbrev zeroed : (ℕ → ℕ → Bytes) → ℕ → ℕ → ℕ → ℕ → Bytes
zeroed c d b = update c d (update (c d) b (fill (c d b) 0 0 bsize))

bzero-ok :
    (d b : ℕ) (s s' : Fs)
    → bzero d b s ≡ ok (tt, s')
    → (s'.content ≡ zeroed s.content d b) × (s'.sb ≡ s.sb) × (s'.inodes ≡ s.inodes)
unfolding bzero
bzero-ok d b s s' e = write_block-ok d b (fill (s.content d b) 0 0 bsize) s s' e

claim-ok :
    (d b bi : ℕ) (s : Fs) (r : ℕ) (s' : Fs)
    → b % bpb ≡ 0
    → bi < bpb
    → claim d b bi s ≡ ok (r, s')
    → (r ≡ b + bi)
      × (s'.content ≡ claimed s.content s.sb d (b + bi))
      × (s'.sb ≡ s.sb)
      × (s'.inodes ≡ s.inodes)
unfolding claim claimed
claim-ok d b bi s r s' z h e =
    let w = mark (s.content d (bblock b s.sb)) bi in
    let (u, s1, p, q) =
      >>=-ok (write_block d (bblock b s.sb) w) (λ v. bzero d (b + bi) >> pure (b + bi)) s e in
    let (v, s2, p', q') = >>=-ok (bzero d (b + bi)) (λ v. pure (b + bi)) s1 q in
    let (c1, b1, i1) = write_block-ok d (bblock b s.sb) w s s1 p in
    let (c2, b2, i2) = bzero-ok d (b + bi) s1 s2 p' in
    let last = ok_inj q' in
    let em : bblock b s.sb ≡ bblock (b + bi) s.sb = omega arith in
    let ek : bi ≡ (b + bi) % bpb = omega arith in
    (
      sym (ap (λ x. x.0) last),
      sym (ap (λ x. x.1.content) last)
          ∙ c2
          ∙ ap (λ c. zeroed c d (b + bi))
              (c1
                ∙ ap (λ m. marked s.content d m bi) em
                ∙ ap (λ k. marked s.content d (bblock (b + bi) s.sb) k) ek),
      sym (ap (λ x. x.1.sb) last) ∙ b2 ∙ b1,
      sym (ap (λ x. x.1.inodes) last) ∙ i2 ∙ i1,
    )

-- Where a block's mark is.
mark_of :
    (b x : ℕ) (sb : Superblock) (c : ℕ → Bytes)
    → b % bpb ≡ 0
    → b ≤ x
    → x < b + bpb
    → is_marked (c (bblock b sb)) (x - b) ≡ is_marked (c (bblock x sb)) (x % bpb)
mark_of b x sb c z h l =
    let em : bblock b sb ≡ bblock x sb = omega arith in
    let ek : x - b ≡ x % bpb = omega arith in
    ap (λ m. is_marked (c m) (x - b)) em ∙ ap (λ k. is_marked (c (bblock x sb)) k) ek

-- The first block from `b` on that is not marked is taken.
unfoldable pub FirstFree : ℕ → ℕ → Fs → ℕ → Fs → Type 0
FirstFree b d s bl s' =
    (b ≤ bl)
    × (bl < s.sb.size)
    × (is_used s d bl ≡ false)
    × ((x : ℕ) → b ≤ x → x < bl → is_used s d x ≡ true)
    × (s'.content ≡ claimed s.content s.sb d bl)
    × (s'.sb ≡ s.sb)
    × (s'.inodes ≡ s.inodes)

from_next :
    (r b d : ℕ) (s : Fs)
    → find_clear b s.sb (s.content d (bblock b s.sb)) ≡ none
    → balloc_from (suc r) b d s ≡ balloc_from r (b + bpb) d s
unfolding balloc_from
from_next r b d s e = rw (balloc_from, e)

from_here :
    (r b d : ℕ) (s : Fs) (bi : ℕ)
    → find_clear b s.sb (s.content d (bblock b s.sb)) ≡ some bi
    → balloc_from (suc r) b d s ≡ claim d b bi s
unfolding balloc_from
from_here r b d s bi e = rw (balloc_from, e)

balloc_from-ok :
    (r b d : ℕ) (s : Fs) (bl : ℕ) (s' : Fs)
    → b % bpb ≡ 0
    → balloc_from r b d s ≡ ok (bl, s')
    → FirstFree b d s bl s'
unfolding balloc_from FirstFree
balloc_from-ok zero b d s bl s' z e = absurd (ground (arith, e))
balloc_from-ok (suc r) b d s bl s' z e =
    elim (Option-cases (find_clear b s.sb (s.content d (bblock b s.sb)))) [
      | inl f ↦
          (let (lo, hi, free, full, c, sb, i) =
              balloc_from-ok r (b + bpb) d s bl s' (omega arith) (sym (from_next r b d s f) ∙ e) in
            (
              omega arith,
              hi,
              free,
              λ x h l. elim (Bool-cases (ltb x (b + bpb))) [
                | inl near ↦
                    sym (mark_of b x s.sb (s.content d) z h (ground arith))
                    ∙ find_clear-none b s.sb (s.content d (bblock b s.sb)) (x - b) f (ground arith)
                        (omega arith)
                | inr far ↦ full x (ground arith) l
              ],
              c,
              sb,
              i,
            ))
      | inr (bi, f) ↦
          (let (small, hi, free, full) =
              find_clear-some b s.sb (s.content d (bblock b s.sb)) bi f in
            let (r', c, sb, i) =
              claim-ok d b bi s bl s' z small (sym (from_here r b d s bi f) ∙ e) in
            let at : bl - b ≡ bi = omega arith in
            (
              omega arith,
              omega arith,
              sym (mark_of b bl s.sb (s.content d) z (omega arith) (omega arith))
                  ∙ ap (λ k. is_marked (s.content d (bblock b s.sb)) k) at
                  ∙ free,
              λ x h l.
                  sym (mark_of b x s.sb (s.content d) z h (omega arith))
                  ∙ full (x - b) (omega arith),
              c ∙ ap (λ y. claimed s.content s.sb d y) (sym r'),
              sb,
              i,
            ))
    ]

pub balloc-FirstFree :
    (d : ℕ) (s : Fs) (bl : ℕ) (s' : Fs) → balloc d s ≡ ok (bl, s') → FirstFree 0 d s bl s'
unfolding balloc
balloc-FirstFree d s bl s' e = balloc_from-ok (bitmap_blocks s.sb) 0 d s bl s' refl e
