-- ===== src/Bio/Unique.antt =====
-- The invariant of the cache of Lab/code/bio.c under `bget` and `brelse`, from `binit` on.
use xmu_learning_os.Base.{
  Bool-cases, [], add32, ap, arith, false, inl, inr, refl, some, sub32, suc, sym, true, update,
  zero, ℕ, ◌==◌, ◌∙◌, ◌≡◌, ◌≢◌,
}
use xmu_learning_os.Bio.{Bcache, Buf, bget, binit, drop_ref, is_block, link_all, nbuf, recycled}
use xmu_learning_os.Bio.Cached.{Refilled, bget-Refilled}
use xmu_learning_os.Bio.Find.{distinct, distinct-unlink, is_in, is_in-unlink, is_in-unlink_other}

-- No buffer stands in the list twice, and a block of a device has one buffer at most. (Device 0 is
-- what a buffer that was never used has.)
pub Sound : Bcache → Type 0
Sound c =
    (distinct c.recent ≡ true)
    × ((d n i j : ℕ)
        → d ≢ 0
        → is_in i c.recent ≡ true
        → is_in j c.recent ≡ true
        → is_block d n (c.buf i) ≡ true
        → is_block d n (c.buf j) ≡ true
        → i ≡ j)

-- A call of `bget` that returns, and what `brelse` does to the cache.
pub data Step : Bcache → Bcache → Type 0 where
  get : {c c' : Bcache} (d n i : ℕ) → bget d n c ≡ some (i, c') → Step c c'
  release : {c : Bcache} (i : ℕ) → is_in i c.recent ≡ true → Step c (drop_ref i c)

-- The caches that calls lead to.
pub data Reach (start : Bcache) : Bcache → Type 0 where
  here : Reach start start
  next : {c c' : Bcache} → Reach start c → Step c c' → Reach start c'

-- `brelse` keeps the list's members, without duplicates.
pub drop_ref-distinct :
    (i : ℕ) (c : Bcache) → distinct c.recent ≡ true → distinct (drop_ref i c).recent ≡ true
unfolding drop_ref distinct
drop_ref-distinct i c h = ground (arith, is_in-unlink i c.recent h, distinct-unlink i c.recent h)

pub is_in-drop_ref :
    (i x : ℕ) (c : Bcache)
    → is_in i c.recent ≡ true
    → is_in x (drop_ref i c).recent ≡ is_in x c.recent
unfolding drop_ref is_in
is_in-drop_ref i x c h = elim (Bool-cases (i == x)) [
  | inl s ↦ (let e : x ≡ i = ground arith in ground (arith, h, ap (λ y. is_in y c.recent) e))
  | inr d ↦ ground (arith, is_in-unlink_other i x c.recent)
]

is_block-update :
    (d n i r x : ℕ) (c : Bcache)
    → is_block d n (update c.buf i (record (c.buf i) { refcnt = r }) x) ≡ is_block d n (c.buf x)
is_block-update d n i r x c = elim (Bool-cases (i == x)) [
  | inl s ↦ (let e : x ≡ i = ground arith in ground (arith, ap (λ y. is_block d n (c.buf y)) e))
  | inr f ↦ ground arith
]

is_block-drop_ref :
    (d n i x : ℕ) (c : Bcache) → is_block d n ((drop_ref i c).buf x) ≡ is_block d n (c.buf x)
unfolding drop_ref
is_block-drop_ref d n i x c = is_block-update d n i (sub32 (c.buf i).refcnt 1) x c

-- An operation that keeps the members and what every buffer holds keeps the invariant.
Sound-same_blocks :
    (c c' : Bcache)
    → distinct c'.recent ≡ true
    → ((x : ℕ) → is_in x c'.recent ≡ is_in x c.recent)
    → ((d n x : ℕ) → is_block d n (c'.buf x) ≡ is_block d n (c.buf x))
    → Sound c
    → Sound c'
unfolding Sound
Sound-same_blocks c c' u m b (v, one) = (
  u,
  λ d n i j z hi hj bi bj.
      one d n i j z (sym (m i) ∙ hi) (sym (m j) ∙ hj) (sym (b d n i) ∙ bi) (sym (b d n j) ∙ bj),
)

-- A block that no buffer held may go to any buffer.
Sound-recycled :
    (d n i : ℕ) (c : Bcache)
    → ((j : ℕ) → is_in j c.recent ≡ true → is_block d n (c.buf j) ≡ false)
    → Sound c
    → Sound (record c { buf = update c.buf i (recycled d n (c.buf i)) })
unfolding Sound
Sound-recycled d n i c absent (u, one) = (
  u,
  λ e m x y z hx hy bx by. elim (Bool-cases (i == x)) [
    | inl ix ↦ elim (Bool-cases (i == y)) [
      | inl iy ↦ ground arith
      | inr ny ↦ absurd (ground (arith, absent y hy))
    ]
    | inr nx ↦ elim (Bool-cases (i == y)) [
      | inl iy ↦ absurd (ground (arith, absent x hx))
      | inr ny ↦ one e m x y z hx hy (ground arith) (ground arith)
    ]
  ],
)

Sound-drop_ref : (i : ℕ) (c : Bcache) → is_in i c.recent ≡ true → Sound c → Sound (drop_ref i c)
unfolding Sound
Sound-drop_ref i c h s =
    Sound-same_blocks c (drop_ref i c) (drop_ref-distinct i c s.0) (λ x. is_in-drop_ref i x c h)
      (λ d n x. is_block-drop_ref d n i x c) s

Sound-bget : (d n i : ℕ) (c c' : Bcache) → bget d n c ≡ some (i, c') → Sound c → Sound c'
unfolding Sound Refilled
Sound-bget d n i c c' e s =
    let (m, l, found) = bget-Refilled d n c i c' e in
    let u = ap distinct l ∙ s.0 in
    elim found [
      | inl (b, q) ↦
          Sound-same_blocks c c' u (λ x. ap (is_in x) l)
            (λ d' n' x.
              ap (λ h. is_block d' n' (h x)) q
              ∙ is_block-update d' n' i (add32 (c.buf i).refcnt 1) x c)
            s
      | inr (absent, b, q) ↦
          Sound-same_blocks (record c { buf = update c.buf i (recycled d n (c.buf i)) }) c' u
            (λ x. ap (is_in x) l) (λ d' n' x. ap (λ h. is_block d' n' (h x)) q)
            (Sound-recycled d n i c absent s)
    ]

Step-Sound : {c c' : Bcache} → Step c c' → Sound c → Sound c'
Step-Sound {c} {c'} (get d n i e) s = Sound-bget d n i c c' e s
Step-Sound {c} (release i h) s = Sound-drop_ref i c h s

dev-link_all : (m : ℕ) (c : Bcache) (x : ℕ) → ((link_all m c).buf x).dev ≡ (c.buf x).dev
unfolding link_all
dev-link_all zero c x = refl
dev-link_all (suc m) c x = elim (Bool-cases (m == x)) [
  | inl s ↦
      (let e : x ≡ m = ground arith in
        ground (arith, dev-link_all m c x, ap (λ y. ((link_all m c).buf y).dev) e))
  | inr f ↦ ground (arith, dev-link_all m c x)
]

distinct-binit : (c : Bcache) → distinct (binit c).recent ≡ true
unfolding binit link_all distinct is_in
distinct-binit c = refl

dev-binit : (c : Bcache) (x : ℕ) → ((binit c).buf x).dev ≡ (c.buf x).dev
unfolding binit
dev-binit c x = dev-link_all nbuf (record c { recent = [] }) x

dev_of_is_block : (d n : ℕ) (b : Buf) → is_block d n b ≡ true → d ≡ b.dev
dev_of_is_block d n b t = ground arith

binit-Sound : (c : Bcache) → ((x : ℕ) → (c.buf x).dev ≡ 0) → Sound (binit c)
unfolding Sound
binit-Sound c z = (
  distinct-binit c,
  λ d n i j ne hi hj bi bj.
      absurd (ne (dev_of_is_block d n ((binit c).buf i) bi ∙ dev-binit c i ∙ z i)),
)

Reach-keeps : {c c' : Bcache} → Reach c c' → Sound c → Sound c'
Reach-keeps here v = v
Reach-keeps (next r s) v = Step-Sound s (Reach-keeps r v)

-- From `binit` on a cache whose memory is zero, after any calls of `bget` that return and any
-- calls of `brelse` on buffers of the list, no block of a device other than 0 is in two buffers and
-- no buffer stands twice in the list.
pub Reach-Sound : (c c' : Bcache) → ((x : ℕ) → (c.buf x).dev ≡ 0) → Reach (binit c) c' → Sound c'
Reach-Sound c c' z r = Reach-keeps r (binit-Sound c z)
