-- ===== src/Bio/Cached.antt =====
-- What `bget` of Lab/code/bio.c guarantees: it returns the block that it was asked for, and never
-- gives away a buffer that is in use or not yet written.
use xmu_learning_os.Base.{
  Option-cases, add32, ap, arith, false, inl, inr, none, refl, some, some_inj, sym, true, update, ℕ,
  ◌∙◌, ◌≡◌, ◌≢◌, ◌⊎◌,
}
use xmu_learning_os.Bio.{Bcache, Buf, bget, find_next, find_prev, is_block, is_spare, recycled}
use xmu_learning_os.Bio.Find.{find_next-none, find_next-some, find_prev-none, find_prev-some, is_in}
use mathlib.Core.Path.{subst}

-- The buffer holds block `n` of device `d`.
abbrev pub HasBlock : ℕ → ℕ → Buf → Type 0
HasBlock d n b = (b.dev ≡ d) × (b.blockno ≡ n)

-- All of a buffer but the number of its users.
abbrev pub SameContent : Buf → Buf → Type 0
SameContent b b' =
    (b'.valid ≡ b.valid)
    × (b'.dirty ≡ b.dirty)
    × (b'.dev ≡ b.dev)
    × (b'.blockno ≡ b.blockno)
    × (b'.lock ≡ b.lock)
    × (b'.bytes ≡ b.bytes)

-- The cache after `bget` has returned buffer `i`: the block was in it, or was in no buffer and `i`
-- was the victim, of which nothing is valid now.
unfoldable pub Fetched : ℕ → ℕ → Bcache → ℕ → Bcache → Type 0
Fetched d n c i c' =
    (is_in i c.recent ≡ true)
    × (c'.recent ≡ c.recent)
    × ((j : ℕ) → i ≢ j → c'.buf j ≡ c.buf j)
    × HasBlock d n (c'.buf i)
    × ((HasBlock d n (c.buf i)
          × SameContent (c.buf i) (c'.buf i)
          × ((c'.buf i).refcnt ≡ add32 (c.buf i).refcnt 1))
        ⊎ (((j : ℕ) → is_in j c.recent ≡ true → ¬ HasBlock d n (c.buf j))
            × ((c.buf i).refcnt ≡ 0)
            × ((c.buf i).dirty ≡ false)
            × ((c'.buf i).refcnt ≡ 1)
            × ((c'.buf i).valid ≡ false)
            × ((c'.buf i).dirty ≡ false)
            × ((c'.buf i).lock ≡ (c.buf i).lock)))

-- The same as the change that `bget` makes to the array of buffers.
unfoldable pub Refilled : ℕ → ℕ → Bcache → ℕ → Bcache → Type 0
Refilled d n c i c' =
    (is_in i c.recent ≡ true)
    × (c'.recent ≡ c.recent)
    × (((is_block d n (c.buf i) ≡ true)
          × (c'.buf ≡ update c.buf i (record (c.buf i) { refcnt = add32 (c.buf i).refcnt 1 })))
        ⊎ (((j : ℕ) → is_in j c.recent ≡ true → is_block d n (c.buf j) ≡ false)
            × (is_spare (c.buf i) ≡ true)
            × (c'.buf ≡ update c.buf i (recycled d n (c.buf i)))))

has_block : (d n : ℕ) (b : Buf) → is_block d n b ≡ true → HasBlock d n b
has_block d n b e = ground arith

no_block : (d n : ℕ) (b : Buf) → is_block d n b ≡ false → ¬ HasBlock d n b
no_block d n b e = λ h. ground (arith, h)

module _ (d n : ℕ) (c : Bcache) where
  bget_hit :
      (i : ℕ)
      → find_next (λ j. is_block d n (c.buf j)) c.recent ≡ some i
      → bget d n c
        ≡ some (
          i,
          record c {
            buf = update c.buf i (record (c.buf i) { refcnt = add32 (c.buf i).refcnt 1 });
          },
        )
  unfolding bget
  bget_hit i e = rw (bget, e)

  bget_miss :
      (i : ℕ)
      → find_next (λ j. is_block d n (c.buf j)) c.recent ≡ none
      → find_prev (λ j. is_spare (c.buf j)) c.recent ≡ some i
      → bget d n c ≡ some (i, record c { buf = update c.buf i (recycled d n (c.buf i)) })
  unfolding bget
  bget_miss i e f = ground (arith, e, f)

  bget_full :
      find_next (λ j. is_block d n (c.buf j)) c.recent ≡ none
      → find_prev (λ j. is_spare (c.buf j)) c.recent ≡ none
      → bget d n c ≡ none
  unfolding bget
  bget_full e f = ground (arith, e, f)

  pub bget-Refilled : (i : ℕ) (c' : Bcache) → bget d n c ≡ some (i, c') → Refilled d n c i c'
  unfolding Refilled
  bget-Refilled i c' e = elim (Option-cases (find_next (λ j. is_block d n (c.buf j)) c.recent)) [
    | inl absent ↦ elim (Option-cases (find_prev (λ j. is_spare (c.buf j)) c.recent)) [
      | inl full ↦ absurd (let h = bget_full absent full in ground arith)
      | inr (j, s) ↦
          let (a, b) = find_prev-some (λ x. is_spare (c.buf x)) c.recent j s in
          subst (λ x. Refilled d n c x.0 x.1) (some_inj (sym (bget_miss j absent s) ∙ e))
            (
              b,
              refl,
              inr (
                λ x h. find_next-none (λ y. is_block d n (c.buf y)) c.recent x absent h,
                a,
                refl,
              ),
            )
    ]
    | inr (j, s) ↦
        let (a, b) = find_next-some (λ x. is_block d n (c.buf x)) c.recent j s in
        subst (λ x. Refilled d n c x.0 x.1) (some_inj (sym (bget_hit j s) ∙ e))
          (b, refl, inl (a, refl))
  ]

  -- The buffer that `bget` returns is in the list and is the block's. Either it held the block, and
  -- only counts one more user; or no buffer held the block, it was unused and clean, and now has one
  -- user and nothing valid or dirty. No other buffer changes, nor does the list.
  pub bget-some : (i : ℕ) (c' : Bcache) → bget d n c ≡ some (i, c') → Fetched d n c i c'
  unfolding Fetched Refilled
  bget-some i c' e =
      let (m, l, found) = bget-Refilled i c' e in
      elim found [
        | inl (b, q) ↦
            let held = has_block d n (c.buf i) b in
            let hit : Buf = record (c.buf i) { refcnt = add32 (c.buf i).refcnt 1 } in
            let at : c'.buf i ≡ hit = ap (λ h. h i) q ∙ ground arith in
            (
              m,
              l,
              λ j h. ap (λ g. g j) q ∙ ground arith,
              rw at held,
              inl (held, rw at (refl, refl, refl, refl, refl, refl), rw at refl),
            )
        | inr (absent, b, q) ↦
            let at : c'.buf i ≡ recycled d n (c.buf i) = ap (λ h. h i) q ∙ ground arith in
            (
              m,
              l,
              λ j h. ap (λ g. g j) q ∙ ground arith,
              rw at (refl, refl),
              inr (
                λ j h. no_block d n (c.buf j) (absent j h),
                ground arith,
                ground arith,
                rw at refl,
                rw at refl,
                rw at refl,
                rw at refl,
              ),
            )
      ]

  -- `bget` panics only where no buffer of the list holds the block and every one is in use or is
  -- still to be written.
  pub bget-none :
      (i : ℕ)
      → bget d n c ≡ none
      → is_in i c.recent ≡ true
      → (is_block d n (c.buf i) ≡ false) × (is_spare (c.buf i) ≡ false)
  bget-none i e h = elim (Option-cases (find_next (λ j. is_block d n (c.buf j)) c.recent)) [
    | inl absent ↦ elim (Option-cases (find_prev (λ j. is_spare (c.buf j)) c.recent)) [
      | inl full ↦ (
        find_next-none (λ j. is_block d n (c.buf j)) c.recent i absent h,
        find_prev-none (λ j. is_spare (c.buf j)) c.recent i full h,
      )
      | inr (j, s) ↦ absurd (let f = bget_miss j absent s in ground arith)
    ]
    | inr (j, s) ↦ absurd (let f = bget_hit j s in ground arith)
  ]
