-- ===== src/Umalloc.antt =====
-- Lab/code/umalloc.c: the allocator of user programs. A header is its address; it takes 8 bytes,
-- and pointer arithmetic on headers is in units of 8. `base` is the static header. `sbrk` is the
-- system call; `S` is the kernel as it sees it. `rounds` bounds the walks round the ring of free
-- blocks, and `none` is a walk that is longer.
use xmu_learning_os.Base.{
  Bool, Option, add32, ap, false, if◌then◌else◌, leb, ltb, minus_one, none, some, sub32, suc, true,
  update, zero, ℕ, ◌&&◌, ◌*◌, ◌+◌, ◌-◌, ◌/◌, ◌==◌, ◌||◌,
}

pub record Heap : Type 0 where
  pub ptr : ℕ → ℕ
  pub size : ℕ → ℕ
  pub freep : ℕ

abbrev pub header : ℕ
header = 8

-- `p + n` on headers
abbrev pub plus : ℕ → ℕ → ℕ
plus p n = p + header * n

-- The condition and the `break` of the loop in `free`.
abbrev pub is_place : ℕ → ℕ → Heap → Bool
is_place bp p h =
    (ltb p bp && ltb bp (h.ptr p)) || (leb (h.ptr p) p && (ltb p bp || ltb bp (h.ptr p)))

unfoldable pub find_place : ℕ → ℕ → ℕ → Heap → Option ℕ
find_place zero bp p h = none
find_place (suc n) bp p h =
    let rest = find_place n bp (h.ptr p) h in if is_place bp p h then some p else rest

-- `if (bp + bp->s.size == p->s.ptr) ... else ...`
unfoldable pub join_next : ℕ → ℕ → Heap → Heap
join_next bp p h =
    if plus bp (h.size bp) == h.ptr p
    then record h {
      size = update h.size bp (h.size bp + h.size (h.ptr p));
      ptr = update h.ptr bp (h.ptr (h.ptr p));
    }
    else record h { ptr = update h.ptr bp (h.ptr p) }

-- `if (p + p->s.size == bp) ... else ...`
unfoldable pub join_prev : ℕ → ℕ → Heap → Heap
join_prev bp p h =
    if plus p (h.size p) == bp
    then record h { size = update h.size p (h.size p + h.size bp); ptr = update h.ptr p (h.ptr bp) }
    else record h { ptr = update h.ptr p bp }

unfoldable pub free : ℕ → ℕ → Heap → Option Heap
unfolding find_place join_next join_prev
free rounds ap h =
    let bp = ap - header in
    elim (find_place rounds bp h.freep h) [
      | none ↦ none
      | some p ↦ some (record (join_prev bp p (join_next bp p h)) { freep = p })
    ]

-- The fit that `malloc` takes from the block `p` behind `prevp`, and the address it returns.
unfoldable pub carve : ℕ → ℕ → ℕ → Heap → ℕ × Heap
carve nunits prevp p h =
    if h.size p == nunits
    then (plus p 1, record h { ptr = update h.ptr prevp (h.ptr p); freep = prevp })
    else (let rest = h.size p - nunits in
        let q = plus p rest in
        (plus q 1, record h { size = update (update h.size p rest) q nunits; freep = prevp }))

abbrev pub units : ℕ → ℕ
units nbytes = sub32 (add32 nbytes header) 1 / header + 1

module _ {S : Type 0} (sbrk : ℕ → S → ℕ × S) (base : ℕ) (rounds : ℕ) where
  -- The header to go on from, or 0.
  unfoldable pub morecore : ℕ → Heap × S → Option (ℕ × Heap × S)
  unfolding free
  morecore nu (h, s) =
      let n = if ltb nu 4096 then 4096 else nu in
      let (p, s') = sbrk (n * header) s in
      if p == minus_one
      then some (0, h, s')
      else elim (free rounds (plus p 1) (record h { size = update h.size p n })) [
        | none ↦ none
        | some h' ↦ some (h'.freep, h', s')
      ]

  -- The loop of `malloc` at `p` behind `prevp`.
  unfoldable pub malloc_loop : ℕ → ℕ → ℕ → ℕ → Heap × S → Option (ℕ × Heap × S)
  unfolding carve morecore
  malloc_loop zero nunits prevp p (h, s) = none
  malloc_loop (suc n) nunits prevp p (h, s) = elim (leb nunits (h.size p)) [
    | true ↦ let (a, h') = carve nunits prevp p h in some (a, h', s)
    | false ↦ elim (p == h.freep) [
      | false ↦ malloc_loop n nunits p (h.ptr p) (h, s)
      | true ↦ elim (morecore nunits (h, s)) [
        | none ↦ none
        | some (q, h', s') ↦ elim (q == 0) [
          | true ↦ some (0, h', s')
          | false ↦ malloc_loop n nunits q (h'.ptr q) (h', s')
        ]
      ]
    ]
  ]

  -- The first call makes a ring of `base` alone.
  unfoldable pub start_ring : Heap → Heap
  start_ring h =
      if h.freep == 0
      then record { ptr = update h.ptr base base; size = update h.size base 0; freep = base }
      else h

  unfoldable pub malloc : ℕ → Heap × S → Option (ℕ × Heap × S)
  unfolding malloc_loop start_ring
  malloc nbytes (h, s) =
      let h' = start_ring h in malloc_loop rounds (units nbytes) h'.freep (h'.ptr h'.freep) (h', s)
