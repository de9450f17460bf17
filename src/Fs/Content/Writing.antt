-- ===== src/Fs/Content/Writing.antt =====
-- Lab/code/fs.c: what `writei` does to a file whose blocks are allocated.
use xmu_learning_os.Base.{
  Bool-cases, Bytes, List, ap, arith, inl, inr, length, ltb, put_bytes, put_bytes_above,
  put_bytes_below, put_bytes_shift, sym, update, ℕ, ◌%◌, ◌*◌, ◌+◌, ◌/◌, ◌<◌, ◌==◌, ◌∙◌, ◌≡◌, ◌≢◌,
  ◌≤◌,
}
use xmu_learning_os.Fs.{bsize}
use xmu_learning_os.Fs.Content.Address.{IsMapped, addr_of, addr_of-update}
use xmu_learning_os.Fs.Content.Reading.{file_byte}

pub IsMapped-update :
    (c : ℕ → Bytes) (a : ℕ → ℕ) (nb k : ℕ) (w : Bytes)
    → IsMapped c a nb
    → k < nb
    → IsMapped (update c (addr_of c a k) w) a nb
IsMapped-update c a nb k w v h =
    let at = addr_of-update c a nb k w v h in
    record {
      short_enough = v.short_enough;
      allocated = λ l m z. v.allocated l m (sym (at l m) ∙ z);
      indirect = v.indirect;
      distinct_blocks = λ l m p q e. v.distinct_blocks l m p q (sym (at l p) ∙ e ∙ at m q);
      apart = λ l p q e. v.apart l p q (sym (at l q) ∙ e);
    }

update_same : (c : ℕ → Bytes) (b y : ℕ) (w : Bytes) → b ≡ y → update c b w y ≡ w
update_same c b y w e = ground arith

update_other : (c : ℕ → Bytes) (b y : ℕ) (w : Bytes) → b ≢ y → update c b w y ≡ c y
update_other c b y w e = ground arith

outside_block :
    (m : Bytes) (off x : ℕ) (cs : List ℕ)
    → off % bsize + length cs ≤ bsize
    → off / bsize ≢ x / bsize
    → put_bytes m off cs x ≡ m x
outside_block m off x cs h e = elim (Bool-cases (ltb x off)) [
  | inl s ↦ put_bytes_below m off cs x (ground arith)
  | inr s ↦ put_bytes_above m off cs x (ground arith)
]

-- A write into one block is a write into the file.
pub file_byte-update :
    (c : ℕ → Bytes) (a : ℕ → ℕ) (nb off : ℕ) (cs : List ℕ)
    → IsMapped c a nb
    → off % bsize + length cs ≤ bsize
    → off / bsize < nb
    → (x : ℕ) → x < nb * bsize
    → file_byte
        (update c
          (addr_of c a (off / bsize))
          (put_bytes (c (addr_of c a (off / bsize))) (off % bsize) cs))
        a
        x
      ≡ put_bytes (file_byte c a) off cs x
file_byte-update c a nb off cs v h inside x l =
    let k = off / bsize in
    let w = put_bytes (c (addr_of c a k)) (off % bsize) cs in
    let b = addr_of c a k in
    ap (λ y. update c b w y (x % bsize))
      (addr_of-update c a nb k w v inside (x / bsize) (omega arith))
    ∙ elim (Bool-cases (k == x / bsize)) [
      | inl s ↦
          (let p : k ≡ x / bsize = ground arith in
            ap (λ y. y (x % bsize))
              (update_same c b (addr_of c a (x / bsize)) w (ap (addr_of c a) p))
            ∙ put_bytes_shift (c b) (file_byte c a) (off % bsize) off cs (x % bsize) x (omega arith)
                (ap (λ y. c (addr_of c a y) (x % bsize)) p))
      | inr s ↦
          (let ne : k ≢ x / bsize = ground arith in
            ap (λ y. y (x % bsize))
              (update_other c b (addr_of c a (x / bsize)) w
                (λ e. ne (v.distinct_blocks k (x / bsize) inside (omega arith) e)))
            ∙ sym (outside_block (file_byte c a) off x cs h ne))
    ]
