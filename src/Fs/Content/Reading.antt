-- ===== src/Fs/Content/Reading.antt =====
-- Lab/code/fs.c: what `readi` reads of a file whose blocks are allocated.
use xmu_learning_os.Base.{
  >>=-run, Bool-cases, Bytes, List, [], ap, arith, bytes_at, bytes_at-add, bytes_at_same, false,
  gets, inl, inr, ok, pure, suc, sym, true, zero, ℕ, ◌%◌, ◌*◌, ◌++◌, ◌+◌, ◌-◌, ◌/◌, ◌<◌, ◌==◌,
  ◌>>=◌, ◌∙◌, ◌≡◌, ◌≢◌, ◌≤◌,
}
use xmu_learning_os.Fs.{F, Fs, bsize}
use xmu_learning_os.Fs.Content.{bmap, chunk, read_loop}
use xmu_learning_os.Fs.Content.Address.{IsMapped, addr_of, bmap-IsMapped}

-- The byte of a file at an offset.
abbrev pub file_byte : (ℕ → Bytes) → (ℕ → ℕ) → ℕ → ℕ
file_byte c a x = c (addr_of c a (x / bsize)) (x % bsize)

pub chunk_bounds :
    (off left : ℕ)
    → left ≢ 0
    → (0 < chunk off left) × (chunk off left ≤ left) × (off % bsize + chunk off left ≤ bsize)
chunk_bounds off left h = ground arith

-- A part of a block is a part of the file.
pub block_bytes :
    (c : ℕ → Bytes) (a : ℕ → ℕ) (off m : ℕ)
    → off % bsize + m ≤ bsize
    → bytes_at (c (addr_of c a (off / bsize))) (off % bsize) m ≡ bytes_at (file_byte c a) off m
block_bytes c a off m h =
    bytes_at_same (c (addr_of c a (off / bsize))) (file_byte c a) (off % bsize) off m (λ j l.
      let e : off / bsize ≡ (off + j) / bsize = omega arith in
      let f : off % bsize + j ≡ (off + j) % bsize = omega arith in
      ap (λ k. c (addr_of c a k) (off % bsize + j)) e
      ∙ ap (λ k. c (addr_of c a ((off + j) / bsize)) k) f)

-- A round, after the bytes of its block and after `bmap`.
abbrev read_on : ℕ → ℕ → ℕ → ℕ → Bytes → F (List ℕ)
read_on f i off left w = read_loop f i (off + chunk off left) (left - chunk off left) >>= λ rest.
    pure (bytes_at w (off % bsize) (chunk off left) ++ rest)

abbrev read_from_block : ℕ → ℕ → ℕ → ℕ → ℕ → F (List ℕ)
read_from_block f i off left b =
    gets (λ s. s.inodes i) >>= λ ip. gets (λ s. s.content ip.dev b) >>= λ w. read_on f i off left w

read_step :
    (f i off left : ℕ)
    → (left == 0) ≡ false
    → read_loop (suc f) i off left ≡ (bmap i (off / bsize) >>= λ b. read_from_block f i off left b)
unfolding read_loop
read_step f i off left e = rw (read_loop, e)

read_end : (f i off left : ℕ) → (left == 0) ≡ true → read_loop (suc f) i off left ≡ pure []
unfolding read_loop
read_end f i off left e = rw (read_loop, e)

-- The loop of `readi` on allocated blocks returns the file's bytes and changes nothing.
pub read_loop-IsMapped :
    (f i off left nb : ℕ) (s : Fs)
    → let ip = s.inodes i in
      IsMapped (s.content ip.dev) ip.addrs nb
      → left ≤ f
      → off + left ≤ nb * bsize
      → read_loop f i off left s ≡ ok (bytes_at (file_byte (s.content ip.dev) ip.addrs) off left, s)
unfolding read_loop bytes_at
read_loop-IsMapped zero i off left nb s v h l =
    let e : left ≡ 0 = omega arith in
    ap (λ n. ok (bytes_at (file_byte (s.content (s.inodes i).dev) (s.inodes i).addrs) off n, s))
      (sym e)
read_loop-IsMapped (suc f) i off left nb s v h l =
    let ip = s.inodes i in
    let c = s.content ip.dev in
    let m = chunk off left in
    let b = addr_of c ip.addrs (off / bsize) in
    elim (Bool-cases (left == 0)) [
      | inl z ↦
          (let e : left ≡ 0 = ground arith in
            ap (λ r. r s) (read_end f i off left z)
            ∙ ap (λ n. ok (bytes_at (file_byte c ip.addrs) off n, s)) (sym e))
      | inr z ↦
          (let (pos, fits, inside) = chunk_bounds off left (ground arith) in
            let total : m + (left - m) ≡ left = omega arith in
            let rest = bytes_at (file_byte c ip.addrs) (off + m) (left - m) in
            ap (λ r. r s) (read_step f i off left z)
            ∙ >>=-run (bmap i (off / bsize)) (λ b. read_from_block f i off left b) s b s
                (bmap-IsMapped i (off / bsize) nb s v (ground arith))
            ∙ >>=-run (read_loop f i (off + m) (left - m))
                (λ rest. pure (bytes_at (c b) (off % bsize) m ++ rest)) s rest s
                (read_loop-IsMapped f i (off + m) (left - m) nb s v (omega arith) (omega arith))
            ∙ ap (λ x. ok (x ++ rest, s)) (block_bytes c ip.addrs off m inside)
            ∙ ap (λ x. ok (x, s)) (sym (bytes_at-add (file_byte c ip.addrs) off m (left - m)))
            ∙ ap (λ n. ok (bytes_at (file_byte c ip.addrs) off n, s)) total)
    ]
