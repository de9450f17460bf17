-- ===== src/Fs/Inodes/Dinode.antt =====
-- Lab/code/fs.c: an inode in its block: what `iupdate` stores is what `ilock` loads.
use xmu_learning_os.Base.{
  Bool-cases, Bytes, ap, arith, get_half, get_word, get_word-put_word, get_word-put_word_below, inl,
  inr, put_half, put_word, put_word_beyond, put_word_outside, put_words, refl, suc, zero, ℕ, ◌*◌,
  ◌+◌, ◌<◌, ◌==◌, ◌^◌, ◌∙◌, ◌≡◌, ◌≤◌, ◌⊎◌,
}
use xmu_learning_os.Fs.{Inode}
use xmu_learning_os.Fs.Inodes.{load_dinode, naddrs, store_dinode}

put_words_below : (m : Bytes) (a n : ℕ) (f : ℕ → ℕ) (b : ℕ) → b < a → put_words m a n f b ≡ m b
unfolding put_words
put_words_below m a zero f b h = refl
put_words_below m a (suc n) f b h =
    put_word_outside (put_words m a n f) (a + 4 * n) (f n) b (ground arith)
    ∙ put_words_below m a n f b h

put_words_above :
    (m : Bytes) (a n : ℕ) (f : ℕ → ℕ) (b : ℕ) → a + 4 * n ≤ b → put_words m a n f b ≡ m b
unfolding put_words
put_words_above m a zero f b h = refl
put_words_above m a (suc n) f b h =
    put_word_beyond (put_words m a n f) (a + 4 * n) (f n) b (omega arith)
    ∙ put_words_above m a n f b (omega arith)

get_word-put_words :
    (m : Bytes) (a n : ℕ) (f : ℕ → ℕ) (k : ℕ)
    → k < n
    → f k < 2 ^ 32
    → get_word (put_words m a n f) (a + 4 * k) ≡ f k
unfolding put_words
get_word-put_words m a zero f k h l = absurd (omega arith)
get_word-put_words m a (suc n) f k h l = elim (Bool-cases (k == n)) [
  | inl s ↦
      (let e : n ≡ k = ground arith in
        ap (λ x. get_word (put_word (put_words m a n f) (a + 4 * x) (f x)) (a + 4 * k)) e
        ∙ get_word-put_word (put_words m a n f) (a + 4 * k) (f k) l)
  | inr s ↦
      get_word-put_word_below (put_words m a n f) (a + 4 * n) (a + 4 * k) (f n) (ground arith)
      ∙ get_word-put_words m a n f k (ground arith) l
]

-- The fields as the disk has room for them.
pub record Fits (ip : Inode) : Type 0 where
  pub kind_fits : ip.kind < 2 ^ 16
  pub major_fits : ip.major < 2 ^ 16
  pub minor_fits : ip.minor < 2 ^ 16
  pub nlink_fits : ip.nlink < 2 ^ 16
  pub size_fits : ip.size < 2 ^ 32
  pub addrs_fit : (k : ℕ) → ip.addrs k < 2 ^ 32

abbrev header_of : Inode → Bytes → ℕ → Bytes
header_of ip w a =
    put_word
      (put_half (put_half (put_half (put_half w a ip.kind) (a + 2) ip.major) (a + 4) ip.minor)
        (a + 6) ip.nlink)
      (a + 8) ip.size

header_of-outside :
    (ip : Inode) (w : Bytes) (a b : ℕ) → (b < a) ⊎ (a + 12 ≤ b) → header_of ip w a b ≡ w b
unfolding put_word put_half
header_of-outside ip w a b (inl h) = ground arith
header_of-outside ip w a b (inr h) = ground arith

pub store_dinode-outside :
    (ip : Inode) (w : Bytes) (a b : ℕ) → (b < a) ⊎ (a + 128 ≤ b) → store_dinode ip w a b ≡ w b
unfolding store_dinode
store_dinode-outside ip w a b (inl h) =
    put_words_below (header_of ip w a) (a + 12) naddrs ip.addrs b (omega arith)
    ∙ header_of-outside ip w a b (inl h)
store_dinode-outside ip w a b (inr h) =
    put_words_above (header_of ip w a) (a + 12) naddrs ip.addrs b (omega arith)
    ∙ header_of-outside ip w a b (inr (omega arith))

store_dinode-header :
    (ip : Inode) (w : Bytes) (a b : ℕ) → b < a + 12 → store_dinode ip w a b ≡ header_of ip w a b
unfolding store_dinode
store_dinode-header ip w a b h = put_words_below (header_of ip w a) (a + 12) naddrs ip.addrs b h

pub get_half-same :
    (m m' : Bytes) (a : ℕ) → m a ≡ m' a → m (a + 1) ≡ m' (a + 1) → get_half m a ≡ get_half m' a
unfolding get_half
get_half-same m m' a e f = omega arith

pub get_word-same :
    (m m' : Bytes) (a : ℕ)
    → m a ≡ m' a
    → m (a + 1) ≡ m' (a + 1)
    → m (a + 2) ≡ m' (a + 2)
    → m (a + 3) ≡ m' (a + 3)
    → get_word m a ≡ get_word m' a
unfolding get_word
get_word-same m m' a e f g h = omega arith

kind_back :
    (ip : Inode) (w : Bytes) (a : ℕ) → ip.kind < 2 ^ 16 → get_half (header_of ip w a) a ≡ ip.kind
unfolding get_half put_half put_word
kind_back ip w a h = ground arith

major_back :
    (ip : Inode) (w : Bytes) (a : ℕ)
    → ip.major < 2 ^ 16
    → get_half (header_of ip w a) (a + 2) ≡ ip.major
unfolding get_half put_half put_word
major_back ip w a h = ground arith

minor_back :
    (ip : Inode) (w : Bytes) (a : ℕ)
    → ip.minor < 2 ^ 16
    → get_half (header_of ip w a) (a + 4) ≡ ip.minor
unfolding get_half put_half put_word
minor_back ip w a h = ground arith

nlink_back :
    (ip : Inode) (w : Bytes) (a : ℕ)
    → ip.nlink < 2 ^ 16
    → get_half (header_of ip w a) (a + 6) ≡ ip.nlink
unfolding get_half put_half put_word
nlink_back ip w a h = ground arith

size_back :
    (ip : Inode) (w : Bytes) (a : ℕ)
    → ip.size < 2 ^ 32
    → get_word (header_of ip w a) (a + 8) ≡ ip.size
unfolding put_half
size_back ip w a h = get_word-put_word _ (a + 8) ip.size h

addrs_back :
    (ip : Inode) (w : Bytes) (a k : ℕ)
    → k < naddrs
    → ip.addrs k < 2 ^ 32
    → get_word (store_dinode ip w a) (a + 12 + 4 * k) ≡ ip.addrs k
unfolding store_dinode
addrs_back ip w a k h l = get_word-put_words (header_of ip w a) (a + 12) naddrs ip.addrs k h l

-- Two inodes agree in what the disk keeps.
pub record SameDinode (x y : Inode) : Type 0 where
  pub same_kind : x.kind ≡ y.kind
  pub same_major : x.major ≡ y.major
  pub same_minor : x.minor ≡ y.minor
  pub same_nlink : x.nlink ≡ y.nlink
  pub same_size : x.size ≡ y.size
  pub same_addrs : (k : ℕ) → k < naddrs → x.addrs k ≡ y.addrs k

pub load_dinode-store_dinode :
    (ip x : Inode) (w : Bytes) (a : ℕ)
    → Fits ip
    → SameDinode (load_dinode (store_dinode ip w a) a x) ip
unfolding load_dinode
load_dinode-store_dinode ip x w a v =
    let at = store_dinode-header ip w a in
    record {
      same_kind =
          get_half-same (store_dinode ip w a) (header_of ip w a) a (at a (omega arith))
            (at (a + 1) (omega arith))
          ∙ kind_back ip w a v.kind_fits;
      same_major =
          get_half-same (store_dinode ip w a) (header_of ip w a) (a + 2) (at (a + 2) (omega arith))
            (at (a + 2 + 1) (omega arith))
          ∙ major_back ip w a v.major_fits;
      same_minor =
          get_half-same (store_dinode ip w a) (header_of ip w a) (a + 4) (at (a + 4) (omega arith))
            (at (a + 4 + 1) (omega arith))
          ∙ minor_back ip w a v.minor_fits;
      same_nlink =
          get_half-same (store_dinode ip w a) (header_of ip w a) (a + 6) (at (a + 6) (omega arith))
            (at (a + 6 + 1) (omega arith))
          ∙ nlink_back ip w a v.nlink_fits;
      same_size =
          get_word-same (store_dinode ip w a) (header_of ip w a) (a + 8) (at (a + 8) (omega arith))
            (at (a + 8 + 1) (omega arith)) (at (a + 8 + 2) (omega arith))
            (at (a + 8 + 3) (omega arith))
          ∙ size_back ip w a v.size_fits;
      same_addrs = λ k h. ground (arith, addrs_back ip w a k h (v.addrs_fit k));
    }
