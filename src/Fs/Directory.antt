-- ===== src/Fs/Directory.antt =====
-- Lab/code/fs.c: directories: `namecmp`, `dirlookup`, `dirlink`. A name is `DIRSIZ` bytes, and an
-- entry is the number of its inode and a name.
use xmu_learning_os.Base.{
  Bytes, List, Option, bytes_at, false, get_half, get_or, if◌then◌else◌, length, minus_one, none,
  not, ok, panic_if, panicking, pure, some, stopped, suc, true, zero, ℕ, ◌%◌, ◌&&◌, ◌+◌, ◌/◌, ◌==◌,
  ◌>>=◌, ◌>>◌, ◌∷◌,
}
use xmu_learning_os.Fs.{F, Inode, dirsiz, inode, t_dir}
use xmu_learning_os.Fs.Content.{Devices, readi, writei}
use xmu_learning_os.Fs.Inodes.{iget}
use xmu_learning_os.Fs.Release.{iput}
use xmu_learning_os.Str.{strncmp, strncpy}

unfoldable pub namecmp : Bytes → Bytes → ℕ
unfolding strncmp
namecmp s t = strncmp s t dirsiz

-- The bytes of a buffer, as memory.
abbrev pub memory_of : List ℕ → Bytes
memory_of cs k = get_or cs k 0

pub record Dirent : Type 0 where
  pub number : ℕ
  pub name : Bytes

unfoldable pub dirent_of : List ℕ → Dirent
dirent_of cs = record { number = get_half (memory_of cs) 0; name = λ k. get_or cs (k + 2) 0 }

-- A `struct dirent` in memory, as the buffer that `writei` gets.
unfoldable pub bytes_of : ℕ → Bytes → List ℕ
bytes_of inum name = inum % 256 ∷ inum / 256 % 256 ∷ bytes_at name 0 dirsiz

-- The number of rounds of `for (off = 0; off < dp->size; off += sizeof(de))`.
abbrev pub entries : Inode → ℕ
entries dp = (dp.size + 15) / 16

module _ (devsw : Devices) (pid : ℕ) where
  -- `readi` of one entry, which must return all of it.
  unfoldable pub read_dirent : ℕ → ℕ → F Dirent
  unfolding readi dirent_of
  read_dirent i off s = elim (readi devsw i off 16 s) [
    | stopped e ↦ stopped e
    | ok (none, s') ↦ stopped panicking
    | ok (some cs, s') ↦ if length cs == 16 then ok (dirent_of cs, s') else stopped panicking
  ]

  -- The loop of `dirlookup`, with `r` entries left: the inode and the offset of its entry.
  unfoldable pub lookup_from : ℕ → ℕ → ℕ → Bytes → F (Option (ℕ × ℕ))
  unfolding read_dirent namecmp iget
  lookup_from zero i off name = pure none
  lookup_from (suc r) i off name = do
    de ← read_dirent i off
    elim (not (de.number == 0) && (namecmp name de.name == 0)) [
      | true ↦ (do dp ← inode i; ip ← iget dp.dev de.number; pure (some (ip, off)))
      | false ↦ lookup_from r i (off + 16) name
    ]

  unfoldable pub dirlookup : ℕ → Bytes → F (Option (ℕ × ℕ))
  unfolding lookup_from
  dirlookup i name = do
    dp ← inode i
    panic_if (not (dp.kind == t_dir))
    lookup_from (entries dp) i 0 name

  -- The loop of `dirlink`: the offset of an empty entry, or of the end.
  unfoldable pub empty_from : ℕ → ℕ → ℕ → F ℕ
  unfolding read_dirent
  empty_from zero i off = pure off
  empty_from (suc r) i off = do
    de ← read_dirent i off
    elim (de.number == 0) [ true ↦ pure off | false ↦ empty_from r i (off + 16) ]

  -- `dirlink` where the name is not there yet.
  unfoldable pub add_entry : ℕ → Bytes → ℕ → F ℕ
  unfolding empty_from writei bytes_of strncpy
  add_entry i name inum = do
    dp ← inode i
    off ← empty_from (entries dp) i 0
    n ← writei devsw i (bytes_of inum (strncpy (λ k. 0) name dirsiz)) off
    panic_if (not (n == 16))
    pure 0

  unfoldable pub dirlink : ℕ → Bytes → ℕ → F ℕ
  unfolding dirlookup iput add_entry
  dirlink i name inum = do
    found ← dirlookup i name
    elim found [ some (ip, off) ↦ (do iput pid ip; pure minus_one) | none ↦ add_entry i name inum ]
