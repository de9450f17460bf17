-- ===== src/Fs/Names.antt =====
-- Lab/code/fs.c: path names: `skipelem`, `namex`, `namei`, `nameiparent`. A path is the list of its
-- characters up to the NUL; the buffer for an element is `DIRSIZ` bytes.
pub mod Elements
pub mod Fuel
use xmu_learning_os.Base.{
  Bool, Bytes, List, Option, [], false, if◌then◌else◌, leb, length, none, not, pure, put_bytes,
  some, suc, take, true, update, zero, ℕ, ◌&&◌, ◌+◌, ◌==◌, ◌>>=◌, ◌>>◌, ◌∷◌,
}
use xmu_learning_os.Fs.{F, dirsiz, inode, rootdev, rootino, t_dir}
use xmu_learning_os.Fs.Content.{Devices}
use xmu_learning_os.Fs.Directory.{dirlookup}
use xmu_learning_os.Fs.Inodes.{idup, iget, ilock, iunlock}
use xmu_learning_os.Fs.Release.{iput, iunlockput}

abbrev pub slash : ℕ
slash = 47

-- `while (*path == '/') path++;`
unfoldable pub skip_slashes : List ℕ → List ℕ
skip_slashes [] = []
skip_slashes (c ∷ cs) = let rest = skip_slashes cs in if c == slash then rest else c ∷ cs

-- `while (*path != '/' && *path != 0) path++;`, with what is passed over and what is left.
unfoldable pub element : List ℕ → List ℕ
element [] = []
element (c ∷ cs) = let rest = element cs in if c == slash then [] else c ∷ rest

unfoldable pub after_element : List ℕ → List ℕ
after_element [] = []
after_element (c ∷ cs) = let rest = after_element cs in if c == slash then c ∷ cs else rest

-- What is copied to `name`.
unfoldable pub copy_element : Bytes → List ℕ → Bytes
copy_element name e =
    if leb dirsiz (length e)
    then put_bytes name 0 (take dirsiz e)
    else update (put_bytes name 0 e) (length e) 0

unfoldable pub skipelem : List ℕ → Bytes → Option (List ℕ × Bytes)
unfolding skip_slashes element after_element copy_element
skipelem path name = elim (skip_slashes path) [
  | [] ↦ none
  | c ∷ cs ↦ some (skip_slashes (after_element (c ∷ cs)), copy_element name (element (c ∷ cs)))
]

abbrev pub is_nil : List ℕ → Bool
is_nil [] = true
is_nil (c ∷ cs) = false

module _ (devsw : Devices) (pid : ℕ) where
  -- The end of `namex`.
  unfoldable pub last_inode : Bool → ℕ → Bytes → F (Option ℕ × Bytes)
  unfolding iput
  last_inode parent i name =
      if parent then (do iput pid i; pure (none, name)) else pure (some i, name)

  -- A round of the loop at the inode `i`, with the path after its element; `go` is the rest of the
  -- loop.
  unfoldable pub enter :
      (ℕ → F (Option ℕ × Bytes)) → Bool → ℕ → List ℕ → Bytes → F (Option ℕ × Bytes)
  unfolding ilock iunlock iunlockput dirlookup
  enter go parent i path name = do
    ilock pid i
    ip ← inode i
    elim (not (ip.kind == t_dir)) [
      | true ↦ (do iunlockput pid i; pure (none, name))
      | false ↦ elim (parent && is_nil path) [
        | true ↦ (do iunlock i; pure (some i, name))
        | false ↦ (do
          found ← dirlookup devsw pid i name
          iunlockput pid i
          elim found [ none ↦ pure (none, name) | some (j, off) ↦ go j ])
      ]
    ]

  -- The loop of `namex` from the inode `i` on. Every round takes an element, so more rounds than
  -- the path has characters are enough.
  unfoldable pub walk : ℕ → Bool → ℕ → List ℕ → Bytes → F (Option ℕ × Bytes)
  unfolding skipelem last_inode enter
  walk zero parent i path name = pure (none, name)
  walk (suc f) parent i path name = elim (skipelem path name) [
    | none ↦ last_inode parent i name
    | some (path', name') ↦ enter (λ j. walk f parent j path' name') parent i path' name'
  ]

  -- Where the walk starts: `cwd` is the inode of the process's directory.
  unfoldable pub start_of : ℕ → List ℕ → F ℕ
  unfolding iget idup
  start_of cwd [] = idup cwd
  start_of cwd (c ∷ cs) = if c == slash then iget rootdev rootino else idup cwd

  unfoldable pub namex : ℕ → List ℕ → Bool → Bytes → F (Option ℕ × Bytes)
  unfolding start_of walk
  namex cwd path parent name = do i ← start_of cwd path; walk (length path + 1) parent i path name

  unfoldable pub namei : ℕ → List ℕ → F (Option ℕ)
  unfolding namex
  namei cwd path = do r ← namex cwd path false (λ k. 0); pure (r.0)

  unfoldable pub nameiparent : ℕ → List ℕ → Bytes → F (Option ℕ × Bytes)
  unfolding namex
  nameiparent cwd path name = namex cwd path true name
