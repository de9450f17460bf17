-- ===== src/File/Transfer.antt =====
-- Lab/code/file.c: `filestat`, `fileread` and `filewrite`.
use xmu_learning_os.Base.{
  Bool, List, M, Option, [], add32, drop, false, if◌then◌else◌, length, minus_one, none, not, ok,
  panic, panic_if, pure, slt, some, suc, take, true, update, zero, ℕ, ◌==◌, ◌>>=◌, ◌>>◌,
}
use xmu_learning_os.File.{
  Environment, Outcome, World, bytes, fd_inode, fd_none, fd_pipe, file_at, in_fs, number, put_file,
  sleeps,
}
use xmu_learning_os.Fs.Content.{Stat, readi, stati, writei}
use xmu_learning_os.Fs.Inodes.{ilock, iunlock}
use xmu_learning_os.Pipe.{blocked, broken, piperead_round, pipewrite_round, written}
use xmu_learning_os.Proc.Wait.{fails, returns, waits}

-- `((LOGSIZE-1-1-2) / 2) * 512`
abbrev pub max_chunk : ℕ
max_chunk = 6656

module _ {S : Type 0} (env : Environment) (pid cur : ℕ) where
  -- The result 0 with the metadata, or `none` for -1.
  unfoldable pub filestat : ℕ → M (World S) (Option Stat)
  unfolding in_fs ilock stati iunlock
  filestat i = do
    f ← file_at i
    elim f.kind [
      | fd_inode ↦ in_fs (do ilock pid f.ip; st ← stati f.ip; iunlock f.ip; pure (some st))
      | _ ↦ pure none
    ]

  -- `fileread` of a pipe and of an inode.
  unfoldable pub read_pipe : ℕ → ℕ → M (World S) Outcome
  unfolding piperead_round
  read_pipe p n w =
      let (r, v) =
        piperead_round (env.reader p) (env.writer p) cur n
          (record { kernel = w.kernel; pipe = w.pipes p }) in
      ok (
        elim r [ returns cs ↦ bytes cs | fails ↦ number minus_one | waits ↦ sleeps [] ],
        record w { kernel = v.kernel; pipes = update w.pipes p v.pipe },
      )

  unfoldable pub read_inode : ℕ → ℕ → M (World S) Outcome
  unfolding in_fs ilock readi iunlock
  read_inode i n = do
    f ← file_at i
    got ← in_fs (do ilock pid f.ip; r ← readi env.devsw f.ip f.off n; iunlock f.ip; pure r)
    elim got [
      | none ↦ pure (number minus_one)
      | some cs ↦ (do put_file i (record f { off = add32 f.off (length cs) }); pure (bytes cs))
    ]

  unfoldable pub fileread : ℕ → ℕ → M (World S) Outcome
  unfolding read_pipe read_inode
  fileread i n = do
    f ← file_at i
    elim (f.readable == 0) [
      | true ↦ pure (number minus_one)
      | false ↦ elim f.kind [
        | fd_pipe ↦ read_pipe f.pipe n
        | fd_inode ↦ read_inode i n
        | fd_none ↦ panic
      ]
    ]

  unfoldable pub write_pipe : ℕ → List ℕ → M (World S) Outcome
  unfolding pipewrite_round
  write_pipe p cs w =
      let (r, v) =
        pipewrite_round (env.reader p) (env.writer p) cur cs
          (record { kernel = w.kernel; pipe = w.pipes p }) in
      ok (
        elim r [
          | written ↦ number (length cs)
          | blocked rest ↦ sleeps rest
          | broken ↦ number minus_one
        ],
        record w { kernel = v.kernel; pipes = update w.pipes p v.pipe },
      )

  -- One transaction of `filewrite`: the `int` of `writei`.
  unfoldable pub write_part : ℕ → List ℕ → M (World S) ℕ
  unfolding in_fs ilock writei iunlock
  write_part i cs = do
    f ← file_at i
    r ← in_fs (do env.begin_transaction; ilock pid f.ip; writei env.devsw f.ip cs f.off)
    put_file i (record f { off = if slt 0 r then add32 f.off r else f.off })
    in_fs (do iunlock f.ip; env.end_transaction)
    pure r

  -- The loop over the bytes that are left; it ends with whether all are written. Each round takes
  -- a byte or more.
  unfoldable pub write_parts : ℕ → ℕ → List ℕ → M (World S) Bool
  unfolding write_part
  write_parts zero i cs = pure true
  write_parts (suc n) i cs = elim (length cs == 0) [
    | true ↦ pure true
    | false ↦ (do
      let part = take max_chunk cs
      r ← write_part i part
      elim (slt r 0) [
        | true ↦ pure false
        | false ↦ (do panic_if (not (r == length part)); write_parts n i (drop max_chunk cs))
      ])
  ]

  unfoldable pub filewrite : ℕ → List ℕ → M (World S) Outcome
  unfolding write_pipe write_parts
  filewrite i cs = do
    f ← file_at i
    elim (f.writable == 0) [
      | true ↦ pure (number minus_one)
      | false ↦ elim f.kind [
        | fd_pipe ↦ write_pipe f.pipe cs
        | fd_inode ↦ (do
          all ← write_parts (length cs) i cs
          pure (number (if all then length cs else minus_one)))
        | fd_none ↦ panic
      ]
    ]
