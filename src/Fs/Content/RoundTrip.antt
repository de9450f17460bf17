-- ===== src/Fs/Content/RoundTrip.antt =====
-- Lab/code/fs.c: `readi` returns what `writei` has written.
use xmu_learning_os.Base.{
  >>=-ok, >>=-run, Bytes, List, add32, ap, arith, bytes_at, bytes_at-put_bytes, bytes_at_same,
  false, inl, inr, length, ltb, ok, ok_inj, pure, put_bytes, put_bytes_above, put_bytes_below, some,
  sym, ℕ, ◌*◌, ◌+◌, ◌<◌, ◌==◌, ◌>>=◌, ◌>>◌, ◌||◌, ◌∙◌, ◌≡◌, ◌≢◌, ◌≤◌, ◌⊎◌,
}
use xmu_learning_os.Fs.{Fs, Inode, bsize, maxfile, t_dev}
use xmu_learning_os.Fs.Content.{Devices, grow_inode, read_loop, readi, write_loop, writei}
use xmu_learning_os.Fs.Content.Address.{IsMapped}
use xmu_learning_os.Fs.Content.InPlace.{Written, write_loop-Written}
use xmu_learning_os.Fs.Content.Reading.{file_byte, read_loop-IsMapped}
use mathlib.Core.Path.{subst}

put_bytes_outside :
    (m : Bytes) (off : ℕ) (cs : List ℕ) (x : ℕ)
    → (x < off) ⊎ (off + length cs ≤ x)
    → put_bytes m off cs x ≡ m x
put_bytes_outside m off cs x (inl h) = put_bytes_below m off cs x h
put_bytes_outside m off cs x (inr h) = put_bytes_above m off cs x h

module _ (devsw : Devices) where
  writei_run :
      (i : ℕ) (cs : List ℕ) (off : ℕ) (s : Fs)
      → ((s.inodes i).kind == t_dev) ≡ false
      → (ltb (s.inodes i).size off || ltb (add32 off (length cs)) off) ≡ false
      → ltb (maxfile * bsize) (add32 off (length cs)) ≡ false
      → writei devsw i cs off s
        ≡ (write_loop (length cs) i off cs
              >> (grow_inode devsw i (off + length cs) (length cs) >> pure (length cs)))
            s
  unfolding writei
  writei_run i cs off s a b c = rw (writei, a, b, c)

  readi_run :
      (i off n : ℕ) (s : Fs)
      → ((s.inodes i).kind == t_dev) ≡ false
      → (ltb (s.inodes i).size off || ltb (add32 off n) off) ≡ false
      → ltb (s.inodes i).size (add32 off n) ≡ false
      → readi devsw i off n s ≡ (read_loop n i off n >>= λ cs. pure (some cs)) s
  unfolding readi
  readi_run i off n s a b c = rw (readi, a, b, c)

  grow_none :
      (i off n : ℕ) (s : Fs) → off ≤ (s.inodes i).size → grow_inode devsw i off n s ≡ ok (tt, s)
  unfolding grow_inode
  grow_none i off n s h = ground arith

  -- Within the size of a file that is no device and has `nb` allocated blocks.
  pub readi-IsMapped :
      (ip : Inode) (i off n nb : ℕ) (s : Fs)
      → s.inodes i ≡ ip
      → ip.kind ≢ t_dev
      → ip.size ≤ nb * bsize
      → IsMapped (s.content ip.dev) ip.addrs nb
      → off + n ≤ ip.size
      → readi devsw i off n s
        ≡ ok (some (bytes_at (file_byte (s.content ip.dev) ip.addrs) off n), s)
  readi-IsMapped ip i off n nb s p k z v h =
      let sz = ap (λ q. q.size) p in
      let kd = ap (λ q. q.kind) p in
      let few_blocks = v.short_enough in
      let bytes =
        subst
          (λ q.
            IsMapped (s.content q.dev) q.addrs nb
            → read_loop n i off n s ≡ ok (bytes_at (file_byte (s.content q.dev) q.addrs) off n, s))
          p (λ w. read_loop-IsMapped n i off n nb s w (omega arith) (omega arith)) v in
      readi_run i off n s (ground arith) (ground arith) (ground arith)
      ∙ >>=-run (read_loop n i off n) (λ cs. pure (some cs)) s
          (bytes_at (file_byte (s.content ip.dev) ip.addrs) off n) s bytes

  read_back :
      (ip : Inode) (i : ℕ) (cs : List ℕ) (off nb : ℕ) (s s' : Fs)
      → s'.inodes i ≡ ip
      → ip.kind ≢ t_dev
      → ip.size ≤ nb * bsize
      → off + length cs ≤ ip.size
      → Written ip nb off cs s s'
      → readi devsw i off (length cs) s' ≡ ok (some cs, s')
  read_back ip i cs off nb s s' p k z h w =
      let old = file_byte (s.content ip.dev) ip.addrs in
      readi-IsMapped ip i off (length cs) nb s' p k z w.still_mapped h
      ∙ ap (λ l. ok (some l, s'))
          (bytes_at_same (file_byte (s'.content ip.dev) ip.addrs) (put_bytes old off cs) off off
              (length cs) (λ j l. w.new_bytes (off + j) (omega arith))
            ∙ bytes_at-put_bytes old off cs)

  -- The end of `writei` where the file does not grow.
  write_ended :
      (i : ℕ) (cs : List ℕ) (off n : ℕ) (s s' : Fs)
      → off + length cs ≤ (s.inodes i).size
      → (grow_inode devsw i (off + length cs) (length cs) >> pure (length cs)) s ≡ ok (n, s')
      → (n ≡ length cs) × (s ≡ s')
  write_ended i cs off n s s' h e =
      let last = ok_inj (
        sym (
          >>=-run (grow_inode devsw i (off + length cs) (length cs)) (λ _. pure (length cs)) s tt s
            (grow_none i (off + length cs) (length cs) s h))
        ∙ e) in
      (sym (ap (λ x. x.0) last), ap (λ x. x.1) last)

  Written-writei :
      (ip : Inode) (i : ℕ) (cs : List ℕ) (off nb n : ℕ) (s s' : Fs)
      → s.inodes i ≡ ip
      → ip.kind ≢ t_dev
      → ip.size ≤ nb * bsize
      → IsMapped (s.content ip.dev) ip.addrs nb
      → off + length cs ≤ ip.size
      → writei devsw i cs off s ≡ ok (n, s')
      → (n ≡ length cs) × Written ip nb off cs s s'
  Written-writei ip i cs off nb n s s' p k z v h e =
      let sz = ap (λ q. q.size) p in
      let kd = ap (λ q. q.kind) p in
      let few_blocks = v.short_enough in
      let run = sym (writei_run i cs off s (ground arith) (ground arith) (ground arith)) ∙ e in
      let (t, s1, wrote, rest) =
        >>=-ok (write_loop (length cs) i off cs)
          (λ _. grow_inode devsw i (off + length cs) (length cs) >> pure (length cs)) s run in
      let w =
        write_loop-Written (length cs) i off cs nb ip s s1 t p v (omega arith) (omega arith)
          wrote in
      let sz1 = ap (λ g. (g i).size) w.same_inodes in
      let (a, q) = write_ended i cs off n s1 s' (omega arith) rest in
      (a, subst (Written ip nb off cs s) q w)

  -- On a file that is no device, whose blocks are allocated and its own, a `writei` within the
  -- file's size that does not panic returns the number of bytes; `readi` then returns these bytes,
  -- every other byte of the file stays, and so does the inode cache.
  pub readi-writei :
      (ip : Inode) (i : ℕ) (cs : List ℕ) (off nb n : ℕ) (s s' : Fs)
      → s.inodes i ≡ ip
      → ip.kind ≢ t_dev
      → ip.size ≤ nb * bsize
      → IsMapped (s.content ip.dev) ip.addrs nb
      → off + length cs ≤ ip.size
      → writei devsw i cs off s ≡ ok (n, s')
      → (n ≡ length cs)
        × (readi devsw i off (length cs) s' ≡ ok (some cs, s'))
        × ((x : ℕ)
            → x < nb * bsize
            → (x < off) ⊎ (off + length cs ≤ x)
            → file_byte (s'.content ip.dev) ip.addrs x ≡ file_byte (s.content ip.dev) ip.addrs x)
        × (s'.inodes ≡ s.inodes)
  readi-writei ip i cs off nb n s s' p k z v h e =
      let (a, w) = Written-writei ip i cs off nb n s s' p k z v h e in
      (
        a,
        read_back ip i cs off nb s s' (ap (λ g. g i) w.same_inodes ∙ p) k z h w,
        λ x l o.
            w.new_bytes x l ∙ put_bytes_outside (file_byte (s.content ip.dev) ip.addrs) off cs x o,
        w.same_inodes,
      )
