-- ===== src/Fs/Content/InPlace.antt =====
-- Lab/code/fs.c: `writei` over the allocated blocks of a file, and `readi` after it.
use xmu_learning_os.Base.{
  >>=-ok, >>=-run, Bool-cases, List, [], ap, arith, drop, false, gets, inl, inr, length,
  length-drop, length-take, ok, ok_inj, pure, put_bytes, put_bytes-drop, put_bytes_same, refl, suc,
  sym, take, true, update, zero, ℕ, ◌%◌, ◌*◌, ◌+◌, ◌/◌, ◌<◌, ◌==◌, ◌>>=◌, ◌>>◌, ◌∙◌, ◌∷◌, ◌≡◌, ◌≤◌,
}
use xmu_learning_os.Fs.{F, Fs, Inode, bsize, write_block}
use xmu_learning_os.Fs.Access.{write_block-ok}
use xmu_learning_os.Fs.Content.{bmap, chunk, write_loop}
use xmu_learning_os.Fs.Content.Address.{IsMapped, addr_of, bmap-IsMapped}
use xmu_learning_os.Fs.Content.Reading.{chunk_bounds, file_byte}
use xmu_learning_os.Fs.Content.Writing.{IsMapped-update, file_byte-update}
use xmu_learning_os.Proc.Sleep.{put}
use mathlib.Core.Path.{subst}

-- What a write of `cs` at `off` has done to the file of the inode `ip` with `nb` blocks.
pub record Written (ip : Inode) (nb off : ℕ) (cs : List ℕ) (s s' : Fs) : Type 0 where
  pub same_inodes : s'.inodes ≡ s.inodes
  pub still_mapped : IsMapped (s'.content ip.dev) ip.addrs nb
  pub new_bytes :
      (x : ℕ)
      → x < nb * bsize
      → file_byte (s'.content ip.dev) ip.addrs x
        ≡ put_bytes (file_byte (s.content ip.dev) ip.addrs) off cs x

-- A round, after `bmap` has given the block `b`.
abbrev write_on : ℕ → ℕ → ℕ → List ℕ → ℕ → ℕ → F (Unit {0})
write_on f i off cs d b = gets (λ s. s.content d b) >>= λ w.
    write_block d b (put_bytes w (off % bsize) (take (chunk off (length cs)) cs))
    >> write_loop f i (off + chunk off (length cs)) (drop (chunk off (length cs)) cs)

abbrev write_from_block : ℕ → ℕ → ℕ → List ℕ → ℕ → F (Unit {0})
write_from_block f i off cs b = gets (λ s. s.inodes i) >>= λ ip. write_on f i off cs ip.dev b

write_step :
    (f i off : ℕ) (cs : List ℕ)
    → (length cs == 0) ≡ false
    → write_loop (suc f) i off cs ≡ (bmap i (off / bsize) >>= λ b. write_from_block f i off cs b)
unfolding write_loop
write_step f i off cs e = rw (write_loop, e)

write_end :
    (f i off : ℕ) (cs : List ℕ) → (length cs == 0) ≡ true → write_loop (suc f) i off cs ≡ pure tt
unfolding write_loop
write_end f i off cs e = rw (write_loop, e)

nil_of_length : (cs : List ℕ) → length cs ≡ 0 → cs ≡ []
nil_of_length [] e = refl
nil_of_length (c ∷ cs) e = absurd (omega (arith, e))

Written-nil :
    (ip : Inode) (nb off : ℕ) (cs : List ℕ) (s s' : Fs)
    → length cs ≡ 0
    → s ≡ s'
    → IsMapped (s.content ip.dev) ip.addrs nb
    → Written ip nb off cs s s'
unfolding put_bytes
Written-nil ip nb off cs s s' e p v = subst (Written ip nb off cs s) p (record {
  same_inodes = refl;
  still_mapped = v;
  new_bytes = λ x h.
      ap (λ ds. put_bytes (file_byte (s.content ip.dev) ip.addrs) off ds x)
        (sym (nil_of_length cs e));
})

-- One block, and then the rest.
Written-drop :
    (ip : Inode) (nb off m : ℕ) (cs : List ℕ) (s s1 s' : Fs)
    → m ≤ length cs
    → Written ip nb off (take m cs) s s1
    → Written ip nb (off + m) (drop m cs) s1 s'
    → Written ip nb off cs s s'
Written-drop ip nb off m cs s s1 s' h p q = record {
  same_inodes = q.same_inodes ∙ p.same_inodes;
  still_mapped = q.still_mapped;
  new_bytes = λ x l.
      q.new_bytes x l
      ∙ put_bytes_same (file_byte (s1.content ip.dev) ip.addrs)
          (put_bytes (file_byte (s.content ip.dev) ip.addrs) off (take m cs)) (off + m) (drop m cs)
          x (p.new_bytes x l)
      ∙ ap (λ g. g x) (put_bytes-drop (file_byte (s.content ip.dev) ip.addrs) off m cs h);
}

Written-block :
    (ip : Inode) (nb off : ℕ) (cs : List ℕ) (s s' : Fs) (u : Unit {0})
    → IsMapped (s.content ip.dev) ip.addrs nb
    → off % bsize + length cs ≤ bsize
    → off / bsize < nb
    → let b = addr_of (s.content ip.dev) ip.addrs (off / bsize) in
      write_block ip.dev b (put_bytes (s.content ip.dev b) (off % bsize) cs) s ≡ ok (u, s')
      → Written ip nb off cs s s'
Written-block ip nb off cs s s' u v h l e =
    let c = s.content ip.dev in
    let b = addr_of c ip.addrs (off / bsize) in
    let w = put_bytes (c b) (off % bsize) cs in
    let (p, q, r) = write_block-ok ip.dev b w s s' e in
    let new : s'.content ip.dev ≡ update c b w = ap (λ z. z ip.dev) p ∙ ground arith in
    record {
      same_inodes = r;
      still_mapped =
          subst (λ z. IsMapped z ip.addrs nb) (sym new)
            (IsMapped-update c ip.addrs nb (off / bsize) w v l);
      new_bytes = λ x m.
          ap (λ z. file_byte z ip.addrs x) new ∙ file_byte-update c ip.addrs nb off cs v h l x m;
    }

bmap_at :
    (ip : Inode) (i bn nb : ℕ) (s : Fs)
    → s.inodes i ≡ ip
    → IsMapped (s.content ip.dev) ip.addrs nb
    → bn < nb
    → bmap i bn s ≡ ok (addr_of (s.content ip.dev) ip.addrs bn, s)
bmap_at ip i bn nb s p v h =
    subst
      (λ q.
        IsMapped (s.content q.dev) q.addrs nb
        → bmap i bn s ≡ ok (addr_of (s.content q.dev) q.addrs bn, s))
      p (λ w. bmap-IsMapped i bn nb s w h) v

-- The loop of `writei` on allocated blocks, where it does not panic.
pub write_loop-Written :
    (f i off : ℕ) (cs : List ℕ) (nb : ℕ) (ip : Inode) (s s' : Fs) (u : Unit {0})
    → s.inodes i ≡ ip
    → IsMapped (s.content ip.dev) ip.addrs nb
    → length cs ≤ f
    → off + length cs ≤ nb * bsize
    → write_loop f i off cs s ≡ ok (u, s')
    → Written ip nb off cs s s'
unfolding write_loop
write_loop-Written zero i off cs nb ip s s' u p v h l e =
    Written-nil ip nb off cs s s' (omega arith) (ap (λ x. x.1) (ok_inj e)) v
write_loop-Written (suc f) i off cs nb ip s s' u p v h l e =
    let c = s.content ip.dev in
    let m = chunk off (length cs) in
    let b = addr_of c ip.addrs (off / bsize) in
    let w = put_bytes (c b) (off % bsize) (take m cs) in
    elim (Bool-cases (length cs == 0)) [
      | inl z ↦
          Written-nil ip nb off cs s s' (ground arith)
            (ap (λ x. x.1) (ok_inj (sym (ap (λ r. r s) (write_end f i off cs z)) ∙ e))) v
      | inr z ↦
          (let (pos, fits, inside) = chunk_bounds off (length cs) (ground arith) in
            let near : off / bsize < nb = omega arith in
            let size = length-take m cs fits in
            let run =
              sym (
                >>=-run (bmap i (off / bsize)) (λ b. write_from_block f i off cs b) s b s
                  (bmap_at ip i (off / bsize) nb s p v near))
              ∙ sym (ap (λ r. r s) (write_step f i off cs z))
              ∙ e in
            let run' = subst (λ q. write_on f i off cs q.dev b s ≡ ok (u, s')) p run in
            let (t, s1, put, rest) =
              >>=-ok (write_block ip.dev b w) (λ _. write_loop f i (off + m) (drop m cs)) s run' in
            let one = Written-block ip nb off (take m cs) s s1 t v (omega (arith, size)) near put in
            Written-drop ip nb off m cs s s1 s' fits one (
              write_loop-Written f i (off + m) (drop m cs) nb ip s1 s' u
                (ap (λ g. g i) one.same_inodes ∙ p) one.still_mapped
                (omega (arith, length-drop m cs)) (omega (arith, length-drop m cs)) rest))
    ]
