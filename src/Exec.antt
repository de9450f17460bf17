-- ===== src/Exec.antt =====
-- Lab/code/exec.c, Lab/code/elf.h, and `loaduvm` of Lab/code/vm.c: a program is read from its file into
-- a new address space. `kernel_data` is the address of the kernel's data.
use xmu_learning_os.Base.{
  Bytes, List, M, Option, [], add32, change, false, get_half, get_word, gets, if◌then◌else◌, leb,
  length, ltb, minus_one, none, not, ok, panic_if, pure, put_bytes, slt, some, stopped, sub32, suc,
  true, update, zero, ℕ, ◌%◌, ◌&&◌, ◌*◌, ◌++◌, ◌+◌, ◌-◌, ◌/◌, ◌==◌, ◌>>=◌, ◌>>◌, ◌||◌, ◌∷◌,
}
use xmu_learning_os.File.{Environment, World, in_fs}
use xmu_learning_os.Fs.Content.{readi}
use xmu_learning_os.Fs.Directory.{memory_of}
use xmu_learning_os.Fs.Inodes.{ilock}
use xmu_learning_os.Fs.Names.{namei}
use xmu_learning_os.Fs.Release.{iunlockput}
use xmu_learning_os.Kalloc.{page_round_up}
use xmu_learning_os.Proc.{Proc}
use xmu_learning_os.Proc.Alloc.{pgsize}
use xmu_learning_os.Str.{safestrcpy}
use xmu_learning_os.SysFile.Open.{exec_args, maxarg}
use xmu_learning_os.Syscall.{Caller}
use xmu_learning_os.Vm.{V, freevm, p2v, pte_addr, walkpgdir, word_at}
use xmu_learning_os.Vm.User.{allocuvm, clearpteu, copyout, setupkvm}

-- `struct elfhdr` and `struct proghdr`, the fields that are read.
pub record Elfhdr : Type 0 where
  pub magic : ℕ
  pub entry : ℕ
  pub phoff : ℕ
  pub phnum : ℕ

pub record Proghdr : Type 0 where
  pub kind : ℕ
  pub off : ℕ
  pub vaddr : ℕ
  pub filesz : ℕ
  pub memsz : ℕ

abbrev pub elf_magic : ℕ
elf_magic = 0x464C457F

-- Their sizes.
abbrev pub elfhdr_size : ℕ
elfhdr_size = 52

abbrev pub proghdr_size : ℕ
proghdr_size = 32

unfoldable pub elfhdr_of : Bytes → Elfhdr
unfolding get_word get_half
elfhdr_of m = record {
  magic = get_word m 0;
  entry = get_word m 24;
  phoff = get_word m 28;
  phnum = get_half m 44;
}

unfoldable pub proghdr_of : Bytes → Proghdr
unfolding get_word
proghdr_of m = record {
  kind = get_word m 0;
  off = get_word m 4;
  vaddr = get_word m 8;
  filesz = get_word m 16;
  memsz = get_word m 20;
}

-- `for(last=s=path; *s; s++) if(*s == '/') last = s+1;`
unfoldable pub last_element : List ℕ → List ℕ → List ℕ
last_element last [] = last
last_element last (c ∷ s) =
    let new = last_element s s in let old = last_element last s in if c == 47 then new else old

unfoldable pub word_bytes : List ℕ → List ℕ
word_bytes [] = []
word_bytes (w ∷ ws) = w % 256 ∷ w / 256 % 256 ∷ w / 65536 % 256 ∷ w / 16777216 ∷ word_bytes ws

module _ {S : Type 0} where
  -- An operation on the memory.
  unfoldable pub in_vm : {A : Type 0} → V A → M (World S) A
  in_vm m w = elim (m w.kmem) [ ok (a, k) ↦ ok (a, record w { kmem = k }) | stopped e ↦ stopped e ]

  module _ (env : Environment) (kernel_data pid cur : ℕ) where
    -- The loop of `loaduvm` from `i` on, with the number of its rounds.
    unfoldable pub load_pages : ℕ → ℕ → ℕ → ℕ → ℕ → ℕ → ℕ → M (World S) ℕ
    load_pages zero pgdir addr ip offset sz i = pure 0
    load_pages (suc r) pgdir addr ip offset sz i = do
      pte ← in_vm (walkpgdir pgdir (add32 addr i) false)
      panic_if (pte == 0)
      e ← in_vm (word_at pte)
      let n = if ltb (sz - i) pgsize then sz - i else pgsize
      got ← in_fs (readi env.devsw ip (add32 offset i) n)
      elim got [
        | none ↦ pure minus_one
        | some cs ↦ (do
          in_vm (change λ m. record m { memory = put_bytes m.memory (p2v (pte_addr e)) cs })
          elim (length cs == n) [
            | false ↦ pure minus_one
            | true ↦ load_pages r pgdir addr ip offset sz (i + pgsize)
          ])
      ]

    unfoldable pub loaduvm : ℕ → ℕ → ℕ → ℕ → ℕ → M (World S) ℕ
    unfolding load_pages
    loaduvm pgdir addr ip offset sz = do
      panic_if (not (addr % pgsize == 0))
      load_pages ((sz + (pgsize - 1)) / pgsize) pgdir addr ip offset sz 0

    -- A segment of the type that is loaded: the new size, or `none` for `bad`.
    unfoldable pub load_segment : ℕ → ℕ → ℕ → Proghdr → M (World S) (Option ℕ)
    unfolding loaduvm in_vm
    load_segment pgdir ip sz ph =
        let top = add32 ph.vaddr ph.memsz in
        elim (ltb ph.memsz ph.filesz || ltb top ph.vaddr) [
          | true ↦ pure none
          | false ↦ (do
            sz' ← in_vm (allocuvm env.kernel_end kernel_data pgdir sz top)
            elim ((sz' == 0) || not (ph.vaddr % pgsize == 0)) [
              | true ↦ pure none
              | false ↦ (do
                r ← loaduvm pgdir ph.vaddr ip ph.off ph.filesz
                pure (if slt r 0 then none else some sz'))
            ])
        ]

    -- The loop over the program headers, with `n` of them left.
    unfoldable pub load_segments : ℕ → ℕ → ℕ → ℕ → ℕ → M (World S) (Option ℕ)
    unfolding load_segment proghdr_of
    load_segments zero pgdir ip off sz = pure (some sz)
    load_segments (suc n) pgdir ip off sz = do
      got ← in_fs (readi env.devsw ip off proghdr_size)
      elim got [
        | none ↦ pure none
        | some cs ↦
            let ph = proghdr_of (memory_of cs) in
            elim (length cs == proghdr_size) [
              | false ↦ pure none
              | true ↦ elim (ph.kind == 1) [
                | false ↦ load_segments n pgdir ip (add32 off proghdr_size) sz
                | true ↦ (do
                  r ← load_segment pgdir ip sz ph
                  elim r [
                    | none ↦ pure none
                    | some sz' ↦ load_segments n pgdir ip (add32 off proghdr_size) sz'
                  ])
              ]
            ]
      ]

    -- The loop that pushes the strings: where they are, and the stack pointer.
    unfoldable pub push_args : List (List ℕ) → ℕ → ℕ → ℕ → M (World S) (Option (List ℕ × ℕ))
    unfolding in_vm copyout
    push_args [] pgdir argc sp = pure (some ([], sp))
    push_args (arg ∷ argv) pgdir argc sp =
        let sp' = sub32 sp (length arg + 1) / 4 * 4 in
        elim (leb maxarg argc) [
          | true ↦ pure none
          | false ↦ (do
            r ← in_vm (copyout pgdir sp' (arg ++ 0 ∷ []))
            elim (slt r 0) [
              | true ↦ pure none
              | false ↦ (do
                rest ← push_args argv pgdir (argc + 1) sp'
                pure (elim rest [ none ↦ none | some (ps, end) ↦ some (sp' ∷ ps, end) ]))
            ])
        ]

    -- From the two pages of the stack to its last word: the size and the stack pointer.
    unfoldable pub build_stack : ℕ → ℕ → List (List ℕ) → M (World S) (Option (ℕ × ℕ))
    unfolding in_vm allocuvm clearpteu push_args copyout word_bytes
    build_stack pgdir sz argv = do
      let base = page_round_up sz
      top ← in_vm (allocuvm env.kernel_end kernel_data pgdir base (add32 base (2 * pgsize)))
      elim (top == 0) [
        | true ↦ pure none
        | false ↦ (do
          in_vm (clearpteu pgdir (top - 2 * pgsize))
          pushed ← push_args argv pgdir 0 top
          elim pushed [
            | none ↦ pure none
            | some (ps, sp) ↦ (do
              let argc = length ps
              let ustack = minus_one ∷ argc ∷ sub32 sp ((argc + 1) * 4) ∷ (ps ++ 0 ∷ [])
              let sp' = sub32 sp ((3 + argc + 1) * 4)
              r ← in_vm (copyout pgdir sp' (word_bytes ustack))
              pure (if slt r 0 then none else some (top, sp')))
          ])
      ]

    -- The new image of the process.
    unfoldable pub install_image : List ℕ → ℕ → ℕ → ℕ → ℕ → World S → World S
    unfolding last_element safestrcpy
    install_image path pgdir sz entry sp w =
        let k = w.kernel in
        let p = k.procs cur in
        let p' : Proc = record p {
          name = safestrcpy p.name (memory_of (last_element path path)) 16;
          pgdir = pgdir;
          sz = sz;
          tf = record (p.tf) { eip = entry; esp = sp };
        } in
        record w { kernel = record k { procs = update k.procs cur p' } }

    -- The label `bad`, with an inode that is still locked, or none.
    unfoldable pub exec_fails : ℕ → Option ℕ → M (World S) ℕ
    unfolding in_vm in_fs freevm iunlockput
    exec_fails pgdir ip = do
      elim (pgdir == 0) [ true ↦ pure tt | false ↦ in_vm (freevm env.kernel_end pgdir) ]
      elim ip [ none ↦ pure tt | some i ↦ in_fs (do iunlockput pid i; env.end_transaction) ]
      pure minus_one

    -- `exec` once the segments are loaded.
    unfoldable pub exec_image : List ℕ → List (List ℕ) → ℕ → ℕ → ℕ → M (World S) ℕ
    unfolding build_stack install_image exec_fails in_vm freevm
    exec_image path argv pgdir entry sz = do
      built ← build_stack pgdir sz argv
      elim built [
        | none ↦ exec_fails pgdir none
        | some (top, sp) ↦ (do
          old ← gets (λ w. (w.kernel.procs cur).pgdir)
          change (install_image path pgdir top entry sp)
          in_vm (freevm env.kernel_end old)
          pure 0)
      ]

    -- `exec` with the locked inode of the program.
    unfoldable pub exec_inode : List ℕ → List (List ℕ) → ℕ → M (World S) ℕ
    unfolding exec_fails in_vm in_fs setupkvm load_segments exec_image elfhdr_of iunlockput
    exec_inode path argv i = do
      got ← in_fs (readi env.devsw i 0 elfhdr_size)
      elim got [
        | none ↦ exec_fails 0 (some i)
        | some cs ↦
            let elf = elfhdr_of (memory_of cs) in
            elim ((length cs == elfhdr_size) && (elf.magic == elf_magic)) [
              | false ↦ exec_fails 0 (some i)
              | true ↦ (do
                pgdir ← in_vm (setupkvm env.kernel_end kernel_data)
                elim (pgdir == 0) [
                  | true ↦ exec_fails 0 (some i)
                  | false ↦ (do
                    loaded ← load_segments elf.phnum pgdir i elf.phoff 0
                    elim loaded [
                      | none ↦ exec_fails pgdir (some i)
                      | some sz ↦ (do
                        in_fs (do iunlockput pid i; env.end_transaction)
                        exec_image path argv pgdir elf.entry sz)
                    ])
                ])
            ]
      ]

    unfoldable pub exec : List ℕ → List (List ℕ) → M (World S) ℕ
    unfolding exec_inode in_fs namei ilock
    exec path argv = do
      in_fs env.begin_transaction
      p ← gets (λ w. w.kernel.procs cur)
      found ← in_fs (namei env.devsw pid p.cwd path)
      elim found [
        | none ↦ (do in_fs env.end_transaction; pure minus_one)
        | some i ↦ (do in_fs (ilock pid i); exec_inode path argv i)
      ]

    unfoldable pub sys_exec : Caller → M (World S) ℕ
    unfolding exec_args exec
    sys_exec c = elim (exec_args c) [ none ↦ pure minus_one | some (path, argv) ↦ exec path argv ]
