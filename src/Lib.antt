-- ===== src/Lib.antt =====
-- XMU-learning_OS: the kernel of Lab/code, an xv6 with its own schedulers, semaphores and threads.
--
-- Kernel state is explicit. A function that changes it takes the state and returns the new one
-- beside its result; `none` stands for a panic. Pointers to processes are indices into the table,
-- other addresses are numbers with 0 as the null pointer. An `int` or `uint` that can wrap or be
-- negative is its 32-bit pattern, and the tests `slt` and `sle` read the sign.
-- Spin locks make the calls atomic; a call that sleeps (`wait`, `sem_wait`, `pipewrite`, `piperead`,
-- `begin_op`) is cut into rounds, from one acquisition of its lock to the return or to the sleep.
-- What other processes do in between is a step relation.
--
-- Base: tests on numbers, lists, words, arrays as functions with the loops over them.
-- Str: string.c; Compare says what `strncmp` compares and where `strlen` stops, Move what `memmove`
--   moves, Copy what `safestrcpy` copies.
-- Services: what process management calls of kalloc.c, vm.c, file.c, fs.c and log.c, as an
--   interface with no laws.
-- Proc: proc.h and the process part of proc.c.
--   Sleep (`sleep`, `wakeup`, `kill`, `yield`, `setpriority`, `update_statistics`), Alloc
--   (`allocproc`, `fork`, `clone`, `growproc`), Exit (`exit`), Wait (`wait`, `wait2`, `join`) define;
--   Scanning, Abandoned, Tame, Waiting, System prove that no exit is lost; Create, Files, Fork, Reap say
--   what the calls do; Pids and Unique prove that identifiers are unique. Table has `getptable`, `userinit`, `mycpu` and the checks of `sched`; Listing
--   proves what `getptable` returns.
-- Sched: sdh.h and the policies of proc.c. Select has `setscheduler` and the choice; Policies, Least,
--   RoundRobin, Levels, Choice, Conserving, Fairness prove. The loop of `rrScheduler` has fuel NPROC, one round
--   of the table, and is proved to end within it.
-- Sema: the semaphores of proc.c; Waiting proves that no signal is lost but where a value is raised
--   without a wakeup.
-- Log: log.c over `Store`, which stands for bio.c and the disk: what `bread` returns and what the
--   disk holds, with a count of the writes that are made before the machine stops. Copy, Head,
--   Recovery, Crash, Atomic prove that a commit is atomic; Space that reservations suffice.
-- Pipe: pipe.c. Fifo and Stream prove that it is a bounded queue.
-- Sleeplock: sleeplock.c. Bio: bio.c, the list of buffers; Find has the searches, Cached says what
--   `bget` does, Unique that a block has one buffer.
-- Memide: memide.c, with `bread` and `bwrite` of bio.c after `bget`; RoundTrip proves that what is
--   written is read. Ide: ide.c, the queue of requests over the controller's registers as parameters;
--   `iderw` is its part before it waits, and `ideintr` the interrupt.
-- Kalloc: kalloc.c. The loop of `freerange` runs for the number of whole pages of the range, and no
--   address wraps below 2 ^ 32; Lists and Pages say what pages are free.
-- Fs: fs.c over the content of blocks as bytes, with the log of log.c. Blocks (`balloc`, `bfree`;
--   Allocate, Bits and Marks prove), Inodes (the inode cache; Cache and Unique prove that an inode is cached once,
--   Dinode and Update that the disk keeps it), Content (`bmap`, `itrunc`, `readi`, `writei`;
--   Address, Reading, Writing, InPlace, RoundTrip prove that what is written in place is read),
--   Release (`iput`), Directory, Names (`namex`; Elements and Fuel prove). A run that meets a lock
--   which another process holds stops as `waiting`. `readi`, `writei` and `namex` have a round for
--   each byte or character, and `namex` is proved to need no more.
-- File: file.c and `pipealloc` over Pipe, Kalloc and Fs; Transfer has `fileread` and `filewrite`.
--   `begin_op`, `end_op` and the drivers in `devsw` are an interface there.
-- SysFile: sysfile.c. A call takes the process, its arguments and memory; Links has `link` and
--   `unlink`, Open has `create` and what works on the file system, Paths the calls that take a path.
--   `exec` ends with its arguments here. Descriptors proves about `dup` and `close`.
-- SysProc: sysproc.c and `syscall`; its child Trap has the clock, faults and preemption of trap.c.
-- Exec: exec.c, elf.h and `loaduvm`.
-- Vm: vm.c on page tables in the memory of Kalloc; User has the address spaces. Loops have a round for
--   each page.
-- Spinlock: spinlock.c; Nesting and Exclusion prove. Syscall: the argument fetching of syscall.c; InBounds proves.
-- Console: the input line of console.c; InOrder proves that its counters stay in order. Umalloc: umalloc.c.
-- Grep: grep.c, the matcher and a round of `grep` over its buffer; Matching proves what the matcher
--   finds. Printf: printf.c and string functions of ulib.c; Numbers proves a round trip.
-- Shell: the parser of sh.c. Its loops and its recursion run on the number of characters left, which
--   Tokens, Runs, Parsing, Strings and Lines prove to be enough; they say what strings a command has.
--   Running has `runcmd` and a round of `main`, as the system calls that a process makes.
-- Lsh: lsh.c, `strtok`, the words of a line, and the system calls of `lsh_execute` and of a round of
--   `main`. The string at the null pointer is a parameter. Words proves that the loop over the tokens,
--   which runs on the length of the line, ends and reads all words.
-- Samples, Tests: concrete kernels and disks, and the theorems at them.
--
-- Not modelled: console output (`procdump`), assembly, devices other than the
-- disk, the start of the disk driver, the processor's registers of vm.c, the user programs that only
-- make system calls, the image builder mkfs.c, and the programs that test the system.
pub mod Base
pub mod Bio
pub mod Console
pub mod Exec
pub mod File
pub mod Fs
pub mod Grep
pub mod Ide
pub mod Kalloc
pub mod Log
pub mod Lsh
pub mod Memide
pub mod Pipe
pub mod Printf
pub mod Proc
pub mod Samples
pub mod Sched
pub mod Sema
pub mod Services
pub mod Shell
pub mod Sleeplock
pub mod Spinlock
pub mod Str
pub mod SysFile
pub mod SysProc
pub mod Syscall
pub mod Tests
pub mod Umalloc
pub mod Vm
