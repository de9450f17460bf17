-- ===== src/Shell/Running.antt =====
-- Lab/code/sh.c: `runcmd`, `fork1` and a round of `main`, as the system calls that a process makes.
use xmu_learning_os.Base.{
  Bytes, List, Option, [], bytes_at, drop, get_or, if◌then◌else◌, length, minus_one, none, slt,
  some, take, ℕ, ◌&&◌, ◌-◌, ◌==◌, ◌∷◌,
}
use xmu_learning_os.Shell.{Cmd, back_cmd, exec_cmd, list_cmd, parsecmd, parsed, pipe_cmd, redir_cmd}

-- What the two shells print, with the name in it. The later ones are those of Lab/code/lsh.c.
pub data Message : Type 0 where
  exec_failed : List ℕ → Message
  open_failed : List ℕ → Message
  fork_failed : Message
  pipe_failed : Message
  cannot_cd : List ℕ → Message
  bad_syntax : Message
  prompt help exec_refused no_pipe parse_error many_dirs many_inputs many_outputs : Message
  no_access : List ℕ → Message
  no_input : List ℕ → Message
  no_output : List ℕ → Message

-- A process: its next system call, and how it goes on with the result.
pub data Process : Type 0 where
  exits : Process
  prints : Message → Process → Process
  execs : List ℕ → List (List ℕ) → Process → Process
  closes : ℕ → Process → Process
  dups : ℕ → Process → Process
  opens : List ℕ → ℕ → (ℕ → Process) → Process
  waits_for : Process → Process
  forks : Process → (ℕ → Process) → Process
  pipes : (Option (ℕ × ℕ) → Process) → Process
  changes_dir : List ℕ → (ℕ → Process) → Process
  unlinks : List ℕ → Process → Process

-- The strings of a command in the buffer after `nulterminate`.
abbrev pub text : Bytes → ℕ × ℕ → List ℕ
text buf a = bytes_at buf (a.0) (a.1 - a.0)

abbrev pub texts : Bytes → List (ℕ × ℕ) → List (List ℕ)
texts buf [] = []
texts buf (a ∷ l) = text buf a ∷ texts buf l

-- `if(fork1() == 0) child;`, and what the parent goes on with.
unfoldable pub fork1 : Process → Process → Process
fork1 child parent =
    forks child λ pid. if pid == minus_one then prints fork_failed exits else parent

-- The child's end of a pipe: `fd` is the descriptor that it replaces, and `p` the end.
unfoldable pub use_end : ℕ → ℕ → ℕ × ℕ → Process → Process
use_end fd p ends rest = closes fd (dups p (closes (ends.0) (closes (ends.1) rest)))

unfoldable pub run_pipe : Process → Process → Option (ℕ × ℕ) → Process
unfolding fork1 use_end
run_pipe left right none = prints pipe_failed exits
run_pipe left right (some ends) = fork1 (use_end 1 (ends.1) ends left) (
    fork1 (use_end 0 (ends.0) ends right)
      (closes (ends.0) (closes (ends.1) (waits_for (waits_for exits)))))

unfoldable pub runcmd : Bytes → Cmd → Process
unfolding fork1 run_pipe
runcmd buf (exec_cmd []) = exits
runcmd buf (exec_cmd (a ∷ args)) =
    execs (text buf a) (text buf a ∷ texts buf args) (prints (exec_failed (text buf a)) exits)
runcmd buf (redir_cmd c file mode fd) =
    let rest = runcmd buf c in
    closes fd (
      opens (text buf file) mode
        λ r. if slt r 0 then prints (open_failed (text buf file)) exits else rest)
runcmd buf (list_cmd l r) = fork1 (runcmd buf l) (waits_for (runcmd buf r))
runcmd buf (pipe_cmd l r) = pipes (run_pipe (runcmd buf l) (runcmd buf r))
runcmd buf (back_cmd c) = fork1 (runcmd buf c) exits

-- The child of `main` for a line.
unfoldable pub run_line : List ℕ → Process
unfolding parsecmd runcmd
run_line cs = elim (parsecmd (λ k. get_or cs k 0) (length cs)) [
  | parsed (cmd, buf) s ↦ runcmd buf cmd
  | _ ↦ prints bad_syntax exits
]

-- `buf[strlen(buf)-1] = 0;`
abbrev pub without_last : List ℕ → List ℕ
without_last cs = take (length cs - 1) cs

-- A round of the loop of `main`: `again` is the loop. A line is the characters up to its NUL.
unfoldable pub main_round : Process → List ℕ → Process
unfolding fork1 run_line
main_round again [] = exits
main_round again (c ∷ cs) =
    let dir = drop 3 (without_last (c ∷ cs)) in
    if (c == 99) && (get_or cs 0 0 == 100) && (get_or cs 1 0 == 32)
    then changes_dir dir (λ r. if slt r 0 then prints (cannot_cd dir) again else again)
    else fork1 (run_line (c ∷ cs)) (waits_for again)
