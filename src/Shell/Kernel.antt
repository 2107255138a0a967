-- ===== src/Shell/Kernel.antt =====
-- The system calls that the shell and the server make. The operating system is a parameter: what
-- it answers may depend on every call that the process has made before.
use nycu_np.Prelude.{ℕ, Bool, List, ◌∷◌, Option, Bytes, ℤ}

-- `O_WRONLY | O_CREAT | O_TRUNC` and so on; `null_*` opens /dev/null.
pub data OpenFlags : Type 0 where
  create_truncate create_append read_only read_write read_nonblock write_only : OpenFlags

-- The two ends of a `Pipe`; -1 is no descriptor.
pub record Pipe : Type 0 where
  pub input : ℤ
  pub output : ℤ

-- What a child process is forked with: its standard input and output, and its command.
pub record Child : Type 0 where
  pub prev_pipe : Pipe
  pub curr_pipe : Pipe
  pub pipe_err : Bool
  pub argv : List Bytes

pub data Event : Type 0 where
  pipe2 : Event
  open_file : Bytes → OpenFlags → Event
  access : Bytes → Event
  mkfifo : Bytes → Event
  unlink : Bytes → Event
  close : ℤ → Event
  dup : ℤ → Event
  dup2 : ℤ → ℤ → Event
  read_to_end : ℤ → Event
  fork : Child → Event
  fork_session : Event
  waitpid : ℤ → Event
  execvp : List Bytes → Event
  setenv : Bytes → Bytes → Event
  cout : Bytes → Event
  cerr : Bytes → Event
  send : ℤ → Bytes → Event
  shutdown : ℤ → Event
  pipe : Event
  read : ℤ → Event
  write : ℤ → Bytes → Event

-- The calls that a process has made, the newest first.
abbrev pub Log : Type 0
Log = List Event

-- The answers of the operating system; each is asked with the log that ends in the call.
pub record Kernel : Type 0 where
  pub pipe_fds : Log → Option (ℕ × ℕ)
  pub open_fd : Log → ℤ
  pub dup_fd : Log → ℤ
  pub fork_pid : Log → ℤ
  pub file_exists : Log → Bool
  pub makes_fifo : Log → Bool
  pub exec_fails : Log → Bool

-- A process goes on with a value, or has left, by `exit` or by an exception that nothing catches,
-- or has done what C++ leaves undefined: a null pointer, or an index or a write out of bounds.
pub data Outcome (A : Type 0) : Type 0 where
  running : A → Log → Outcome A
  exited : Log → Outcome A
  fault : Outcome A

abbrev pub Proc : Type 0 → Type 0
Proc A = Log → Outcome A

abbrev pub pure : {A : Type 0} → A → Proc A
pure a l = running a l

infixl 5 ◌>>=◌ ◌>>◌
abbrev pub bind_outcome : {A B : Type 0} → Outcome A → (A → Proc B) → Outcome B
bind_outcome (running a l) f = f a l
bind_outcome (exited l) f = exited l
bind_outcome fault f = fault

abbrev pub ◌>>=◌ : {A B : Type 0} → Proc A → (A → Proc B) → Proc B
◌>>=◌ m f l = bind_outcome (m l) f

abbrev pub ◌>>◌ : {B : Type 0} → Proc (Unit {0}) → Proc B → Proc B
m >> k = m >>= λ _. k

-- A call whose answer is not used.
abbrev pub emit : Event → Proc (Unit {0})
emit e l = running tt (e ∷ l)

-- A call, and the answer to it.
abbrev pub ask : {A : Type 0} → Event → (Log → A) → Proc A
ask e answer l = running (answer (e ∷ l)) (e ∷ l)
