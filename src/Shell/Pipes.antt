-- ===== src/Shell/Pipes.antt =====
-- 312552017_np_project2/shell/pipe.cpp: a pair of descriptors, and what is done with them.
pub mod Close
use nycu_np.Prelude.{
  ◌∷◌, Bool, true, false, ◌&&◌, if◌then◌else◌, Option, none, some, Bytes, ℤ, pos, negsuc,
  is_minus_one, codes, ℕ,
}
use nycu_np.Shell.Kernel.{
  Kernel, Log, Pipe, Proc, Outcome, exited, running, OpenFlags, create_truncate, create_append,
  read_only, read_write, read_nonblock, Event, pipe2, open_file, access, mkfifo, close, dup2,
  read_to_end, cerr, pure, ◌>>=◌, ◌>>◌, emit, ask, bind_outcome,
}

abbrev pub minus_one : ℤ
minus_one = negsuc 0

abbrev pub stdin_fileno : ℤ
stdin_fileno = pos 0

abbrev pub stdout_fileno : ℤ
stdout_fileno = pos 1

abbrev pub stderr_fileno : ℤ
stderr_fileno = pos 2

-- `FileCommand::fileMode`.
pub data FileMode : Type 0 where
  write_mode read_mode append_mode : FileMode

-- `Pipe::Pipe` and `clear`.
abbrev pub no_pipe : Pipe
no_pipe = record { input = minus_one; output = minus_one }

unfoldable pub clear : Pipe → Pipe
clear p = record p { input = minus_one; output = minus_one }

-- `perror("pipe")` and `exit(EXIT_FAILURE)` where `pipe2` fails.
abbrev pub use_fds : Option (ℕ × ℕ) → Proc Pipe
use_fds none l = exited (cerr (codes "pipe") ∷ l)
use_fds (some (i, o)) l = running (record { input = pos i; output = pos o }) l

unfoldable pub create : Kernel → Proc Pipe
create k = do fds ← ask pipe2 k.pipe_fds; use_fds fds

unfoldable pub open_as : Kernel → Bytes → FileMode → Pipe → Proc Pipe
open_as k filename write_mode p = do
  fd ← ask (open_file filename create_truncate) k.open_fd
  pure (record p { input = minus_one; output = fd })
open_as k filename read_mode p = do
  fd ← ask (open_file filename read_only) k.open_fd
  pure (record p { input = fd; output = minus_one })
open_as k filename append_mode p = do
  fd ← ask (open_file filename create_append) k.open_fd
  pure (record p { input = minus_one; output = fd })

-- `openFIFO`: the Boolean is the flag that it returns.
make_fifo : Kernel → Bytes → Pipe → Bool → Proc (Pipe × Bool)
make_fifo k filename p true = pure (p, false)
make_fifo k filename p false = do
  emit (mkfifo filename)
  fd ← ask (open_file filename read_write) k.open_fd
  pure (record p { output = fd }, true)

open_existing : Kernel → Bytes → Pipe → Bool → Proc (Pipe × Bool)
open_existing k filename p false = pure (p, false)
open_existing k filename p true = do
  fd ← ask (open_file filename read_nonblock) k.open_fd
  pure (record p { input = fd }, true)

unfoldable pub open_fifo : Kernel → Bytes → FileMode → Pipe → Proc (Pipe × Bool)
unfolding make_fifo open_existing
open_fifo k filename write_mode p = do
  found ← ask (access filename) k.file_exists
  make_fifo k filename p found
open_fifo k filename read_mode p = do
  found ← ask (access filename) k.file_exists
  open_existing k filename p found
open_fifo k filename append_mode p = pure (p, false)

close_end : Bool → ℤ → Proc (Unit {0})
close_end none_there fd = if none_there then pure tt else emit (close fd)

unfoldable pub close_pipe : Pipe → Proc Pipe
unfolding clear close_end
close_pipe p = do
  close_end (is_minus_one p.input) p.input
  close_end (is_minus_one p.output) p.output
  pure (clear p)

-- `Pipe::read`, `Pipe::write`.
unfoldable pub read_from : Pipe → Proc Pipe
unfolding close_pipe
read_from p = do emit (dup2 p.input stdin_fileno); close_pipe p

unfoldable pub write_to : Bool → Pipe → Proc Pipe
unfolding close_pipe
write_to write_err p = do
  emit (dup2 p.output stdout_fileno)
  if write_err then emit (dup2 p.output stderr_fileno) else pure tt
  close_pipe p

unfoldable pub is_empty : Pipe → Bool
is_empty p = is_minus_one p.input && is_minus_one p.output

unfoldable pub set_fds : ℤ → ℤ → Pipe → Pipe
set_fds in_fd out_fd p = record p { input = in_fd; output = out_fd }

-- The descriptors are closed, and the pair keeps their numbers.
unfoldable pub read_eof : Pipe → Proc (Unit {0})
read_eof p = do emit (close p.output); emit (read_to_end p.input); emit (close p.input)
