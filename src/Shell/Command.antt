-- ===== src/Shell/Command.antt =====
-- 312552017_np_project2/shell/cmdType.hpp and cmdType.cpp: the commands of a line, and the pipe
-- that each of them writes to.
use nycu_np.Prelude.{
  ℕ, ◌-◌, ◌%◌, Bool, false, if◌then◌else◌, List, [], ◌∷◌, ◌++◌, Bytes, codes, ℤ, pos, negsuc,
}
use nycu_np.Shell.Kernel.{Kernel, Pipe, Proc, fault, execvp, cerr, pure, ◌>>=◌, emit, ask}
use nycu_np.Shell.Pipes.{FileMode, write_mode, create, open_as, is_empty}
use nycu_np.Shell.Ring.{CircularBuffer, size_t_mod, get, set}

pub data CmdType : Type 0 where
  exe_type pipe_type file_type numbered_pipe_type user_pipe_type : CmdType

-- The classes derived from `ICommand`, with their fields.
pub data Command : Type 0 where
  exe_command : List Bytes → Command
  pipe_command : Command
  file_command : Bytes → Command
  numbered_pipe_command : ℤ → Bool → Command
  user_pipe_command : Command

unfoldable pub get_type : Command → CmdType
get_type (exe_command argv) = exe_type
get_type pipe_command = pipe_type
get_type (file_command name) = file_type
get_type (numbered_pipe_command n err) = numbered_pipe_type
get_type user_pipe_command = user_pipe_type

-- `pipeError`.
unfoldable pub pipe_error : Command → Bool
pipe_error (numbered_pipe_command n err) = err
pipe_error _ = false

-- An `int` that is passed as a `size_t`.
abbrev pub to_size_t : ℤ → ℕ
to_size_t (pos n) = n % size_t_mod
to_size_t (negsuc n) = (size_t_mod - 1) - n % size_t_mod

abbrev pub NumberedPipes : Type 0
NumberedPipes = CircularBuffer Pipe

-- The pipe that was written before is used again; an empty one is created and kept.
unfoldable pub numbered_pipe : Kernel → ℕ → NumberedPipes → Pipe → Proc (NumberedPipes × Pipe)
unfolding create set
numbered_pipe k n ring found =
    if is_empty found
    then (do made ← create k; pure (set ring n made, made))
    else pure (ring, found)

-- `createPipe` of each class, on the numbered pipes and the pipe at hand. An `ExeCommand` has no
-- such method.
unfoldable pub create_pipe : Kernel → Command → NumberedPipes → Pipe → Proc (NumberedPipes × Pipe)
unfolding numbered_pipe create open_as get is_empty
create_pipe k (exe_command argv) ring p = pure (ring, p)
create_pipe k pipe_command ring p = do made ← create k; pure (ring, made)
create_pipe k (file_command name) ring p = do
  opened ← open_as k name write_mode p
  pure (ring, opened)
create_pipe k (numbered_pipe_command n err) ring p =
    numbered_pipe k (to_size_t n) ring (get ring (to_size_t n))
create_pipe k user_pipe_command ring p = do made ← create k; pure (ring, made)

-- `ExeCommand::run`, in the child. `m_argv[0]` of an empty vector is out of bounds.
unfoldable pub run : Kernel → List Bytes → Proc (Unit {0})
run k [] = λ l. fault
run k (name ∷ args) = do
  failed ← ask (execvp (name ∷ args)) k.exec_fails
  if failed then emit (cerr (codes "Unknown command: [" ++ name ++ codes "].\n")) else pure tt

pub record NpCommandLine : Type 0 where
  pub file_name : Bytes
  pub file_mode : FileMode
  pub np_commands : List Command
  pub read_uid : ℤ
  pub write_uid : ℤ

-- The constructor; `clear` gives the same value. (`fileMode` is value-initialised to 0, which no
-- code reads.)
abbrev pub empty_line : NpCommandLine
empty_line = record {
  file_name = [];
  file_mode = write_mode;
  np_commands = [];
  read_uid = pos 0;
  write_uid = pos 0;
}

unfoldable pub add_command : Command → NpCommandLine → NpCommandLine
add_command c line = record line { np_commands = line.np_commands ++ c ∷ [] }

-- What `std::move` leaves: the vector and the string are empty, and the numbers stay.
unfoldable pub moved_from : NpCommandLine → NpCommandLine
moved_from line = record line { file_name = []; np_commands = [] }
