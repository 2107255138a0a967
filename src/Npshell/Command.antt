-- ===== src/Npshell/Command.antt =====
-- 312552017_np_project1/shell/cmdType.hpp and cmdType.cpp: the commands of project 1's shell. The
-- pipes and the circular buffer are those of project 2, whose methods have the same text.
use nycu_np.Prelude.{ℕ, Bool, false, if◌then◌else◌, List, [], ◌∷◌, ◌++◌, Bytes, codes, ℤ, pos}
use nycu_np.Shell.Command.{NumberedPipes, to_size_t}
use nycu_np.Shell.Kernel.{Kernel, Pipe, Proc, fault, execvp, cerr, pure, ◌>>=◌, emit, ask}
use nycu_np.Shell.Pipes.{FileMode, write_mode, create, open_as, is_empty}
use nycu_np.Shell.Ring.{get, set}

pub data CmdType : Type 0 where
  exe_type pipe_type file_type numbered_pipe_type : CmdType

-- The classes derived from `ICommand`, with their fields.
pub data Command : Type 0 where
  exe_command : List Bytes → Command
  pipe_command : Command
  file_command : Bytes → Command
  numbered_pipe_command : ℤ → Bool → Command

unfoldable pub get_type : Command → CmdType
get_type (exe_command argv) = exe_type
get_type pipe_command = pipe_type
get_type (file_command name) = file_type
get_type (numbered_pipe_command number include_error) = numbered_pipe_type

unfoldable pub pipe_error : Command → Bool
pipe_error (numbered_pipe_command number include_error) = include_error
pipe_error _ = false

-- `NumberedPipeCommand::createPipe` where `found` is the pipe at its number.
unfoldable pub numbered_pipe : Kernel → ℕ → NumberedPipes → Pipe → Proc (NumberedPipes × Pipe)
unfolding create set is_empty
numbered_pipe k number ring found =
    if is_empty found
    then (do made ← create k; pure (set ring number made, made))
    else pure (ring, found)

-- `createPipe` of each class, on the numbered pipes and the pipe at hand. An `ExeCommand` has no
-- such method.
unfoldable pub create_pipe : Kernel → Command → NumberedPipes → Pipe → Proc (NumberedPipes × Pipe)
unfolding numbered_pipe create open_as get
create_pipe k (exe_command argv) ring p = pure (ring, p)
create_pipe k pipe_command ring p = do made ← create k; pure (ring, made)
create_pipe k (file_command name) ring p = do
  opened ← open_as k name write_mode p
  pure (ring, opened)
create_pipe k (numbered_pipe_command number include_error) ring p =
    numbered_pipe k (to_size_t number) ring (get ring (to_size_t number))

-- `ExeCommand::run`, in the child. `m_argv[0]` of an empty vector is out of bounds.
unfoldable pub run : Kernel → List Bytes → Proc (Unit {0})
run k [] = λ l. fault
run k (name ∷ args) = do
  failed ← ask (execvp (name ∷ args)) k.exec_fails
  if failed then emit (cerr (codes "Unknown command: [" ++ name ++ codes "].\n")) else pure tt

pub record NpCommandLine : Type 0 where
  pub n : ℤ
  pub file_name : Bytes
  pub file_mode : FileMode
  pub np_commands : List Command

-- The constructor. (`fileMode` is value-initialised to 0, which no code reads.)
abbrev pub empty_line : NpCommandLine
empty_line = record { n = pos 0; file_name = []; file_mode = write_mode; np_commands = [] }

unfoldable pub add_command : Command → NpCommandLine → NpCommandLine
add_command c line = record line { np_commands = line.np_commands ++ c ∷ [] }

-- What `std::move` leaves: the vector and the string are empty, and the number stays.
unfoldable pub moved_from : NpCommandLine → NpCommandLine
moved_from line = record line { file_name = []; np_commands = [] }
