-- ===== src/Npshell/Run.antt =====
-- `CmdHandler::runShell` of 312552017_np_project1/shell/cmdHandler.cpp. The members of the class,
-- the static list of numbered pipes and the global `running` are those of project 2's shell.
pub mod Agree
use nycu_np.Npshell.Command.{
  Command, exe_command, pipe_command, file_command, numbered_pipe_command, NpCommandLine, CmdType,
  get_type, pipe_error, create_pipe, run,
}
use nycu_np.Prelude.{ℕ, Bool, true, false, if◌then◌else◌, List, [], ◌∷◌, Bytes, codes, pos}
use nycu_np.Shell.Kernel.{
  Kernel, Child, Proc, exited, fork, waitpid, cout, cerr, pure, ◌>>=◌, ◌>>◌, emit, ask,
}
use nycu_np.Shell.Pipes.{create, close_pipe, read_from, write_to, read_eof}
use nycu_np.Shell.Ring.{next, front}
use nycu_np.Shell.Run.{Shell, is_zero}

-- The child, from `pid == 0` to its exit.
unfoldable pub child : Kernel → Child → Proc (Unit {0})
child k c = do
  in_end ← read_from c.prev_pipe
  out_end ← write_to c.pipe_err c.curr_pipe
  run k c.argv
  λ l. exited l

-- `fork`, and the two processes of the pipeline that are still to be waited for.
pub fork_program : Kernel → List Bytes → Shell × Bool → Proc Shell
fork_program k argv (sh, pipe_err) = do
  pid ←
      ask
        (fork (record {
          prev_pipe = sh.prev_pipe;
          curr_pipe = sh.curr_pipe;
          pipe_err = pipe_err;
          argv = argv;
        }))
        k.fork_pid
  if is_zero sh.older_pid then pure tt else emit (waitpid sh.older_pid)
  pure (record sh { older_pid = sh.newer_pid; newer_pid = pid })

-- `npCommands.back()`.
abbrev pub ends_numbered : List Command → Bool
ends_numbered [] = false
ends_numbered (numbered_pipe_command n err ∷ []) = true
ends_numbered (c ∷ rest) = ends_numbered rest

-- `dynamic_cast<PipeCommand&>` of the next command, the pipe that it asks for, and whether
-- standard error goes there too. The cast of an `ExeCommand` throws, and nothing catches it.
pub open_next : Kernel → List Command → Shell → Proc (Shell × Bool)
unfolding create_pipe
open_next k [] sh = pure (sh, false)
open_next k (exe_command argv ∷ rest) sh = λ l. exited (cerr (codes "std::bad_cast") ∷ l)
open_next k (next_command ∷ rest) sh = do
  (ring, p) ← create_pipe k next_command sh.number_pipe_list sh.curr_pipe
  pure (record sh { number_pipe_list = ring; curr_pipe = p }, pipe_error next_command)

-- The body of the loop over the commands, for an `ExeCommand`.
pub start_program : Kernel → List Bytes → List Command → Shell → Proc Shell
unfolding fork_program open_next
start_program k argv rest sh = do
  closed ← close_pipe sh.prev_pipe
  opened ← open_next k rest (record sh { prev_pipe = sh.curr_pipe })
  fork_program k argv opened

pub run_commands : Kernel → List Command → Shell → Proc Shell
unfolding start_program
run_commands k [] sh = pure sh
run_commands k (exe_command argv ∷ rest) sh = do
  sh' ← start_program k argv rest sh
  run_commands k rest sh'
run_commands k (c ∷ rest) sh = run_commands k rest sh

pub end_line : NpCommandLine → Shell → Proc Shell
end_line line sh = if ends_numbered line.np_commands then (do read_eof sh.eol; pure sh) else (do
  emit (waitpid sh.newer_pid)
  closed ← close_pipe sh.curr_pipe
  pure (record sh { curr_pipe = closed }))

-- One round of the loop over the lines.
pub run_line : Kernel → NpCommandLine → Shell → Proc Shell
unfolding run_commands end_line
run_line k line sh = do
  eol ← create k
  let ring = next sh.number_pipe_list
  sh₁ ←
      run_commands k line.np_commands
        (record sh { eol = eol; number_pipe_list = ring; curr_pipe = front ring })
  closed ← close_pipe sh₁.prev_pipe
  end_line line (record sh₁ { prev_pipe = closed })

-- The loop over the queue.
unfoldable pub run_lines : Kernel → List NpCommandLine → Shell → Proc Shell
unfolding run_line
run_lines k [] sh = pure sh
run_lines k (line ∷ lines) sh = do sh' ← run_line k line sh; run_lines k lines sh'
