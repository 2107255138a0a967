-- ===== src/Shell/Run.antt =====
-- `CmdHandler::runShell` of 312552017_np_project2/shell/cmdHandler.cpp: the lines that the parser
-- emits, run one after the other.
pub mod Post
pub mod Wiring
pub mod Single
pub mod Runs
pub mod Host
use nycu_np.Prelude.{
  ℕ, Bool, true, false, if◌then◌else◌, List, [], ◌∷◌, Option, none, some, Bytes, codes, ℤ, pos,
  is_positive, ◌==◌, ◌&&◌,
}
use nycu_np.Shell.Command.{
  Command, exe_command, pipe_command, file_command, numbered_pipe_command, user_pipe_command,
  NumberedPipes, NpCommandLine, CmdType, numbered_pipe_type, get_type, pipe_error, create_pipe, run,
}
use nycu_np.Shell.Kernel.{
  Kernel, Log, Pipe, Child, Proc, Outcome, running, exited, Event, fork, waitpid, cout, cerr, pure,
  ◌>>=◌, ◌>>◌, emit, ask, bind_outcome,
}
use nycu_np.Shell.Pipes.{create, close_pipe, read_from, write_to, read_eof, no_pipe}
use nycu_np.Shell.Ring.{next, front, empty_buffer}

-- The members of `CmdHandler`. `status` only receives what `waitpid` reports, and nothing reads it.
pub record Shell : Type 0 where
  pub number_pipe_list : NumberedPipes
  pub curr_pipe : Pipe
  pub prev_pipe : Pipe
  pub eol : Pipe
  pub older_pid : ℤ
  pub newer_pid : ℤ
  pub is_running : Bool

-- The constructor.
abbrev pub new_shell : Shell
new_shell = record {
  number_pipe_list = empty_buffer no_pipe;
  curr_pipe = no_pipe;
  prev_pipe = no_pipe;
  eol = no_pipe;
  older_pid = pos 0;
  newer_pid = pos 0;
  is_running = true;
}

-- What the shell asks of the server, of state `H`: the user pipes, for the client `id`. The
-- arguments are those of the methods: the user at the other end, the pipe at hand, the whole line,
-- and the user at the end that is not asked for.
pub record UserPipes (H : Type 0) : Type 0 where
  pub read_user_pipe : ℤ → ℤ → Pipe → Bytes → ℤ → H → Proc (H × Pipe)
  pub write_user_pipe : ℤ → ℤ → Pipe → Bytes → ℤ → H → Proc (H × Pipe)

abbrev pub is_zero : ℤ → Bool
is_zero (pos n) = n == 0
is_zero _ = false

-- The child, from `pid == 0` to its exit.
unfoldable pub child : Kernel → Child → Proc (Unit {0})
child k c = do
  in_end ← read_from c.prev_pipe
  out_end ← write_to c.pipe_err c.curr_pipe
  run k c.argv
  λ l. exited l

-- `if (pid) waitpid(pid, nullptr, 0)`.
unfoldable pub wait_for : ℤ → Proc (Unit {0})
wait_for pid = if is_zero pid then pure tt else emit (waitpid pid)

-- `fork`, and the two processes of the pipeline that are still to be waited for.
unfoldable pub fork_program :
    {H : Type 0} → Kernel → List Bytes → H × Shell × Bool → Proc (H × Shell)
unfolding wait_for
fork_program k argv (h, sh, pipe_err) = do
  pid ←
      ask
        (fork (record {
          prev_pipe = sh.prev_pipe;
          curr_pipe = sh.curr_pipe;
          pipe_err = pipe_err;
          argv = argv;
        }))
        k.fork_pid
  wait_for sh.older_pid
  pure (h, record sh { older_pid = sh.newer_pid; newer_pid = pid })

-- `npCommands.back()`.
abbrev pub ends_numbered : List Command → Bool
ends_numbered [] = false
ends_numbered (numbered_pipe_command n err ∷ []) = true
ends_numbered (c ∷ rest) = ends_numbered rest

module _ {H : Type 0} (k : Kernel) (users : UserPipes H) (id : ℤ) (text : Bytes)
    (line : NpCommandLine) where
  -- `dynamic_cast<PipeCommand&>` of the next command, the pipe that it asks for, and whether
  -- standard error goes there too. The cast of an `ExeCommand` throws, and nothing catches it.
  unfoldable pub open_next : List Command → H → Shell → Proc (H × Shell × Bool)
  open_next [] h sh = pure (h, sh, false)
  open_next (exe_command argv ∷ rest) h sh = λ l. exited (cerr (codes "std::bad_cast") ∷ l)
  open_next (user_pipe_command ∷ rest) h sh =
      if is_positive line.write_uid
      then (do
        (h', p) ← users.write_user_pipe id line.write_uid sh.curr_pipe text line.read_uid h
        pure (h', record sh { curr_pipe = p }, false))
      else pure (h, sh, false)
  open_next (next_command ∷ rest) h sh = do
    (ring, p) ← create_pipe k next_command sh.number_pipe_list sh.curr_pipe
    pure (h, record sh { number_pipe_list = ring; curr_pipe = p }, pipe_error next_command)

  -- The body of the loop over the commands, for an `ExeCommand`.
  unfoldable pub start_program : List Bytes → List Command → H → Shell → Proc (H × Shell)
  unfolding fork_program open_next
  start_program argv rest h sh = do
    closed ← close_pipe sh.prev_pipe
    opened ← open_next rest h (record sh { prev_pipe = sh.curr_pipe })
    fork_program k argv opened

  unfoldable pub run_commands : List Command → H → Shell → Proc (H × Shell)
  run_commands [] h sh = pure (h, sh)
  run_commands (exe_command argv ∷ rest) h sh = do
    (h', sh') ← start_program argv rest h sh
    run_commands rest h' sh'
  run_commands (c ∷ rest) h sh = run_commands rest h sh

  unfoldable pub end_line : Shell → Proc Shell
  end_line sh = if ends_numbered line.np_commands then (do read_eof sh.eol; pure sh) else (do
    emit (waitpid sh.newer_pid)
    closed ← close_pipe sh.curr_pipe
    pure (record sh { curr_pipe = closed }))

  unfoldable pub read_users : H → Shell → Proc (H × Shell)
  read_users h sh =
      if is_positive line.read_uid
      then (do
        (h', p) ← users.read_user_pipe id line.read_uid sh.curr_pipe text line.write_uid h
        pure (h', record sh { curr_pipe = p }))
      else pure (h, sh)

  -- One round of the loop over the lines.
  unfoldable pub run_line : H → Shell → Proc (H × Shell)
  unfolding read_users run_commands end_line
  run_line h sh = do
    eol ← create k
    let ring = next sh.number_pipe_list
    (h₁, sh₁) ←
        read_users h (record sh { eol = eol; number_pipe_list = ring; curr_pipe = front ring })
    (h₂, sh₂) ← run_commands line.np_commands h₁ sh₁
    closed ← close_pipe sh₂.prev_pipe
    sh₃ ← end_line (record sh₂ { prev_pipe = closed })
    pure (h₂, sh₃)

-- The loop over the queue, and the prompt behind it.
unfoldable pub run_lines :
    {H : Type 0}
    → Kernel
    → UserPipes H
    → ℤ
    → Bytes
    → List NpCommandLine
    → H
    → Shell
    → Proc (H × Shell)
unfolding run_line
run_lines k users id text [] h sh = pure (h, sh)
run_lines k users id text (line ∷ lines) h sh = do
  (h', sh') ← run_line k users id text line h sh
  run_lines k users id text lines h' sh'

unfoldable pub prompt : ℤ → Shell → Proc (Unit {0})
prompt fd sh = if sh.is_running && is_zero fd then emit (cout (codes "% ")) else pure tt
