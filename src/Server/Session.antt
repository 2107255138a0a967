-- ===== src/Server/Session.antt =====
-- A client's line from the socket to the prompt: `runShellLoop` of chatServer.cpp, with
-- `runShell` and the built-in commands of shell/cmdHandler.cpp, and the event loop of
-- np_single_proc.cpp.
pub mod Welcome
pub mod Invariant
pub mod Reach
pub mod SameTable
pub mod Idle
pub mod Granted
use nycu_np.Prelude.{
  ℕ, Bool, true, false, if◌then◌else◌, List, [], ◌∷◌, ◌++◌, Option, none, some, Bytes, codes, ℤ,
  pos, negsuc,
}
use nycu_np.Server.Messages.{who, tell, yell, name}
use nycu_np.Server.State.{
  UserInfo, Server, find_user, get_serving_user_id, deref, put_user, welcome_msg, login_msg,
}
use nycu_np.Server.UserPipe.{read_user_pipe, write_user_pipe}
use nycu_np.Server.Users.{
  send_raw_message, broadcast_message, add_user, remove_user, restore_stdio, get_serving_user_env,
  set_serving_user_env,
}
use nycu_np.Shell.Command.{NpCommandLine}
use nycu_np.Shell.Kernel.{
  Kernel, Proc, Outcome, running, fault, cout, dup2, setenv, pure, ◌>>=◌, ◌>>◌, emit, bind_outcome,
}
use nycu_np.Shell.Parse.{Builtins, parse_command}
use nycu_np.Shell.Pipes.{close_pipe, stdin_fileno, stdout_fileno, stderr_fileno}
use nycu_np.Shell.Run.{Shell, UserPipes, run_lines, prompt}

-- The server and the shell of the client that is served.
pub record Session : Type 0 where
  pub server : Server
  pub shell : Shell

-- The word `exit`.
exit_shell : Session → Proc Session
exit_shell s = do
  eol ← close_pipe s.shell.eol
  prev ← close_pipe s.shell.prev_pipe
  curr ← close_pipe s.shell.curr_pipe
  pure (record s {
    shell = record s.shell { is_running = false; eol = eol; prev_pipe = prev; curr_pipe = curr };
  })

print_value : Bytes → Session → Proc Session
print_value [] s = pure s
print_value (c ∷ cs) s = do emit (cout ((c ∷ cs) ++ codes "\n")); pure s

set_variable : ℕ → Bytes → Bytes → Session → Proc Session
unfolding set_serving_user_env
set_variable id env var s = do
  emit (setenv env var)
  pure (record s { server = set_serving_user_env id env var s.server })

-- A method of the server that leaves it as it is.
unchanged : (Server → Proc (Unit {0})) → Session → Proc Session
unchanged act s = do act s.server; pure s

rename : ℕ → Bytes → Session → Proc Session
rename id new_name s = do sv ← name id new_name s.server; pure (record s { server = sv })

-- The parser acts on a session that goes on, and leaves one that does not as it is.
abbrev pub on : (Session → Proc Session) → Outcome Session → Outcome Session
on act m = bind_outcome m act

unfoldable pub builtins : ℕ → Builtins (Outcome Session)
unfolding exit_shell print_value set_variable unchanged rename get_serving_user_env
builtins id = record {
  exit = on exit_shell;
  printenv = λ env. on (λ s. print_value (get_serving_user_env id env s.server) s);
  setenv = λ env var. on (set_variable id env var);
  who = on (unchanged (who id));
  tell = λ uid message. on (unchanged (tell id uid message));
  yell = λ message. on (unchanged (yell id message));
  name = λ new_name. on (rename id new_name);
}

-- The user pipes of the client `id`.
unfoldable pub user_pipes : Kernel → ℕ → UserPipes Server
user_pipes k id = record {
  read_user_pipe = λ me uid curr text other sv. read_user_pipe k id uid text curr sv;
  write_user_pipe = λ me uid curr text other sv. write_user_pipe k id uid text curr sv;
}

run_parsed : Kernel → ℕ → ℕ → Bytes → List NpCommandLine → Session → Proc Session
run_parsed k fd id text lines s = do
  (sv, sh) ← run_lines k (user_pipes k id) (pos id) text lines s.server s.shell
  prompt (pos fd) sh
  pure (record { server = sv; shell = sh })

-- `none` is a parser out of fuel.
parsed : Kernel → ℕ → ℕ → Bytes → Option (List NpCommandLine × Outcome Session) → Outcome Session
unfolding run_parsed
parsed k fd id text none = fault
parsed k fd id text (some (lines, after)) = bind_outcome after (run_parsed k fd id text lines)

-- `CmdHandler::runShell` on the line that was read.
unfoldable pub run_shell : Kernel → ℤ → ℕ → ℕ → Bytes → Session → Proc Session
unfolding parsed
run_shell k uninit fd id text s l =
    parsed k fd id text (parse_command (builtins id) uninit text (running s l))

-- The shell is part of its user's record.
abbrev pub store_shell : ℕ → Session → UserInfo → Server
store_shell id s u = put_user id (record u { shell = s.shell }) s.server

-- `runShellLoop`: the Boolean is whether the client stays. A client whose record is gone is a null
-- pointer.
after_shell : ℕ → ℕ → Session → Proc (Server × Bool)
after_shell fd id s = do
  restore_stdio s.server
  u ← deref (find_user s.server id)
  let sv = store_shell id s u
  if s.shell.is_running
      then (do send_raw_message fd (codes "% "); pure (sv, true))
      else pure (sv, false)

unfoldable pub run_shell_loop : Kernel → ℤ → ℕ → Bytes → Server → Proc (Server × Bool)
unfolding after_shell get_serving_user_id get_serving_user_env
run_shell_loop k uninit fd text sv = do
  let id = get_serving_user_id sv fd
  emit (dup2 (pos fd) stdin_fileno)
  emit (dup2 (pos fd) stdout_fileno)
  emit (dup2 (pos fd) stderr_fileno)
  emit (setenv (codes "PATH") (get_serving_user_env id (codes "PATH") sv))
  u ← deref (find_user sv id)
  s ← run_shell k uninit fd id text (record { server = sv; shell = u.shell })
  after_shell fd id s

-- What `select` reports of one descriptor: a client that connects, with its address, or a line
-- from a client.
pub data Ready : Type 0 where
  connects : Bytes → ℕ → ℕ → Ready
  sends_line : ℕ → Bytes → Ready

-- The body of the loop over the descriptors; the set of watched sockets is that of the sockets in
-- the table.
unfoldable pub serve : Kernel → ℤ → Ready → Server → Proc Server
unfolding add_user broadcast_message remove_user run_shell_loop
serve k uninit (connects ip port sock) sv = do
  sv' ← add_user ip port sock (negsuc 0) sv
  send_raw_message sock welcome_msg
  u ← deref (find_user sv' (get_serving_user_id sv' sock))
  broadcast_message (login_msg u.name ip port) sv'
  send_raw_message sock (codes "% ")
  pure sv'
serve k uninit (sends_line fd text) sv = do
  (sv', stays) ← run_shell_loop k uninit fd text sv
  if stays then pure sv' else remove_user fd sv'
