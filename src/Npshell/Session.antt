-- ===== src/Npshell/Session.antt =====
-- The shell of project 1 on its input: the built-in commands and `runShell` of
-- 312552017_np_project1/shell/cmdHandler.cpp, and the loop of npshell.cpp. The handler of `SIGINT`,
-- which ends the loop, is not modelled.
pub mod EndOfInput
use nycu_np.Npshell.Command.{NpCommandLine}
use nycu_np.Npshell.Parse.{Builtins, parse_command}
use nycu_np.Npshell.Run.{run_lines}
use nycu_np.Prelude.{
  ℕ, zero, suc, Bool, true, false, if◌then◌else◌, List, ◌++◌, Option, none, some, Bytes, codes, ℤ,
  pos, ◌&&◌,
}
use nycu_np.Shell.Kernel.{
  Kernel, Log, Proc, Outcome, running, fault, cout, dup2, setenv, pure, ◌>>=◌, ◌>>◌, emit,
  bind_outcome,
}
use nycu_np.Shell.Pipes.{close_pipe, stdin_fileno}
use nycu_np.Shell.Run.{Shell, new_shell, is_zero}
use nycu_np.Shell.Stream.{Stream, get_line}

-- What the process's environment answers; it may depend on every call made before.
abbrev pub Getenv : Type 0
Getenv = Log → Bytes → Option Bytes

-- The word `exit`.
exit_shell : Shell → Proc Shell
exit_shell sh = do
  eol ← close_pipe sh.eol
  prev ← close_pipe sh.prev_pipe
  curr ← close_pipe sh.curr_pipe
  pure (record sh { is_running = false; eol = eol; prev_pipe = prev; curr_pipe = curr })

print_value : Option Bytes → Shell → Proc Shell
print_value none sh = pure sh
print_value (some value) sh = do emit (cout (value ++ codes "\n")); pure sh

-- The parser acts on a shell that goes on, and leaves one that does not as it is.
abbrev on : (Shell → Proc Shell) → Outcome Shell → Outcome Shell
on act m = bind_outcome m act

unfoldable pub builtins : Getenv → Builtins (Outcome Shell)
unfolding exit_shell print_value
builtins getenv = record {
  exit = on exit_shell;
  printenv = λ var. on (λ sh l. print_value (getenv l var) sh l);
  setenv = λ var value. on (λ sh. do emit (setenv var value); pure sh);
}

-- A file descriptor other than 0 takes the place of the input, and no line is read.
unfoldable pub read_line : ℤ → Stream → Proc (Stream × Bytes)
unfolding get_line
read_line fd cin =
    if is_zero fd
    then pure (get_line cin)
    else (do emit (dup2 fd stdin_fileno); pure (cin, codes ""))

unfoldable pub prompt : ℤ → Shell → Proc (Unit {0})
prompt fd sh = if sh.is_running && is_zero fd then emit (cout (codes "% ")) else pure tt

-- `none` is a parser out of fuel.
unfoldable pub run_parsed : Kernel → ℤ → Option (List NpCommandLine × Outcome Shell) → Outcome Shell
unfolding prompt
run_parsed k fd none = fault
run_parsed k fd (some (lines, after)) =
    bind_outcome after λ sh. do sh' ← run_lines k lines sh; prompt fd sh'; pure sh'

unfoldable pub run_shell : Kernel → Getenv → ℤ → Shell × Stream → Proc (Shell × Stream)
unfolding run_parsed read_line builtins
run_shell k getenv fd (sh, cin) = do
  (cin', line) ← read_line fd cin
  sh' ← λ l. run_parsed k fd (parse_command (builtins getenv) line (running sh l))
  pure (sh', cin')

-- At most so many rounds of `while (running)`.
unfoldable pub rounds : ℕ → Kernel → Getenv → Shell × Stream → Proc (Shell × Stream)
rounds zero k getenv s = pure s
rounds (suc n) k getenv (sh, cin) =
    if sh.is_running
    then (do s' ← run_shell k getenv (pos 0) (sh, cin); rounds n k getenv s')
    else pure (sh, cin)

-- `main`, for so many rounds at most.
unfoldable pub main : ℕ → Kernel → Getenv → Stream → Proc (Shell × Stream)
main n k getenv cin = do
  emit (setenv (codes "PATH") (codes "bin:."))
  emit (cout (codes "% "))
  rounds n k getenv (new_shell, cin)
