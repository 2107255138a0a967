-- ===== src/Examples/Npshell.antt =====
-- What is proved of the shell of project 1, at concrete lines.
use mathlib.Core.Option
use nycu_np.Npshell.Command.{
  exe_command, pipe_command, numbered_pipe_command, NpCommandLine, empty_line,
}
use nycu_np.Npshell.Parse as First
use nycu_np.Npshell.Parse.Agree.{Effect, first_does, second_does, parse_command-promote}
use nycu_np.Npshell.Parse.View.{here, there, IsShared, Reads-failed, is_shared, promote_result}
use nycu_np.Npshell.Promote.{promote_line}
use nycu_np.Npshell.Run as Alone
use nycu_np.Npshell.Run.Agree.{beside, run_lines-promote}
use nycu_np.Prelude.{
  false, true, List, [], ◌∷◌, map, Option, none, some, Bytes, equal, codes, pos, ◌≡◌, refl, ap,
  subst, ℕ,
}
use nycu_np.Shell.Kernel.{Kernel, pure, running}
use nycu_np.Npshell.Session as FirstSession
use nycu_np.Examples.Select.{empty}
use nycu_np.Server.Session.{Session, builtins}
use nycu_np.Shell.Parse as Second
use nycu_np.Shell.Run as Served
use nycu_np.Shell.Run.{Shell, UserPipes, new_shell}
use nycu_np.Shell.Stream.{read_word, or_empty}

abbrev kernel : Kernel
kernel = record {
  pipe_fds = λ l. some (20, 21);
  open_fd = λ l. pos 22;
  dup_fd = λ l. pos 23;
  fork_pid = λ l. pos 24;
  file_exists = λ l. false;
  makes_fifo = λ l. true;
  exec_fails = λ l. false;
}

abbrev text : Bytes
text = codes "printenv HOME"

abbrev session : Session
session = record { server = empty; shell = new_shell }

text-IsShared : IsShared (record { rest = text; failed = false })
unfolding read_word equal
text-IsShared w (here read) = subst (λ v. is_shared v ≡ true) (ap or_empty read) refl
text-IsShared w (there (here read)) = subst (λ v. is_shared v ≡ true) (ap or_empty read) refl
text-IsShared w (there (there (here read))) = absurd cc
text-IsShared w (there (there (there later))) = absurd (Reads-failed later refl)

-- Each parser with the built-in commands of its own program.
parse_command-promote_example :
    (parsed : Option (List NpCommandLine × List Effect)) × (Option.map
        (promote_result (λ t. t))
        (First.parse_command (FirstSession.builtins (λ l var. none)) text (running new_shell []))
      ≡ Option.map
          (promote_result
            (first_does (FirstSession.builtins (λ l var. none)) (running new_shell [])))
          parsed)
    × (Second.parse_command (builtins 1) (pos 0) text (running session [])
        ≡ Option.map (promote_result (second_does (builtins 1) (running session []))) parsed)
parse_command-promote_example =
    parse_command-promote (FirstSession.builtins (λ l var. none)) (builtins 1) (pos 0) text
      (running new_shell []) (running session []) text-IsShared

-- A server that is never asked.
abbrev nobody : UserPipes ℕ
nobody = record {
  read_user_pipe = λ id uid p line other h. pure (h, p);
  write_user_pipe = λ id uid p line other h. pure (h, p);
}

abbrev lines : List NpCommandLine
lines =
    record empty_line {
      np_commands = exe_command (codes "ls" ∷ []) ∷ numbered_pipe_command (pos 2) false ∷ [];
    }
    ∷ record empty_line {
      np_commands =
          exe_command (codes "cat" ∷ []) ∷ pipe_command ∷ exe_command (codes "wc" ∷ []) ∷ [];
    }
    ∷ []

run_lines-promote_example :
    Served.run_lines kernel nobody (pos 1) text (map promote_line lines) 7 new_shell []
    ≡ beside 7 (Alone.run_lines kernel lines new_shell [])
run_lines-promote_example = run_lines-promote kernel nobody (pos 1) text lines 7 new_shell []
