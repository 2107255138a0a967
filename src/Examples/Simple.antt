-- ===== src/Examples/Simple.antt =====
-- One client of np_simple.cpp.
use nycu_np.Examples.Select.{empty, kernel, client}
use nycu_np.Prelude.{Bool, true, [], Option, none, some, false, codes, pos, ◌≡◌, refl}
use nycu_np.Server.Session.Idle.{IsWaiting}
use nycu_np.Server.Session.{run_shell, builtins, run_shell_loop}
use nycu_np.Server.Simple.Alone.{IsAlone, session-IsAlone}
use nycu_np.Server.Simple.EndOfInput.{turns-Stays}
use nycu_np.Server.Simple.{Listener, turns, session}
use nycu_np.Server.State.{Server}
use nycu_np.Server.Users.{
  place_user, connected_user, delete_shm_user_fifo, add_user, remove_user, broadcast_message,
}
use nycu_np.Shell.Kernel.{Outcome, running}
use nycu_np.Shell.Parse.{parse_command}
use nycu_np.Shell.Pipes.{close_pipe}
use nycu_np.Shell.Run.Post.{Post, Runs}
use nycu_np.Shell.Run.{run_lines, prompt}
use nycu_np.Shell.Stream.{read_word}

abbrev net : Listener
net = record {
  server_sock = 3;
  accepted = λ l. some (client 7);
  fork_pid = λ l. pos 0;
  getpid = λ l. pos 100;
  line = λ l. codes "exit";
  is_on = λ l. true;
  is_killed = λ l. false;
}

session-IsAlone_example :
    Post (λ r l'. IsAlone 7 r) (session kernel (pos 0) net 2 (client 7) empty [])
session-IsAlone_example = session-IsAlone kernel (pos 0) net 2 (client 7) empty [] (refl, refl)

-- The client leaves at its first line.
is_inside : Outcome (Server × Bool) → Option Bool
is_inside (running r l) = some (r.1)
is_inside m = none

exit_leaves : is_inside (session kernel (pos 0) net 2 (client 7) empty []) ≡ some false
unfolding is_inside session run_shell builtins parse_command read_word run_lines prompt close_pipe
    delete_shm_user_fifo add_user run_shell_loop remove_user broadcast_message
exit_leaves = refl

abbrev silent : Listener
silent = record net { line = λ l. [] }

abbrev one_user : Server
one_user = place_user 1 (connected_user (codes "10.0.0.1") 5007 7 (pos 100)) empty

turns-Stays_example :
    Runs (λ r l'. (r.1 ≡ true) × IsWaiting 7 r.0) (turns kernel (pos 0) silent 4 7 one_user [])
turns-Stays_example =
    turns-Stays kernel (pos 0) silent (λ l. refl) (λ l. refl) (λ l. refl) 4 7 one_user []
      (1, connected_user (codes "10.0.0.1") 5007 7 (pos 100), refl, refl, refl)
