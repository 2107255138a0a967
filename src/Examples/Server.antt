-- ===== src/Examples/Server.antt =====
-- Two users, and what is proved of the server at them.
use nycu_np.Server.Session.{user_pipes}
use nycu_np.Server.Session.Granted.{user_pipes-IsGranted, user_pipes-IsForkFree}
use nycu_np.Server.UserPipe.Granted.{HasUser}
use nycu_np.Shell.Command.{
  Command, exe_command, pipe_command, user_pipe_command, NpCommandLine, empty_line,
}
use nycu_np.Shell.Run.{Shell, new_shell, run_commands}
use nycu_np.Shell.Run.Runs.{run_commands-Wired}
use nycu_np.Shell.Run.Wiring.{Wired}
use nycu_np.Prelude.{
  List, ◌<◌, true, false, [], ◌∷◌, ◌++◌, some, Bytes, c_text, codes, pos, negsuc, ◌≡◌, refl, arith,
  ◌⊎◌, ◌≤◌, length, if◌then◌else◌, ◌==◌,
}
use nycu_np.Server.Session.Welcome.{welcomed, serve-Added}
use nycu_np.Server.Session.{connects, serve}
use nycu_np.Server.State.{UserInfo, Server, logout_msg, name_msg, put_user, max_user_name_len}
use nycu_np.Server.Users.Ids.{
  announced, IsConsistent, Added, add_user-Added, place_user-IsConsistent,
}
use nycu_np.Server.Users.Leave.{sends, SendsTo, Removed, remove_user-Removed}
use nycu_np.Server.Users.{connected_user, place_user, erase_user, add_user, remove_user}
use nycu_np.Server.Messages.{name, name_exists, name_taken_msg}
use nycu_np.Server.Messages.Delivery.{name_lem}
use nycu_np.Server.Messages.Names.{HasUniqueNames, place_user-HasUniqueNames, name-HasUniqueNames}
use nycu_np.Server.UserPipe.{write_user_pipe, read_user_pipe, pipe_missing_msg, reading}
use nycu_np.Server.UserPipe.Exchange.{refused, with_pipe, made_pipe}
use nycu_np.Server.UserPipe.RoundTrip.{sv₁, sv₂, write_read_user_pipe}
use nycu_np.Shell.Kernel.{Kernel, Log, Outcome, running, cout, dup}
use nycu_np.Shell.Pipes.{no_pipe, set_fds, minus_one, is_empty}
use nycu_np.Shell.Pipes.Close.{closes}
use nycu_np.Shell.Run.Post.{Post}

abbrev address : Bytes
address = codes "10.0.0.1"

abbrev empty : Server
empty = record {
  users = [];
  env_table = λ id var. [];
  sock_id_table = [];
  server_in = pos 3;
  server_out = pos 4;
  server_err = pos 5;
  last_uid = 0;
}

abbrev alice : UserInfo
alice = connected_user address 5000 7 (negsuc 0)

abbrev bob : UserInfo
bob = connected_user address 5001 8 (negsuc 0)

abbrev with_alice : Server
with_alice = place_user 1 alice empty

abbrev with_both : Server
with_both = place_user 2 bob with_alice

empty-IsConsistent : IsConsistent empty
empty-IsConsistent = record {
  ids_ascend = tt;
  socks_ascend = tt;
  sock_leads = λ id u e. cc;
  user_there = λ s id e. cc;
}

with_alice-IsConsistent : IsConsistent with_alice
with_alice-IsConsistent =
    place_user-IsConsistent 1 alice empty empty-IsConsistent
      (record {
        at_least = omega arith;
        is_free = refl;
        taken_below = λ j a b. absurd (omega arith);
      })
      refl

empty-HasUniqueNames : HasUniqueNames empty
empty-HasUniqueNames = record { unique = λ i j u w e f same. cc; all_connected = λ i u e. cc }

with_both-HasUniqueNames : HasUniqueNames with_both
with_both-HasUniqueNames =
    place_user-HasUniqueNames 2 address 5001 8 (negsuc 0) with_alice
      (place_user-HasUniqueNames 1 address 5000 7 (negsuc 0) empty empty-HasUniqueNames)

add_user-Added_example :
    (sv' : Server) × (add_user address 5001 8 (negsuc 0) with_alice []
      ≡ running sv' (announced address 5001 sv'.last_uid []))
    × Added with_alice 8 sv'
add_user-Added_example =
    add_user-Added address 5001 8 (negsuc 0) with_alice [] with_alice-IsConsistent refl

with_both-IsConsistent : IsConsistent with_both
with_both-IsConsistent =
    place_user-IsConsistent 2 bob with_alice with_alice-IsConsistent
      (record { at_least = omega arith; is_free = refl; taken_below = λ j a b. ground arith }) refl

remove_user-Removed_example :
    Removed with_both 1 7 (erase_user 1 7 with_both)
    × SendsTo
        ((2, bob) ∷ [])
        (logout_msg alice.name)
        []
        (erase_user 1 7 with_both)
        (remove_user 7 with_both [])
remove_user-Removed_example =
    remove_user-Removed 7 1 alice with_both [] with_both-IsConsistent refl refl

name-HasUniqueNames_example :
    Post (λ sv' l'. HasUniqueNames sv') (name 1 (codes "alice") with_both [])
unfolding c_text
name-HasUniqueNames_example =
    name-HasUniqueNames 1 (codes "alice") with_both [] with_both-HasUniqueNames refl

name_lem_example :
    let renamed = put_user 1 (record alice { name = codes "alice" }) with_both in
    ((name_exists (codes "alice") with_both.users ≡ true)
      × (name 1 (codes "alice") with_both []
          ≡ running with_both (cout (name_taken_msg (codes "alice")) ∷ [])))
    ⊎ ((name_exists (codes "alice") with_both.users ≡ false)
        × (length (codes "alice") < max_user_name_len)
        × SendsTo renamed.users
            (name_msg alice.ip alice.port (codes "alice"))
            []
            renamed
            (name 1 (codes "alice") with_both []))
    ⊎ ((name_exists (codes "alice") with_both.users ≡ false)
        × (max_user_name_len ≤ length (codes "alice"))
        × (name 1 (codes "alice") with_both [] ≡ Outcome.fault))
unfolding c_text
name_lem_example = name_lem 1 alice (codes "alice") with_both [] refl

-- Every pipe gets the descriptors 20 and 21.
abbrev kernel : Kernel
kernel = record {
  pipe_fds = λ l. some (20, 21);
  open_fd = λ l. pos 22;
  dup_fd = λ l. pos 23;
  fork_pid = λ l. pos 24;
  file_exists = λ l. false;
  makes_fifo = λ l. true;
  exec_fails = λ l. false;
}

abbrev command : Bytes
command = codes "ls >2"

abbrev with_pipe_taken : Server
with_pipe_taken = with_pipe 1 2 (made_pipe 20 21) bob with_both

abbrev bob_with_pipe : UserInfo
bob_with_pipe = record bob { user_pipes = λ i. if i == 1 then made_pipe 20 21 else no_pipe }

write_read_user_pipe_example :
    let before = sv₁ kernel 1 2 alice bob with_both [] 20 21 in
    let after = sv₂ kernel 1 2 alice bob with_both [] 20 21 in
    (l₁ : Log) × (l₂ : Log) × (write_user_pipe kernel 1 (pos 2) command no_pipe with_both []
      ≡ running (before, set_fds minus_one (pos 23) no_pipe) (dup (pos 21) ∷ l₁))
    × (read_user_pipe kernel 2 (pos 1) command no_pipe before (dup (pos 21) ∷ l₁)
        ≡ running
            (after, set_fds (pos 23) minus_one no_pipe)
            (closes (made_pipe 20 21) ++ (dup (pos 20) ∷ l₂)))
    × (read_user_pipe kernel 2 (pos 1) command no_pipe after []
        ≡ running
            (after, set_fds (pos 22) minus_one no_pipe)
            (refused (pipe_missing_msg (pos 1) 2) reading []))
unfolding is_empty
write_read_user_pipe_example =
    write_read_user_pipe kernel 1 2 alice bob with_both [] 20 21 command command command no_pipe
      no_pipe no_pipe [] refl refl (omega arith) (omega arith) refl refl

serve-Added_example :
    (sv' : Server) × (l' : Log) × (serve kernel (pos 0) (connects address 5001 8) with_alice []
      ≡ running sv' l')
    × Added with_alice 8 sv'
    × (sends l' ≡ welcomed 8 address 5001 sv' [])
serve-Added_example =
    serve-Added kernel (pos 0) address 5001 8 with_alice [] with_alice-IsConsistent refl

abbrev log_of : {A : Type 0} → Outcome A → Log
log_of (running a l) = l
log_of _ = []

-- The server after the first connection.

-- `ls | cat >2` of the first user, with the pipe to the second one.
abbrev to_bob : NpCommandLine
to_bob = record empty_line { write_uid = pos 2 }

abbrev piped : List Command
piped =
    exe_command (codes "ls" ∷ [])
    ∷ pipe_command
    ∷ exe_command (codes "cat" ∷ [])
    ∷ user_pipe_command
    ∷ []

run_commands-Wired_example :
    (r : Server × Shell) × (l' : Log) × (run_commands kernel
        (user_pipes kernel 1)
        (pos 1)
        (codes "ls | cat >2")
        to_bob
        piped
        with_both
        new_shell
        []
      ≡ running r l')
    × Wired kernel
        (user_pipes kernel 1)
        (pos 1)
        (codes "ls | cat >2")
        to_bob
        (user_pipes-IsForkFree kernel 1)
        piped
        new_shell
        []
        r
        l'
    × HasUser 1 r.0
run_commands-Wired_example =
    run_commands-Wired kernel (user_pipes kernel 1) (HasUser 1) (pos 1) (codes "ls | cat >2") to_bob
      (user_pipes-IsGranted kernel 1 (λ l. (20, 21, refl)) (omega arith) (pos 1) (pos 2))
      (user_pipes-IsForkFree kernel 1) piped with_both new_shell [] (tt, (tt, tt)) (alice, refl)
