-- ===== src/Examples/Select.antt =====
-- The loop of the single-process server, with two clients who connect and say who is there.
use nycu_np.Prelude.{
  ℕ, ◌+◌, Bool, true, false, ◌==◌, if◌then◌else◌, [], ◌∷◌, List, Option, none, some, codes, pos,
  ◌≡◌, refl, arith, negsuc, Bool-cases, inl, inr,
}
use nycu_np.Server.Select.{FdSet, Loop, Client, Sockets, start, round, rounds}
use nycu_np.Server.Select.Ascending.{ready_from, serve_each, round-ascending}
use nycu_np.Server.Select.Rounds.{AcceptsFresh, InStep, start-InStep, rounds-InStep}
use nycu_np.Server.State.{Server}
use nycu_np.Server.Messages.{who}
use nycu_np.Server.Session.{serve, run_shell, builtins}
use nycu_np.Server.Users.{place_user, connected_user, delete_shm_user_fifo}
use nycu_np.Shell.Parse.{parse_command}
use nycu_np.Shell.Pipes.{close_pipe}
use nycu_np.Shell.Run.{run_lines, prompt}
use nycu_np.Shell.Stream.{read_word}
use nycu_np.Shell.Kernel.{Kernel, Outcome, running}
use nycu_np.Shell.Run.Post.{Post}

abbrev pub empty : Server
empty = record {
  users = [];
  env_table = λ id var. [];
  sock_id_table = [];
  server_in = pos 4;
  server_out = pos 5;
  server_err = pos 6;
  last_uid = 0;
}

abbrev pub kernel : Kernel
kernel = record {
  pipe_fds = λ l. some (20, 21);
  open_fd = λ l. pos 22;
  dup_fd = λ l. pos 23;
  fork_pid = λ l. pos 24;
  file_exists = λ l. false;
  makes_fifo = λ l. true;
  exec_fails = λ l. false;
}

abbrev pub client : ℕ → Client
client fd = record { sock = fd; ip = codes "10.0.0.1"; port = 5000 + fd }

-- The first client says `who`, the second one `exit`.
abbrev net : Sockets
net = record {
  server_sock = 3;
  accepted = λ opened l.
      if opened 7 then (if opened 8 then none else some (client 8)) else some (client 7);
  line = λ fd l. if fd == 7 then codes "who" else codes "exit";
}

net-AcceptsFresh : AcceptsFresh net
net-AcceptsFresh opened l c e = elim (Bool-cases (opened 7)) [
  | inl on ↦ elim (Bool-cases (opened 8)) [ inl both ↦ ground arith | inr off ↦ ground arith ]
  | inr off ↦ ground arith
]

abbrev ready : List ℕ → FdSet
ready [] fd = false
ready (i ∷ is) fd = if fd == i then true else ready is fd

-- Two connections, a line from both, and a line from the one who has stayed.
abbrev reports : List (Option FdSet)
reports =
    some (ready (3 ∷ []))
    ∷ none
    ∷ some (ready (3 ∷ []))
    ∷ some (ready (7 ∷ 8 ∷ []))
    ∷ some (ready (7 ∷ []))
    ∷ []

abbrev begin : Loop
begin = start 3 empty

rounds-InStep_example : Post (λ s' l'. InStep 3 s') (rounds kernel (pos 0) net reports begin [])
rounds-InStep_example =
    rounds-InStep kernel (pos 0) net net-AcceptsFresh reports begin []
      (start-InStep 3 empty (omega arith) (refl, refl))

-- The loop runs through, and the second user is gone.
watches : Outcome Loop → Option (Bool × Bool × Bool)
watches (running s l) = some (s.master_socks 3, s.master_socks 7, s.master_socks 8)
watches m = none

second_leaves : watches (rounds kernel (pos 0) net reports begin []) ≡ some (true, true, false)
unfolding watches rounds serve run_shell parse_command read_word builtins who run_lines prompt
    close_pipe delete_shm_user_fifo
second_leaves = refl

-- Two users, of whom one has sent a line while a third client waits.
abbrev two_users : Loop
two_users = record {
  server =
      place_user 2 (connected_user (codes "10.0.0.1") 5008 8 (negsuc 0))
        (place_user 1 (connected_user (codes "10.0.0.1") 5007 7 (negsuc 0)) empty);
  master_socks = ready (3 ∷ 7 ∷ 8 ∷ []);
  max_socks = 8;
}

round-ascending_example :
    round kernel (pos 0) net (some (ready (8 ∷ 3 ∷ []))) two_users []
    ≡ serve_each kernel (pos 0) net (3 ∷ 8 ∷ []) two_users []
unfolding ready_from
round-ascending_example =
    round-ascending kernel (pos 0) net (ready (8 ∷ 3 ∷ [])) two_users [] (λ fd on. ground arith)
      (omega arith)
