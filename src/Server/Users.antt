-- ===== src/Server/Users.antt =====
-- Users come and go: `addUser`, `removeUser`, `broadcastMessage`, and the tables of chatServer.cpp.
pub mod Ids
pub mod Leave
use nycu_np.Prelude.{
  ℕ, zero, suc, ◌+◌, ◌-◌, Bool, true, false, if◌then◌else◌, ltb, ◌==◌, List, [], ◌∷◌, ◌++◌, Option,
  none, some, Bytes, codes, ℤ, pos, negsuc, take, to_string, equal,
}
use nycu_np.Prelude.OrderedMap.{lookup, insert, erase}
use nycu_np.Server.State.{
  UserInfo, Server, find_user, get_serving_user_id, deref, put_user, ip_len, max_conn, logout_msg,
  fifo_dir,
}
use nycu_np.Shell.Kernel.{
  Kernel, Log, Pipe, Proc, Outcome, running, fault, Event, send, cout, dup2, unlink, shutdown,
  close, pure, ◌>>=◌, ◌>>◌, emit, bind_outcome,
}
use nycu_np.Shell.Run.{new_shell}
use nycu_np.Shell.Pipes.{no_pipe, stdin_fileno, stdout_fileno, stderr_fileno}

-- `sendRawMessage` without shared memory: to a socket. The log has the sends of a process that
-- lives: where the peer has closed its connection, SIGPIPE ends the process at this call.
abbrev pub send_raw_message : ℕ → Bytes → Proc (Unit {0})
send_raw_message sock msg = emit (send (pos sock) msg)

-- `for (auto &[id, user] : users) sendRawMessage(user->sock, msg)`.
unfoldable pub send_all : List (ℕ × UserInfo) → Bytes → Proc (Unit {0})
send_all [] msg = pure tt
send_all ((id, u) ∷ rest) msg = do send_raw_message u.sock msg; send_all rest msg

unfoldable pub broadcast_message : Bytes → Server → Proc (Unit {0})
unfolding send_all
broadcast_message msg sv = send_all sv.users msg

-- The loop over the keys that stops at the first one above `minKey`.
unfoldable pub min_key_from : ℕ → List (ℕ × UserInfo) → ℕ
min_key_from min_key [] = min_key
min_key_from min_key ((id, u) ∷ rest) =
    let next = min_key_from (min_key + 1) rest in if ltb min_key id then min_key else next

unfoldable pub min_key : List (ℕ × UserInfo) → ℕ
unfolding min_key_from
min_key users = min_key_from 1 users

-- `snprintf` into an array keeps what fits in front of the NUL.
abbrev pub fill : ℕ → Bytes → Bytes
fill size s = take (size - 1) s

-- The record of a user who has just connected.
abbrev pub connected_user : Bytes → ℕ → ℕ → ℤ → UserInfo
connected_user ip port sock pid = record {
  port = port;
  sock = sock;
  pid = pid;
  ip = fill ip_len ip;
  name = codes "(no name)";
  is_connected = true;
  user_pipes = λ _. no_pipe;
  shell = new_shell;
}

abbrev pub place_user : ℕ → UserInfo → Server → Server
place_user id user sv = record sv {
  sock_id_table = insert user.sock id sv.sock_id_table;
  users = insert id user sv.users;
  last_uid = id;
}

unfoldable pub add_user : Bytes → ℕ → ℕ → ℤ → Server → Proc Server
unfolding min_key
add_user ip port sock pid sv = do
  emit (
      cout (
        codes "accept new connection from ip "
        ++ ip
        ++ codes ", port "
        ++ to_string port
        ++ codes "\n"))
  let id = min_key sv.users
  emit (cout (codes "add user " ++ to_string id ++ codes "\n"))
  pure (place_user id (connected_user ip port sock pid) sv)

-- The file names from and to every other user, for the ids from `i` on, `rounds` of them.
unfoldable pub delete_fifos : ℕ → ℕ → ℕ → Proc (Unit {0})
delete_fifos zero i id = pure tt
delete_fifos (suc rounds) i id = do
  emit (unlink (fifo_dir (to_string id) (to_string i)))
  emit (unlink (fifo_dir (to_string i) (to_string id)))
  delete_fifos rounds (i + 1) id

unfoldable pub delete_shm_user_fifo : ℕ → Proc (Unit {0})
unfolding delete_fifos
delete_shm_user_fifo id = delete_fifos (max_conn - 1) 1 id

-- The three standard descriptors become the server's own again.
abbrev pub restore_stdio : Server → Proc (Unit {0})
restore_stdio sv = do
  emit (dup2 sv.server_in stdin_fileno)
  emit (dup2 sv.server_out stdout_fileno)
  emit (dup2 sv.server_err stderr_fileno)

abbrev pub erase_user : ℕ → ℕ → Server → Server
erase_user id sock sv = record sv {
  users = erase id sv.users;
  sock_id_table = erase sock sv.sock_id_table;
}

-- The user's record is cleared and deleted, so that only the erasure is seen.
unfoldable pub remove_user : ℕ → Server → Proc Server
unfolding get_serving_user_id
remove_user sock sv = do
  restore_stdio sv
  let id = get_serving_user_id sv sock
  user ← deref (find_user sv id)
  emit (
      cout (
        user.name
        ++ codes " close connection from ip "
        ++ user.ip
        ++ codes ", port "
        ++ to_string user.port
        ++ codes "\n"))
  delete_shm_user_fifo id
  let sv' = erase_user id sock sv
  emit (cout (codes "remove user " ++ to_string id ++ codes "\n"))
  broadcast_message (logout_msg user.name) sv'
  emit (shutdown (pos sock))
  emit (close (pos sock))
  pure sv'

-- The environment that each user sets for itself.
unfoldable pub get_serving_user_env : ℕ → Bytes → Server → Bytes
get_serving_user_env id env sv = sv.env_table id env

unfoldable pub set_serving_user_env : ℕ → Bytes → Bytes → Server → Server
unfolding equal
set_serving_user_env id env value sv = record sv {
  env_table = λ i e.
      if i == id then (if equal e env then value else sv.env_table i e) else sv.env_table i e;
}
