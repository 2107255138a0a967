-- ===== src/Server/UserPipe/Exchange.antt =====
-- One user writes to another, and the other reads it, once.
use nycu_np.Prelude.{
  ℕ, ◌≤◌, ◌<◌, true, false, ltb, ◌∷◌, ◌++◌, none, some, Bytes, codes, pos, ◌≡◌, arith, Bool-cases,
  inl, inr, lt→ltb,
}
use nycu_np.Server.Messages.{no_user_msg}
use nycu_np.Server.State.{UserInfo, Server, find_user, put_user, max_conn}
use nycu_np.Server.UserPipe.{
  Mode, writing, reading, write_user_pipe, read_user_pipe, set_pipe, piped_msg, received_msg,
  pipe_missing_msg, pipe_taken_msg,
}
use nycu_np.Server.Users.Leave.{sends, sent_to, broadcast_message-SendsTo}
use nycu_np.Shell.Kernel.{
  Kernel, Log, Pipe, running, cout, dup, open_file, pipe2, write_only, read_only,
}
use nycu_np.Shell.Pipes.Close.{closes, close_pipe-closes}
use nycu_np.Shell.Pipes.{minus_one, no_pipe, is_empty, set_fds, create}

-- The answer to a request that is refused: the text, and /dev/null in place of the pipe.
abbrev pub refused : Bytes → Mode → Log → Log
refused msg writing l = open_file (codes "/dev/null") write_only ∷ cout msg ∷ l
refused msg reading l = open_file (codes "/dev/null") read_only ∷ cout msg ∷ l

module _ (k : Kernel) (id n : ℕ) (command : Bytes) (curr : Pipe) (sv : Server) (l : Log) where
  -- A pipe to a user who is not there: the client reads so, its program writes to /dev/null, and
  -- the server is left as it was.
  write_user_pipe-no_user :
      find_user sv n ≡ none
      → write_user_pipe k id (pos n) command curr sv l
        ≡ running
            (sv, set_fds minus_one (k.open_fd (refused (no_user_msg (pos n)) writing l)) curr)
            (refused (no_user_msg (pos n)) writing l)
  unfolding write_user_pipe
  write_user_pipe-no_user gone = elim (Bool-cases (ltb max_conn n)) [
    | inl above ↦ rw above
    | inr within ↦ rw (within, gone)
  ]

  -- A second pipe to the same user, before the first is read, is refused in the same way.
  write_user_pipe-taken :
      (receiver : UserInfo)
      → find_user sv n ≡ some receiver
      → n ≤ max_conn
      → id < max_conn
      → is_empty (receiver.user_pipes id) ≡ false
      → write_user_pipe k id (pos n) command curr sv l
        ≡ running
            (sv, set_fds minus_one (k.open_fd (refused (pipe_taken_msg id (pos n)) writing l)) curr)
            (refused (pipe_taken_msg id (pos n)) writing l)
  unfolding write_user_pipe
  write_user_pipe-taken receiver there fits in_array full =
      rw (within n fits, there, lt→ltb id max_conn in_array, full)
    where
      within : (m : ℕ) → m ≤ max_conn → ltb max_conn m ≡ false
      within m h = ground arith

within_max : (m : ℕ) → m ≤ max_conn → ltb max_conn m ≡ false
within_max m h = ground arith

abbrev pub made_pipe : ℕ → ℕ → Pipe
made_pipe i o = record { input = pos i; output = pos o }

-- The server with a pipe of the user `n` from the user `id`.
abbrev pub with_pipe : ℕ → ℕ → Pipe → UserInfo → Server → Server
with_pipe id n p receiver sv = put_user n (set_pipe id p receiver) sv

-- A pipe that is written: everyone is told, and the program writes to a copy of the pipe's end.
pub record Sent (k : Kernel) (id n : ℕ) (command : Bytes) (curr : Pipe) (sv : Server) (l : Log)
    (me receiver : UserInfo) (i o : ℕ) : Type 0 where
  pub told : Log
  pub goes :
      write_user_pipe k id (pos n) command curr sv l
      ≡ running
          (
            with_pipe id n (made_pipe i o) receiver sv,
            set_fds minus_one (k.dup_fd (dup (pos o) ∷ told)) curr,
          )
          (dup (pos o) ∷ told)
  pub sent :
      sends told
      ≡ sent_to
          (with_pipe id n (made_pipe i o) receiver sv).users
          (piped_msg me id receiver n command)
          (sends l)

pub record Received (k : Kernel) (id n : ℕ) (command : Bytes) (curr : Pipe) (sv : Server) (l : Log)
    (me sender : UserInfo) (p : Pipe) : Type 0 where
  pub told : Log
  pub goes :
      read_user_pipe k id (pos n) command curr sv l
      ≡ running
          (with_pipe n id no_pipe me sv, set_fds (k.dup_fd (dup p.input ∷ told)) minus_one curr)
          (closes p ++ (dup p.input ∷ told))
  pub sent : sends told ≡ sent_to sv.users (received_msg me id sender n command) (sends l)

module _ (k : Kernel) (id n : ℕ) (command : Bytes) (curr : Pipe) (sv : Server) (l : Log)
    (me other : UserInfo) where
  pub write_user_pipe-Sent :
      (i o : ℕ)
      → find_user sv id ≡ some me
      → find_user sv n ≡ some other
      → n ≤ max_conn
      → id < max_conn
      → is_empty (other.user_pipes id) ≡ true
      → k.pipe_fds (pipe2 ∷ l) ≡ some (i, o)
      → Sent k id n command curr sv l me other i o
  write_user_pipe-Sent i o mine there fits in_array free fds =
      let (l', told, sent) =
        broadcast_message-SendsTo (with_pipe id n (made_pipe i o) other sv)
          (piped_msg me id other n command) (pipe2 ∷ l) in
      record {
        told = l';
        goes =
            unfold write_user_pipe create in
            rw (within_max n fits, there, lt→ltb id max_conn in_array, free, mine, fds, told);
        sent = sent;
      }

  pub read_user_pipe-Received :
      find_user sv id ≡ some me
      → find_user sv n ≡ some other
      → n < max_conn
      → is_empty (me.user_pipes n) ≡ false
      → Received k id n command curr sv l me other (me.user_pipes n)
  read_user_pipe-Received mine there fits full =
      let (l', told, sent) = broadcast_message-SendsTo sv (received_msg me id other n command) l in
      record {
        told = l';
        goes =
            unfold read_user_pipe in
            rw (
              within_max n (omega arith),
              there,
              mine,
              lt→ltb n max_conn fits,
              full,
              mine,
              told,
              close_pipe-closes (me.user_pipes n) _,
            );
        sent = sent;
      }

  -- A read where there is no pipe is refused, and leaves the server as it was.
  pub read_user_pipe-missing :
      find_user sv id ≡ some me
      → find_user sv n ≡ some other
      → n < max_conn
      → is_empty (me.user_pipes n) ≡ true
      → read_user_pipe k id (pos n) command curr sv l
        ≡ running
            (
              sv,
              set_fds (k.open_fd (refused (pipe_missing_msg (pos n) id) reading l)) minus_one curr,
            )
            (refused (pipe_missing_msg (pos n) id) reading l)
  read_user_pipe-missing mine there fits free =
      unfold read_user_pipe in
      rw (within_max n (omega arith), there, mine, lt→ltb n max_conn fits, free)
