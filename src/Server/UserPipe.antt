-- ===== src/Server/UserPipe.antt =====
-- The pipes between users: `readUserPipe`, `writeUserPipe` and their helpers in chatServer.cpp,
-- without shared memory.
pub mod Granted
pub mod Exchange
pub mod RoundTrip
pub mod Serving
use nycu_np.Prelude.{
  ℕ, Bool, true, false, not, ◌&&◌, ◌||◌, if◌then◌else◌, ltb, ◌==◌, List, [], ◌∷◌, ◌++◌, Option,
  none, some, Bytes, codes, ℤ, pos, negsuc, to_string, int_to_string,
}
use nycu_np.Server.Messages.{no_user_msg}
use nycu_np.Server.State.{UserInfo, Server, find_user, find_uid, deref, put_user, max_conn}
use nycu_np.Server.Users.{broadcast_message}
use nycu_np.Shell.Kernel.{
  Kernel, Log, Pipe, Proc, Outcome, running, fault, OpenFlags, write_only, read_only, Event, cout,
  dup, open_file, pure, ◌>>=◌, ◌>>◌, emit, ask, bind_outcome,
}
use nycu_np.Shell.Pipes.{minus_one, set_fds, is_empty, create, close_pipe}

-- `O_WRONLY` and `O_RDONLY`, as the mode of a user pipe.
pub data Mode : Type 0 where
  writing reading : Mode

pub data UserPipeErr : Type 0 where
  user_not_exist pipe_err : UserPipeErr

abbrev pub flags : Mode → OpenFlags
flags writing = write_only
flags reading = read_only

abbrev pub pipe_missing_msg : ℤ → ℕ → Bytes
pipe_missing_msg uid id =
    codes "*** Error: the pipe #"
    ++ int_to_string uid
    ++ codes "->#"
    ++ to_string id
    ++ codes " does not exist yet. ***\n"

abbrev pub pipe_taken_msg : ℕ → ℤ → Bytes
pipe_taken_msg id uid =
    codes "*** Error: the pipe #"
    ++ to_string id
    ++ codes "->#"
    ++ int_to_string uid
    ++ codes " already exists. ***\n"

abbrev pub error_msg : ℕ → ℤ → Mode → UserPipeErr → Bytes
error_msg id uid mode user_not_exist = no_user_msg uid
error_msg id uid reading pipe_err = pipe_missing_msg uid id
error_msg id uid writing pipe_err = pipe_taken_msg id uid

-- The descriptor of /dev/null stands in for the pipe.
unfoldable pub handle_user_pipe_error : Kernel → ℕ → ℤ → Mode → UserPipeErr → Proc ℤ
handle_user_pipe_error k id uid mode problem = do
  emit (cout (error_msg id uid mode problem))
  ask (open_file (codes "/dev/null") (flags mode)) k.open_fd

-- What `handleUserPipe` finds out, its two flags as one value: whether the user is there, and
-- whether the pipe is.
pub data Found : Type 0 where
  no_user : Found
  no_pipe_yet : UserInfo → Found
  has_pipe : UserInfo → Found

abbrev pub above_max_conn : ℤ → Bool
above_max_conn (pos n) = ltb max_conn n
above_max_conn (negsuc n) = false

-- An array index: `userPipes` has `MAX_CONN` elements.
abbrev pub pipe_at : UserInfo → ℕ → Proc Pipe
pipe_at u i = if ltb i max_conn then pure (u.user_pipes i) else λ l. fault

abbrev pub set_pipe : ℕ → Pipe → UserInfo → UserInfo
set_pipe i p u = record u { user_pipes = λ j. if j == i then p else u.user_pipes j }

-- An `int` that is the id of a user.
abbrev pub id_of : ℤ → ℕ
id_of (pos n) = n
id_of (negsuc n) = 0

classify : UserInfo → Pipe → Found
classify u p = if is_empty p then no_pipe_yet u else has_pipe u

found_user : Mode → ℕ → ℤ → Server → Option UserInfo → Proc Found
unfolding classify is_empty
found_user mode id uid sv none = pure no_user
found_user writing id uid sv (some other) = do p ← pipe_at other id; pure (classify other p)
found_user reading id uid sv (some other) = do
  me ← deref (find_user sv id)
  p ← pipe_at me (id_of uid)
  pure (classify other p)

unfoldable pub handle_user_pipe : ℕ → ℤ → Mode → Server → Proc Found
unfolding found_user
handle_user_pipe id uid mode sv =
    found_user mode id uid sv (if above_max_conn uid then none else find_uid sv uid)

abbrev pub tag : Bytes → Bytes → Bytes
tag name id = name ++ codes " (#" ++ id ++ codes ")"

abbrev pub piped_msg : UserInfo → ℕ → UserInfo → ℕ → Bytes → Bytes
piped_msg sender id receiver uid command =
    codes "*** "
    ++ tag sender.name (to_string id)
    ++ codes " just piped '"
    ++ command
    ++ codes "' to "
    ++ tag receiver.name (to_string uid)
    ++ codes " ***\n"

abbrev pub received_msg : UserInfo → ℕ → UserInfo → ℕ → Bytes → Bytes
received_msg receiver id sender uid command =
    codes "*** "
    ++ tag receiver.name (to_string id)
    ++ codes " just received from "
    ++ tag sender.name (to_string uid)
    ++ codes " by '"
    ++ command
    ++ codes "' ***\n"

unfoldable pub write_found : Kernel → ℕ → ℤ → Bytes → Pipe → Server → Found → Proc (Server × Pipe)
write_found k id uid command curr sv no_user = do
  fd ← handle_user_pipe_error k id uid writing user_not_exist
  pure (sv, set_fds minus_one fd curr)
write_found k id uid command curr sv (has_pipe receiver) = do
  fd ← handle_user_pipe_error k id uid writing pipe_err
  pure (sv, set_fds minus_one fd curr)
write_found k id uid command curr sv (no_pipe_yet receiver) = do
  sender ← deref (find_user sv id)
  made ← create k
  let sv' = put_user (id_of uid) (set_pipe id made receiver) sv
  broadcast_message (piped_msg sender id receiver (id_of uid) command) sv'
  fd ← ask (dup made.output) k.dup_fd
  pure (sv', set_fds minus_one fd curr)

unfoldable pub write_user_pipe : Kernel → ℕ → ℤ → Bytes → Pipe → Server → Proc (Server × Pipe)
unfolding write_found handle_user_pipe_error handle_user_pipe set_fds
write_user_pipe k id uid command curr sv = do
  found ← handle_user_pipe id uid writing sv
  write_found k id uid command curr sv found

unfoldable pub read_found : Kernel → ℕ → ℤ → Bytes → Pipe → Server → Found → Proc (Server × Pipe)
read_found k id uid command curr sv no_user = do
  fd ← handle_user_pipe_error k id uid reading user_not_exist
  pure (sv, set_fds fd minus_one curr)
read_found k id uid command curr sv (no_pipe_yet sender) = do
  fd ← handle_user_pipe_error k id uid reading pipe_err
  pure (sv, set_fds fd minus_one curr)
read_found k id uid command curr sv (has_pipe sender) = do
  me ← deref (find_user sv id)
  broadcast_message (received_msg me id sender (id_of uid) command) sv
  let kept = me.user_pipes (id_of uid)
  fd ← ask (dup kept.input) k.dup_fd
  closed ← close_pipe kept
  pure (put_user id (set_pipe (id_of uid) closed me) sv, set_fds fd minus_one curr)

unfoldable pub read_user_pipe : Kernel → ℕ → ℤ → Bytes → Pipe → Server → Proc (Server × Pipe)
unfolding read_found handle_user_pipe_error handle_user_pipe set_fds
read_user_pipe k id uid command curr sv = do
  found ← handle_user_pipe id uid reading sv
  read_found k id uid command curr sv found
