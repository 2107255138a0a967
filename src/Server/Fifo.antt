-- ===== src/Server/Fifo.antt =====
-- The pipes between users of chatServer.cpp with CONFIG_SHM: `addUser`, `readUserPipe`, `writeUserPipe`,
-- `handleUserPipe` and `readFIFO_writePipe`. The log is that of the calls of all processes, in their
-- order.
pub mod Drain
pub mod Open
pub mod Exchange
use nycu_np.Prelude.{
  c_text, has, ℕ, zero, suc, ◌+◌, ◌==◌, Bool, true, false, not, ◌&&◌, ◌||◌, if◌then◌else◌, ltb, leb,
  ◌-◌, List, [], ◌∷◌, ◌++◌, Option, none, some, Bytes, codes, ℤ, pos, negsuc, length, to_string,
}
use nycu_np.Server.Shared as Shared
use nycu_np.Server.Shared.{
  min_key, SharedUser, Shared, in_array, user_msg_len, broadcast_message, put,
}
use nycu_np.Server.State.{fifo_dir, max_conn}
use nycu_np.Server.UserPipe.{
  Mode, writing, reading, UserPipeErr, user_not_exist, pipe_err, handle_user_pipe_error,
  above_max_conn, id_of, tag,
}
use nycu_np.Shell.Kernel.{
  Kernel, Log, Pipe, Proc, Outcome, cout, running, fault, Event, read, write, close, dup, dup2,
  unlink, pipe, pure, ◌>>=◌, ◌>>◌, emit, ask, bind_outcome,
}
use nycu_np.Shell.Pipes.{close_pipe, minus_one, set_fds, open_fifo, FileMode, write_mode, read_mode}

-- What a read of a FIFO yields: bytes, of which there are none at the end of the input, or -1.
pub data Read : Type 0 where
  got : Bytes → Read
  failed : Read

-- The answers to `pipe`, the bytes that a pipe holds, and what the reads yield from here on, one after
-- the other.
pub record Reads : Type 0 where
  pub capacity : ℕ
  pub pipe_ends : Log → Option (ℕ × ℕ)
  pub yields : Log → List Read

-- A text that `strlen` finds the end of in the array `buffer`, which is all NUL before the read.
abbrev pub has_end : Bytes → Bool
has_end text = ltb (length text) user_msg_len || has 0 text

-- The loop of `readFIFO_writePipe`; the Boolean is whether it has ended. Nobody reads from the pipe
-- meanwhile: a write for which it has no room, `room` being what is left, never returns.
unfoldable pub drain : ℤ → ℤ → ℕ → List Read → Proc Bool
unfolding c_text has
drain fd out room [] = pure false
drain fd out room (failed ∷ reads) = do emit (read fd); pure true
drain fd out room (got text ∷ reads) = do
  emit (read fd)
  if has_end text
      then (if leb (length (c_text text)) room
          then (do emit (write out (c_text text)); drain fd out (room - length (c_text text)) reads)
          else pure false)
      else λ l. fault

drained : ℤ → ℕ × ℕ → Bool → Proc Bool
drained fd (in_end, out_end) false = pure false
drained fd (in_end, out_end) true = do
  emit (close (pos out_end))
  emit (dup2 (pos in_end) fd)
  emit (close (pos in_end))
  pure true

-- `none` for the ends is an array that is not initialized.
through : Reads → ℤ → Option (ℕ × ℕ) → Proc Bool
unfolding drain drained
through r fd none = λ l. fault
through r fd (some (in_end, out_end)) = do
  reads ← λ l. running (r.yields l) l
  ended ← drain fd (pos out_end) r.capacity reads
  drained fd (in_end, out_end) ended

unfoldable pub read_fifo_write_pipe : Reads → ℤ → Proc Bool
unfolding through
read_fifo_write_pipe r fd = do ends ← ask pipe r.pipe_ends; through r fd ends

-- The users in shared memory, with `users[id]->userPipes[uid]`.
pub record FifoServer : Type 0 where
  pub shared : Shared
  pub user_pipes : ℕ → ℕ → Pipe

abbrev pub set_pipe : ℕ → ℕ → Pipe → FifoServer → FifoServer
set_pipe id uid p st = record st {
  user_pipes = put id (put uid p (st.user_pipes id)) st.user_pipes;
}

-- `closePipe` of the pipes of the user `id`, for the ids from `i` on, `rounds` of them.
close_pipes : ℕ → ℕ → ℕ → FifoServer → Proc FifoServer
unfolding close_pipe
close_pipes zero i id st = pure st
close_pipes (suc rounds) i id st = do
  p ← close_pipe (st.user_pipes id i)
  close_pipes rounds (i + 1) id (set_pipe id i p st)

-- `addUser`, with the id that it gives: the record in the array, and then its pipes, which are
-- closed. An id that has no place in the array is a null pointer.
abbrev placed : FifoServer → Option (Shared × ℕ) → Proc (FifoServer × ℕ)
placed st none = λ l. fault
placed st (some (s, id)) = do
  st' ← close_pipes (max_conn - 1) 1 id (record st { shared = s })
  pure (st', id)

unfoldable pub add_user : Bytes → ℕ → ℤ → FifoServer → Proc (FifoServer × ℕ)
unfolding close_pipes
add_user ip port pid st = do
  emit (
      cout (
        codes "accept new connection from ip "
        ++ ip
        ++ codes ", port "
        ++ to_string port
        ++ codes "\n"))
  emit (cout (codes "add user " ++ to_string (min_key st.shared.users) ++ codes "\n"))
  placed st (Shared.add_user ip port pid st.shared)

-- The file between two users.
abbrev pub fifo : ℕ → ℕ → Bytes
fifo sender receiver = fifo_dir (to_string sender) (to_string receiver)

-- What `handleUserPipe` finds out: whether the user is there, and what `openFIFO` returns.
pub data Found : Type 0 where
  no_user : Found
  opened : Bool → Found

pub open_user_pipe : Kernel → Bytes → FileMode → ℕ → ℕ → FifoServer → Proc (FifoServer × Found)
unfolding open_fifo
open_user_pipe k name mode id uid st = do
  (p, flag) ← open_fifo k name mode (st.user_pipes id uid)
  pure (set_pipe id uid p st, opened flag)

pub found_user : Kernel → Mode → ℕ → ℕ → FifoServer → Proc (FifoServer × Found)
unfolding open_user_pipe
found_user k writing id uid st =
    if (st.shared.users uid).is_connected
    then open_user_pipe k (fifo id uid) write_mode uid id st
    else pure (st, no_user)
found_user k reading id uid st =
    if (st.shared.users uid).is_connected
    then open_user_pipe k (fifo uid id) read_mode id uid st
    else pure (st, no_user)

-- Where the id is not that of a place, `users[uid]` is a null pointer.
unfoldable pub handle_user_pipe : Kernel → Mode → ℕ → ℤ → FifoServer → Proc (FifoServer × Found)
unfolding found_user
handle_user_pipe k mode id uid st =
    if above_max_conn uid
    then pure (st, no_user)
    else if in_array (id_of uid)
    then found_user k mode id (id_of uid) st
    else λ l. fault

abbrev pub piped_msg : ℕ → ℕ → Bytes → Shared → Bytes
piped_msg id uid command s =
    codes "*** "
    ++ tag (s.users id).name (to_string id)
    ++ codes " just piped '"
    ++ command
    ++ codes "' to "
    ++ tag (s.users uid).name (to_string uid)
    ++ codes " ***\n"

abbrev pub received_msg : ℕ → ℕ → Bytes → Shared → Bytes
received_msg id uid command s =
    codes "*** "
    ++ tag (s.users id).name (to_string id)
    ++ codes " just received from "
    ++ tag (s.users uid).name (to_string uid)
    ++ codes " by '"
    ++ command
    ++ codes "' ***\n"

abbrev pub is_none : ℤ → Bool
is_none (pos n) = n == 0
is_none (negsuc n) = false

abbrev pub announce : Bytes → FifoServer → FifoServer
announce msg st = record st { shared = broadcast_message msg st.shared }

-- The message is left out where the same line reads from a user, which has announced both.
write_found : Kernel → ℕ → ℤ → Bytes → Pipe → ℤ → FifoServer × Found → Proc (FifoServer × Pipe)
write_found k id uid command curr other (st, no_user) = do
  fd ← handle_user_pipe_error k id uid writing user_not_exist
  pure (st, set_fds minus_one fd curr)
write_found k id uid command curr other (st, opened false) = do
  fd ← handle_user_pipe_error k id uid writing pipe_err
  pure (st, set_fds minus_one fd curr)
write_found k id uid command curr other (st, opened true) = do
  let told = announce (piped_msg id (id_of uid) command st.shared) st
  let st' = if is_none other then told else st
  fd ← ask (dup (st.user_pipes (id_of uid) id).output) k.dup_fd
  pure (st', set_fds minus_one fd curr)

unfoldable pub write_user_pipe :
    Kernel → ℕ → ℤ → Bytes → Pipe → ℤ → FifoServer → Proc (FifoServer × Pipe)
unfolding write_found handle_user_pipe handle_user_pipe_error set_fds
write_user_pipe k id uid command curr other st = do
  found ← handle_user_pipe k writing id uid st
  write_found k id uid command curr other found

-- What is announced: the reading, and the writing of the same line to the user `other`; `none` is
-- the name of a null pointer.
unfoldable pub announcement : ℕ → ℕ → Bytes → ℤ → Shared → Option Bytes
announcement id uid command other s =
    if is_none other
    then some (received_msg id uid command s)
    else if in_array (id_of other)
    then some (received_msg id uid command s ++ piped_msg id (id_of other) command s)
    else none

-- `none` is a process that is still in the loop of `readFIFO_writePipe`, or in a write there.
read_drained : Kernel → ℕ → ℕ → Bytes → Pipe → FifoServer → Bool → Proc (Option (FifoServer × Pipe))
read_drained k id uid msg curr st false = pure none
read_drained k id uid msg curr st true = do
  emit (unlink (fifo uid id))
  let told = announce msg st
  fd ← ask (dup (st.user_pipes id uid).input) k.dup_fd
  pure (some (told, set_fds fd minus_one curr))

read_announced :
    Kernel → Reads → ℕ → ℕ → Pipe → FifoServer → Option Bytes → Proc (Option (FifoServer × Pipe))
unfolding read_drained read_fifo_write_pipe
read_announced k r id uid curr st none = λ l. fault
read_announced k r id uid curr st (some msg) = do
  ended ← read_fifo_write_pipe r (st.user_pipes id uid).input
  read_drained k id uid msg curr st ended

read_found :
    Kernel
    → Reads
    → ℕ
    → ℤ
    → Bytes
    → Pipe
    → ℤ
    → FifoServer × Found
    → Proc (Option (FifoServer × Pipe))
unfolding read_announced
read_found k r id uid command curr other (st, no_user) = do
  fd ← handle_user_pipe_error k id uid reading user_not_exist
  pure (some (st, set_fds fd minus_one curr))
read_found k r id uid command curr other (st, opened false) = do
  fd ← handle_user_pipe_error k id uid reading pipe_err
  pure (some (st, set_fds fd minus_one curr))
read_found k r id uid command curr other (st, opened true) =
    read_announced k r id (id_of uid) curr st (announcement id (id_of uid) command other st.shared)

unfoldable pub read_user_pipe :
    Kernel → Reads → ℕ → ℤ → Bytes → Pipe → ℤ → FifoServer → Proc (Option (FifoServer × Pipe))
unfolding read_found handle_user_pipe handle_user_pipe_error set_fds announcement
read_user_pipe k r id uid command curr other st = do
  found ← handle_user_pipe k reading id uid st
  read_found k r id uid command curr other found
