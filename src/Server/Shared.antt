-- ===== src/Server/Shared.antt =====
-- chatServer.cpp with CONFIG_SHM, for np_multi_proc.cpp: each client has a process, and the users
-- are an array in shared memory. A message is put into its receiver's buffer, and a signal tells the
-- receiver's process to show it. A call on the memory is one step, whichever process makes it.
pub mod Mail
pub mod Calls
pub mod Slots
pub mod Who
pub mod Agree
pub mod Welcome
use nycu_np.Prelude.{
  ℕ, zero, suc, ◌+◌, ◌-◌, Bool, true, false, not, ◌&&◌, ◌||◌, if◌then◌else◌, ltb, ◌==◌, List, [],
  ◌∷◌, ◌++◌, Option, none, some, Bytes, c_text, codes, ℤ, pos, take, length, equal, to_string,
}
use nycu_np.Server.State.{
  ip_len, max_user_name_len, max_conn, logout_msg, tell_msg, yell_msg, name_msg,
}

abbrev pub user_msg_len : ℕ
user_msg_len = 1024

-- The members of `UserInfo` that the processes share. A `char` array is the text in front of its
-- first NUL.
pub record SharedUser : Type 0 where
  pub port : ℕ
  pub pid : ℤ
  pub buffer : Bytes
  pub ip : Bytes
  pub name : Bytes
  pub is_connected : Bool

-- The array, the processes that have a signal that they have not handled, by the ids of their users
-- (a signal that comes while there is one already is lost), those in whose handler the buffer has
-- been shown and not been cleared yet, and what each of them has shown.
pub record Shared : Type 0 where
  pub users : ℕ → SharedUser
  pub signalled : ℕ → Bool
  pub handling : ℕ → Bool
  pub shown : ℕ → Bytes

abbrev pub put : {A : Type 0} → ℕ → A → (ℕ → A) → ℕ → A
put i a f j = if j == i then a else f j

-- `sendRawMessage`: `snprintf` takes the text in front of the first NUL, and cuts it to the size of
-- the buffer.
abbrev pub as_message : Bytes → Bytes
as_message msg = take (user_msg_len - 1) (c_text msg)

unfoldable pub send_raw_message : ℕ → Bytes → Shared → Shared
send_raw_message uid msg s = record s {
  users = put uid (record (s.users uid) { buffer = as_message msg }) s.users;
  signalled = put uid true s.signalled;
}

-- `Kill`, the handler of the signal in the process of the user `id`: the buffer is shown, and then
-- it is cleared. Other processes may act in between.
abbrev pub show_buffer : ℕ → Shared → Shared
show_buffer id s = record s {
  signalled = put id false s.signalled;
  handling = put id true s.handling;
  shown = put id (s.shown id ++ (s.users id).buffer) s.shown;
}

abbrev pub clear_buffer : ℕ → Shared → Shared
clear_buffer id s = record s {
  users = put id (record (s.users id) { buffer = [] }) s.users;
  handling = put id false s.handling;
}

-- The handler where nothing comes in between.
unfoldable pub kill : ℕ → Shared → Shared
kill id s = clear_buffer id (show_buffer id s)

-- The loop over the ids from `i` on, `rounds` of them.
unfoldable pub send_connected : ℕ → ℕ → Bytes → Shared → Shared
unfolding send_raw_message
send_connected zero i msg s = s
send_connected (suc rounds) i msg s =
    let sent = send_raw_message i msg s in
    send_connected rounds (i + 1) msg (if (s.users i).is_connected then sent else s)

unfoldable pub broadcast_message : Bytes → Shared → Shared
unfolding send_connected
broadcast_message msg s = send_connected (max_conn - 1) 1 msg s

-- The loop of `addUser`, over the ids from `i` on, `rounds` of them.
unfoldable pub min_key_from : ℕ → ℕ → (ℕ → SharedUser) → ℕ
min_key_from zero i users = i
min_key_from (suc rounds) i users =
    let later = min_key_from rounds (i + 1) users in if (users i).is_connected then later else i

unfoldable pub min_key : (ℕ → SharedUser) → ℕ
unfolding min_key_from
min_key users = min_key_from (max_conn - 1) 1 users

-- `addUser` on the array, with the id that it gives; `none` is the null pointer of an id that has
-- no place in the array. The pipes of the record, which it closes behind this, are in Server/Fifo:
-- `Fifo.add_user` is both.
unfoldable pub add_user : Bytes → ℕ → ℤ → Shared → Option (Shared × ℕ)
unfolding min_key
add_user ip port pid s =
    let id = min_key s.users in
    let user = record (s.users id) {
      ip = take (ip_len - 1) ip;
      name = codes "(no name)";
      port = port;
      pid = pid;
      is_connected = true;
    } in
    if ltb id max_conn then some (record s { users = put id user s.users }, id) else none

abbrev pub cleared : SharedUser
cleared = record { port = 0; pid = pos 0; buffer = []; ip = []; name = []; is_connected = false }

-- `removeUser` of the user `id`: the record is cleared, and the others are told.
unfoldable pub remove_user : ℕ → Shared → Shared
unfolding broadcast_message
remove_user id s =
    broadcast_message (logout_msg (s.users id).name) (record s { users = put id cleared s.users })

-- An id that has a place in the array.
abbrev pub in_array : ℕ → Bool
in_array uid = ltb 0 uid && ltb uid max_conn

-- `Tell` of the user `id`; `none` is a null pointer. Where there is no such user, the client of
-- `id` is told so.
unfoldable pub tell : ℕ → ℕ → Bytes → Shared → Option Shared
unfolding send_raw_message
tell id uid msg s =
    let sent = send_raw_message uid (tell_msg (s.users id).name msg) s in
    if in_array uid then some (if (s.users uid).is_connected then sent else s) else none

-- `Yell`.
unfoldable pub yell : ℕ → Bytes → Shared → Shared
unfolding send_connected
yell id msg s = send_connected (max_conn - 1) 1 (yell_msg (s.users id).name msg) s

-- The loop of `Name`.
unfoldable pub name_exists_from : ℕ → ℕ → Bytes → (ℕ → SharedUser) → Bool
unfolding equal
name_exists_from zero i name users = false
name_exists_from (suc rounds) i name users =
    let later = name_exists_from rounds (i + 1) name users in
    (users i).is_connected && equal (users i).name name || later

-- `Name`; `strcpy` stores the text in front of the first NUL, and `none` is a write out of the bounds
-- of the array `name`.
unfoldable pub name : ℕ → Bytes → Shared → Option Shared
unfolding name_exists_from broadcast_message
name id new_name s =
    let user = s.users id in
    let named = record s { users = put id (record user { name = c_text new_name }) s.users } in
    let told = broadcast_message (name_msg user.ip user.port new_name) named in
    if name_exists_from (max_conn - 1) 1 new_name s.users
    then some s
    else if ltb (length (c_text new_name)) max_user_name_len
    then some told
    else none

-- `WhoHelper`: the row of `Who` for one user.
abbrev pub who_helper : ℕ → ℕ → SharedUser → Bytes
who_helper me id u =
    to_string id
    ++ codes "\t"
    ++ u.name
    ++ codes "\t"
    ++ u.ip
    ++ codes ":"
    ++ to_string u.port
    ++ (if me == id then codes "\t<-me" else [])
    ++ codes "\n"

-- The loop of `Who`, over the ids from `i` on, `rounds` of them.
unfoldable pub who_from : ℕ → ℕ → ℕ → (ℕ → SharedUser) → Bytes
who_from zero i me users = []
who_from (suc rounds) i me users =
    let later = who_from rounds (i + 1) me users in
    if (users i).is_connected then who_helper me i (users i) ++ later else later

-- `Who`: what it prints to the client of the user `id`.
unfoldable pub who : ℕ → Shared → Bytes
unfolding who_from
who id s =
    codes "<ID>\t<nickname>\t<IP:port>\t<indicate me>\n" ++ who_from (max_conn - 1) 1 id s.users
