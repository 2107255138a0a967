-- ===== src/Server/State.antt =====
-- The members of `chatServer` and `UserInfo`, and the texts of the messages (chatServer.hpp).
use nycu_np.Prelude.{
  ℕ, Bool, List, ◌++◌, Option, none, some, Bytes, codes, ℤ, pos, negsuc, to_string,
}
use nycu_np.Prelude.OrderedMap.{lookup, insert}
use nycu_np.Shell.Kernel.{Pipe, Proc, fault, pure}
use nycu_np.Shell.Run.{Shell}

abbrev pub ip_len : ℕ
ip_len = 16

abbrev pub max_user_name_len : ℕ
max_user_name_len = 20

abbrev pub max_conn : ℕ
max_conn = 31

-- A `char` array is the text in front of its first NUL; `userPipes` is a function of the index.
pub record UserInfo : Type 0 where
  pub port : ℕ
  pub sock : ℕ
  pub pid : ℤ
  pub ip : Bytes
  pub name : Bytes
  pub is_connected : Bool
  pub user_pipes : ℕ → Pipe
  pub shell : Shell

-- `serverIn`, `serverOut` and `serverErr` are the server's own descriptors; a missing variable of
-- a user's environment is empty.
pub record Server : Type 0 where
  pub users : List (ℕ × UserInfo)
  pub env_table : ℕ → Bytes → Bytes
  pub sock_id_table : List (ℕ × ℕ)
  pub server_in : ℤ
  pub server_out : ℤ
  pub server_err : ℤ
  pub last_uid : ℕ

abbrev pub find_user : Server → ℕ → Option UserInfo
find_user sv id = lookup id sv.users

-- `users.find(uid)` for an `int`: no user has a negative key.
abbrev pub find_uid : Server → ℤ → Option UserInfo
find_uid sv (pos uid) = find_user sv uid
find_uid sv (negsuc uid) = none

-- `sockID_table[sock]`, which is 0 for a socket that is not there.
abbrev pub or_zero : Option ℕ → ℕ
or_zero none = 0
or_zero (some id) = id

unfoldable pub get_serving_user_id : Server → ℕ → ℕ
get_serving_user_id sv fd = or_zero (lookup fd sv.sock_id_table)

-- `users[id]`, where a key that is not there gives a null pointer.
abbrev pub deref : {A : Type 0} → Option A → Proc A
deref none = λ l. fault
deref (some u) = pure u

abbrev pub put_user : ℕ → UserInfo → Server → Server
put_user id u sv = record sv { users = insert id u sv.users }

abbrev pub welcome_msg : Bytes
welcome_msg =
    codes "****************************************\n"
    ++ codes "** Welcome to the information server. **\n"
    ++ codes "****************************************\n"

abbrev pub login_msg : Bytes → Bytes → ℕ → Bytes
login_msg name ip port =
    codes "*** User '"
    ++ name
    ++ codes "' entered from "
    ++ ip
    ++ codes ":"
    ++ to_string port
    ++ codes ". ***\n"

abbrev pub logout_msg : Bytes → Bytes
logout_msg name = codes "*** User '" ++ name ++ codes "' left. ***\n"

abbrev pub tell_msg : Bytes → Bytes → Bytes
tell_msg name msg = codes "*** " ++ name ++ codes " told you ***: " ++ msg ++ codes "\n"

abbrev pub yell_msg : Bytes → Bytes → Bytes
yell_msg name msg = codes "*** " ++ name ++ codes " yelled ***: " ++ msg ++ codes "\n"

abbrev pub name_msg : Bytes → ℕ → Bytes → Bytes
name_msg ip port name =
    codes "*** User from "
    ++ ip
    ++ codes ":"
    ++ to_string port
    ++ codes " is named '"
    ++ name
    ++ codes "'. ***\n"

abbrev pub fifo_dir : Bytes → Bytes → Bytes
fifo_dir sender receiver = codes "./user_pipe/" ++ sender ++ codes "-" ++ receiver
