-- ===== src/Server/Messages.antt =====
-- `Who`, `Tell`, `Yell` and `Name` of chatServer.cpp. What goes to `std::cout` reaches the client
-- that is served, whose socket stands in for standard output.
pub mod Delivery
pub mod Names
pub mod Serving
use nycu_np.Prelude.{
  ℕ, Bool, true, false, ◌&&◌, if◌then◌else◌, ltb, ◌==◌, List, [], ◌∷◌, ◌++◌, Option, none, some,
  Bytes, codes, c_text, ℤ, to_string, int_to_string, equal, length,
}
use nycu_np.Server.State.{
  UserInfo, Server, find_user, find_uid, deref, put_user, max_user_name_len, tell_msg, yell_msg,
  name_msg,
}
use nycu_np.Server.Users.{send_raw_message, send_all, broadcast_message}
use nycu_np.Shell.Kernel.{
  Log, Proc, Outcome, running, fault, Event, cout, send, pure, ◌>>=◌, ◌>>◌, emit, bind_outcome,
}

-- A row of `Who`, for one user.
abbrev pub who_row : ℕ → ℕ → UserInfo → Bytes
who_row me id u =
    to_string id
    ++ codes "\t"
    ++ u.name
    ++ codes "\t"
    ++ u.ip
    ++ codes ":"
    ++ to_string u.port
    ++ (if me == id then codes "\t<-me" else [])
    ++ codes "\n"

abbrev pub who_rows : ℕ → List (ℕ × UserInfo) → Bytes
who_rows me [] = []
who_rows me ((id, u) ∷ rest) = who_row me id u ++ who_rows me rest

unfoldable pub who : ℕ → Server → Proc (Unit {0})
who id sv =
    emit (cout (codes "<ID>\t<nickname>\t<IP:port>\t<indicate me>\n" ++ who_rows id sv.users))

abbrev pub no_user_msg : ℤ → Bytes
no_user_msg uid =
    codes "*** Error: user #" ++ int_to_string uid ++ codes " does not exist yet. ***\n"

tell_user : ℕ → Bytes → Server → Option UserInfo → ℤ → Proc (Unit {0})
tell_user id msg sv none uid = emit (cout (no_user_msg uid))
tell_user id msg sv (some target) uid = do
  me ← deref (find_user sv id)
  send_raw_message target.sock (tell_msg me.name msg)

unfoldable pub tell : ℕ → ℤ → Bytes → Server → Proc (Unit {0})
unfolding tell_user
tell id uid msg sv = tell_user id msg sv (find_uid sv uid) uid

unfoldable pub yell : ℕ → Bytes → Server → Proc (Unit {0})
yell id msg sv = do me ← deref (find_user sv id); send_all sv.users (yell_msg me.name msg)

-- `nameHelper` over the users, up to the first that has the name.
unfoldable pub name_exists : Bytes → List (ℕ × UserInfo) → Bool
name_exists name [] = false
name_exists name ((id, u) ∷ rest) =
    let later = name_exists name rest in if u.is_connected && equal u.name name then true else later

abbrev pub name_taken_msg : Bytes → Bytes
name_taken_msg name = codes "*** User '" ++ name ++ codes "' already exists. ***\n"

-- `strcpy` of `name.c_str()` into `char name[20]`: the text in front of the first NUL is stored, and
-- one that is too long is written out of bounds.
pub copy_name : Bytes → UserInfo → Proc UserInfo
unfolding c_text
copy_name name u =
    if ltb (length (c_text name)) max_user_name_len
    then pure (record u { name = c_text name })
    else λ l. fault

unfoldable pub set_name : ℕ → Bytes → Server → Proc Server
unfolding copy_name
set_name id name sv = do
  me ← deref (find_user sv id)
  renamed ← copy_name name me
  let sv' = put_user id renamed sv
  broadcast_message (name_msg renamed.ip renamed.port name) sv'
  pure sv'

unfoldable pub name : ℕ → Bytes → Server → Proc Server
unfolding set_name name_exists
name id new_name sv =
    if name_exists new_name sv.users
    then (do emit (cout (name_taken_msg new_name)); pure sv)
    else set_name id new_name sv
