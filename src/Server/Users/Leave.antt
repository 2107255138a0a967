-- ===== src/Server/Users/Leave.antt =====
-- What is left when a user leaves, and who is told.
use nycu_np.Prelude.{
  ℕ, zero, suc, ◌+◌, ◌-◌, List, [], ◌∷◌, ◌++◌, none, some, Bytes, codes, ℤ, pos, ◌≡◌, ◌≢◌, refl,
  arith, ◌∙◌, ap, to_string,
}
use nycu_np.Prelude.OrderedMap.{lookup, erase, erase-IsSorted, lookup-erase}
use nycu_np.Server.State.{UserInfo, Server, find_user, get_serving_user_id, logout_msg, max_conn}
use nycu_np.Server.Users.Ids.{IsConsistent}
use nycu_np.Server.Users.{
  send_all, broadcast_message, delete_fifos, delete_shm_user_fifo, erase_user, remove_user,
}
use nycu_np.Shell.Pipes.{stdin_fileno, stdout_fileno, stderr_fileno}
use nycu_np.Shell.Kernel.{Log, send, cout, dup2, close, shutdown, Outcome, running}

-- The messages that have been sent to sockets, the newest first.
abbrev pub sends : Log → List (ℤ × Bytes)
sends [] = []
sends (send sock msg ∷ l) = (sock, msg) ∷ sends l
sends (_ ∷ l) = sends l

-- The message to each of these users in order, on top of the older ones.
abbrev pub sent_to : List (ℕ × UserInfo) → Bytes → List (ℤ × Bytes) → List (ℤ × Bytes)
sent_to [] msg older = older
sent_to ((id, u) ∷ rest) msg older = sent_to rest msg ((pos u.sock, msg) ∷ older)

-- A step that goes on, and sends the message to each of these users.
abbrev pub SendsTo : {A : Type 0} → List (ℕ × UserInfo) → Bytes → Log → A → Outcome A → Type 0
SendsTo users msg l a m = (l' : Log) × (m ≡ running a l') × (sends l' ≡ sent_to users msg (sends l))

pub send_all-SendsTo :
    (users : List (ℕ × UserInfo)) (msg : Bytes) (l : Log)
    → SendsTo users msg l tt (send_all users msg l)
unfolding send_all
send_all-SendsTo [] msg l = (l, refl, refl)
send_all-SendsTo ((id, u) ∷ rest) msg l = send_all-SendsTo rest msg (send (pos u.sock) msg ∷ l)

delete_fifos-sends :
    (rounds i id : ℕ) (l : Log)
    → (l' : Log) × (delete_fifos rounds i id l ≡ running tt l') × (sends l' ≡ sends l)
unfolding delete_fifos
delete_fifos-sends zero i id l = (l, refl, refl)
delete_fifos-sends (suc rounds) i id l = delete_fifos-sends rounds (i + 1) id _

delete_shm_user_fifo-sends :
    (id : ℕ) (l : Log)
    → (l' : Log) × (delete_shm_user_fifo id l ≡ running tt l') × (sends l' ≡ sends l)
unfolding delete_shm_user_fifo
delete_shm_user_fifo-sends id l = delete_fifos-sends (max_conn - 1) 1 id l

pub broadcast_message-SendsTo :
    (sv : Server) (msg : Bytes) (l : Log) → SendsTo sv.users msg l tt (broadcast_message msg sv l)
unfolding broadcast_message
broadcast_message-SendsTo sv msg l = send_all-SendsTo sv.users msg l

-- What removing a user does to the tables.
pub record Removed (sv : Server) (id sock : ℕ) (sv' : Server) : Type 0 where
  pub is_gone : find_user sv' id ≡ none
  pub sock_gone : lookup sock sv'.sock_id_table ≡ none
  pub others : (j : ℕ) → j ≢ id → find_user sv' j ≡ find_user sv j
  pub consistent : IsConsistent sv'

erase_user-Removed :
    (id sock : ℕ) (sv : Server)
    → IsConsistent sv
    → lookup sock sv.sock_id_table ≡ some id
    → Removed sv id sock (erase_user id sock sv)
erase_user-Removed id sock sv v at = record {
  is_gone = ground (arith, lookup-erase 1 id id sv.users v.ids_ascend);
  sock_gone = ground (arith, lookup-erase 0 sock sock sv.sock_id_table v.socks_ascend);
  others = λ j ne. ground (arith, lookup-erase 1 id j sv.users v.ids_ascend);
  consistent = record {
    ids_ascend = erase-IsSorted 1 id sv.users v.ids_ascend;
    socks_ascend = erase-IsSorted 0 sock sv.sock_id_table v.socks_ascend;
    sock_leads = λ j w e. ground (
      arith,
      at,
      lookup-erase 1 id j sv.users v.ids_ascend,
      lookup-erase 0 sock w.sock sv.sock_id_table v.socks_ascend,
      v.sock_leads j w,
    );
    user_there =
        λ s j e. there s j (ground (arith, lookup-erase 0 sock s sv.sock_id_table v.socks_ascend));
  };
}
  where
    there :
        (s j : ℕ)
        → (lookup s sv.sock_id_table ≡ some j) × (s ≢ sock)
        → (u : UserInfo) × (find_user (erase_user id sock sv) j ≡ some u) × (u.sock ≡ s)
    there s j (e, ne) =
        let (u, found, on) = v.user_there s j e in
        let (u', found', on') = v.user_there sock id at in
        (u, ground (arith, lookup-erase 1 id j sv.users v.ids_ascend), on)

-- A user who leaves by a socket of the table is taken out of both tables, which stay consistent,
-- and no other user changes; everyone who is left, and nobody else, is sent the logout message
-- once, in the order of the ids.
pub remove_user-Removed :
    (sock id : ℕ) (user : UserInfo) (sv : Server) (l : Log)
    → IsConsistent sv
    → lookup sock sv.sock_id_table ≡ some id
    → find_user sv id ≡ some user
    → Removed sv id sock (erase_user id sock sv)
      × SendsTo
          (erase id sv.users)
          (logout_msg user.name)
          l
          (erase_user id sock sv)
          (remove_user sock sv l)
unfolding remove_user get_serving_user_id
remove_user-Removed sock id user sv l v at found =
    let opened =
      cout (leaving user)
      ∷ (dup2 sv.server_err stderr_fileno
          ∷ dup2 sv.server_out stdout_fileno
          ∷ dup2 sv.server_in stdin_fileno
          ∷ l) in
    let (l₁, unlinked, quiet) = delete_shm_user_fifo-sends id opened in
    let (l₂, told, sent) =
      broadcast_message-SendsTo (erase_user id sock sv) (logout_msg user.name)
        (cout (codes "remove user " ++ to_string id ++ codes "\n") ∷ l₁) in
    (
      erase_user-Removed id sock sv v at,
      (
        close (pos sock) ∷ shutdown (pos sock) ∷ l₂,
        rw (at, found, unlinked, told),
        sent ∙ ap (sent_to (erase id sv.users) (logout_msg user.name)) quiet,
      ),
    )
  where
    leaving : UserInfo → Bytes
    leaving u =
        u.name
        ++ codes " close connection from ip "
        ++ u.ip
        ++ codes ", port "
        ++ to_string u.port
        ++ codes "\n"
