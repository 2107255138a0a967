-- ===== src/Server/Select/Table.antt =====
-- The table of sockets behind a connection, and behind a user who leaves.
use nycu_np.Prelude.{ℕ, Bytes, ℤ, negsuc, ◌≡◌, refl}
use nycu_np.Prelude.OrderedMap.{insert, erase}
use nycu_np.Server.Session.Welcome.{greet, serve-greet}
use nycu_np.Server.Session.{connects, serve}
use nycu_np.Server.State.{Server, find_user, get_serving_user_id, deref, login_msg, logout_msg}
use nycu_np.Server.Users.{
  add_user, min_key, remove_user, broadcast_message, delete_shm_user_fifo, erase_user,
}
use nycu_np.Shell.Kernel.{Kernel, Log}
use nycu_np.Shell.Run.Post.{Post, Post-bind, Post-seq}

abbrev pub HasInserted : ℕ → Server → Server → Log → Type 0
HasInserted sock sv sv' l' = (id : ℕ) × (sv'.sock_id_table ≡ insert sock id sv.sock_id_table)

add_user-table :
    (ip : Bytes) (port sock : ℕ) (pid : ℤ) (sv : Server) (l : Log)
    → Post (HasInserted sock sv) (add_user ip port sock pid sv l)
unfolding add_user
add_user-table ip port sock pid sv l = (min_key sv.users, refl)

pub serve-table :
    (k : Kernel) (uninit : ℤ) (ip : Bytes) (port sock : ℕ) (sv : Server) (l : Log)
    → Post (HasInserted sock sv) (serve k uninit (connects ip port sock) sv l)
unfolding greet
serve-table k uninit ip port sock sv l = rw (serve-greet k uninit ip port sock sv l) (
    Post-bind (HasInserted sock sv) (HasInserted sock sv) (add_user ip port sock (negsuc 0) sv l)
      (greet k uninit ip port sock sv l) (add_user-table ip port sock (negsuc 0) sv l)
      λ new l₁ h.
        Post-seq (HasInserted sock sv) (deref (find_user new (get_serving_user_id new sock)) _) _
          λ u l₂.
            Post-seq (HasInserted sock sv) (broadcast_message (login_msg u.name ip port) new l₂) _
              λ sent l₃. h)

pub remove_user-table :
    (sock : ℕ) (sv : Server) (l : Log)
    → Post (λ sv' l'. sv'.sock_id_table ≡ erase sock sv.sock_id_table) (remove_user sock sv l)
unfolding remove_user get_serving_user_id
remove_user-table sock sv l =
    let id = get_serving_user_id sv sock in
    let Q : Server → Log → Type 0 = λ sv' l'. sv'.sock_id_table ≡ erase sock sv.sock_id_table in
    Post-seq Q (deref (find_user sv id) _) _ λ user l₁.
      Post-seq Q (delete_shm_user_fifo id _) _ λ done l₂.
        Post-seq Q (broadcast_message (logout_msg user.name) (erase_user id sock sv) _) _
          (λ sent l₃. refl)
