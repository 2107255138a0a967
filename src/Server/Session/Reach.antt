-- ===== src/Server/Session/Reach.antt =====
-- The server over any sequence of requests.
use nycu_np.Prelude.{
  ℕ, Bool, true, false, if◌then◌else◌, [], Option, none, some, Bytes, ℤ, negsuc, ◌≡◌, refl, arith,
  subst,
}
use nycu_np.Prelude.OrderedMap.{lookup, lookup_below, lookup-insert, lookup-erase}
use nycu_np.Server.Session.Invariant.{IsServing-Keeps, run_shell_loop-Serving}
use nycu_np.Server.Session.Welcome.{greet, serve-greet}
use nycu_np.Server.Session.{Ready, connects, sends_line, serve, run_shell_loop}
use nycu_np.Server.State.{
  UserInfo, Server, find_user, get_serving_user_id, deref, or_zero, login_msg, logout_msg,
}
use nycu_np.Server.Tables.{IsServing}
use nycu_np.Server.UserPipe.Serving.{deref-eq}
use nycu_np.Server.Users.Ids.{IsConsistent, min_key_from-IsSmallestFree, place_user-IsConsistent}
use nycu_np.Server.Users.Leave.{remove_user-Removed}
use nycu_np.Server.Users.{
  add_user, min_key, broadcast_message, remove_user, erase_user, connected_user,
  delete_shm_user_fifo,
}
use nycu_np.Shell.Kernel.{Kernel, Log, running, pure}
use nycu_np.Shell.Run.Post.{Post, Post-bind, Post-seq}

abbrev pub Tables : Server → Log → Type 0
Tables sv l = IsServing sv

abbrev Looped : Server × Bool → Log → Type 0
Looped r l = IsServing r.0

pub add_user-IsServing :
    (ip : Bytes) (port sock : ℕ) (pid : ℤ) (sv : Server) (l : Log)
    → lookup sock sv.sock_id_table ≡ none
    → IsServing sv
    → Post Tables (add_user ip port sock pid sv l)
unfolding add_user min_key
add_user-IsServing ip port sock pid sv l fresh v = record {
  consistent =
      place_user-IsConsistent (min_key sv.users) (connected_user ip port sock pid) sv v.consistent
        (unfold min_key in min_key_from-IsSmallestFree 1 sv.users v.consistent.ids_ascend) fresh;
  all_connected = λ i u e. ground (
    arith,
    lookup-insert (min_key sv.users) i (connected_user ip port sock pid) sv.users,
    v.all_connected i u,
  );
}

-- A descriptor that leads to a user is in the table.
sock_there :
    (sock : ℕ) (user : UserInfo) (sv : Server)
    → IsConsistent sv
    → (r : Option ℕ) → lookup sock sv.sock_id_table ≡ r
    → find_user sv (or_zero r) ≡ some user
    → lookup sock sv.sock_id_table ≡ some (or_zero r)
sock_there sock user sv v none e found = ground (arith, lookup_below 1 0 sv.users v.ids_ascend)
sock_there sock user sv v (some id) e found = e

pub remove_user-IsServing :
    (sock : ℕ) (sv : Server) (l : Log) → IsServing sv → Post Tables (remove_user sock sv l)
unfolding remove_user get_serving_user_id
remove_user-IsServing sock sv l v =
    let id = get_serving_user_id sv sock in
    Post-bind (λ u l'. find_user sv id ≡ some u) Tables (deref (find_user sv id) _) _
      (deref-eq (find_user sv id) _)
      λ user l₁ found. Post-seq Tables (delete_shm_user_fifo id _) _ λ done l₂.
        Post-seq Tables (broadcast_message (logout_msg user.name) (erase_user id sock sv) _) _
          λ sent l₃. record {
            consistent =
                (remove_user-Removed sock id user sv l v.consistent
                  (sock_there sock user sv v.consistent (lookup sock sv.sock_id_table) refl found)
                  found).0.consistent;
            all_connected = λ i u e.
                ground (
                  arith,
                  lookup-erase 1 id i sv.users v.consistent.ids_ascend,
                  v.all_connected i u,
                );
          }

module _ (k : Kernel) (uninit : ℤ) where
  greet-IsServing :
      (ip : Bytes) (port sock : ℕ) (sv : Server) (l : Log) (new : Server) (l' : Log)
      → IsServing new
      → Post Tables (greet k uninit ip port sock sv l new l')
  unfolding greet
  greet-IsServing ip port sock sv l new l' v =
      Post-seq Tables (deref (find_user new (get_serving_user_id new sock)) _) _
        λ u l₁. Post-seq Tables (broadcast_message (login_msg u.name ip port) new l₁) _ λ sent l₂. v

  -- What `accept` and `select` report: a connection comes with a descriptor that is not in use.
  abbrev pub IsPossible : Ready → Server → Type 0
  IsPossible (connects ip port sock) sv = lookup sock sv.sock_id_table ≡ none
  IsPossible (sends_line fd text) sv = Unit

  pub serve-IsServing :
      (r : Ready) (sv : Server) (l : Log)
      → IsPossible r sv
      → IsServing sv
      → Post Tables (serve k uninit r sv l)
  serve-IsServing (connects ip port sock) sv l fresh v =
      rw (serve-greet k uninit ip port sock sv l) (
        Post-bind Tables Tables (add_user ip port sock (negsuc 0) sv l)
          (greet k uninit ip port sock sv l)
          (add_user-IsServing ip port sock (negsuc 0) sv l fresh v)
          (greet-IsServing ip port sock sv l))
  serve-IsServing (sends_line fd text) sv l possible v =
      unfold serve in
      Post-bind Looped Tables (run_shell_loop k uninit fd text sv l) _
        (run_shell_loop-Serving IsServing IsServing-Keeps k uninit fd text sv l v) (stays fd)
    where
      stays :
          (fd : ℕ) (r : Server × Bool) (l' : Log)
          → Looped r l'
          → Post Tables ((if r.1 then pure r.0 else remove_user fd r.0) l')
      stays fd (sv', true) l' w = w
      stays fd (sv', false) l' w = remove_user-IsServing fd sv' l' w

-- The server before anybody has connected.
abbrev pub IsNew : Server → Type 0
IsNew sv = (sv.users ≡ []) × (sv.sock_id_table ≡ [])

-- A server, and the calls it has made, after some requests, each one possible when it comes and
-- each one gone on from.
pub data Reach (k : Kernel) (uninit : ℤ) : Server → Log → Type 0 where
  start : {sv : Server} {l : Log} → IsNew sv → Reach k uninit sv l
  later :
      {sv sv' : Server} {l l' : Log}
      → Reach k uninit sv l
      → (r : Ready) → IsPossible k uninit r sv
      → serve k uninit r sv l ≡ running sv' l'
      → Reach k uninit sv' l'

pub IsNew-IsServing : (sv : Server) → IsNew sv → IsServing sv
IsNew-IsServing sv (nobody, unused) = record {
  consistent = record {
    ids_ascend = rw nobody tt;
    socks_ascend = rw unused tt;
    sock_leads = λ id u e. absurd (no_user id u (rw nobody at e));
    user_there = λ sock id e. absurd (no_user sock id (rw unused at e));
  };
  all_connected = λ i u e. absurd (no_user i u (rw nobody at e));
}
  where
    no_user : {A : Type 0} (key : ℕ) (a : A) → lookup key [] ≡ some a → ⊥
    no_user key a e = cc

-- In every server that any sequence of connections and lines leads to, from one that nobody has
-- connected to, the ids and the sockets of the users are in order: the two tables agree, the ids
-- start at 1 and ascend, and every user is connected.
Reach-IsServing :
    {k : Kernel} {uninit : ℤ} {sv : Server} {l : Log} → Reach k uninit sv l → IsServing sv
Reach-IsServing (start new) = IsNew-IsServing _ new
Reach-IsServing {k} {uninit} (later {sv = sv} {l = l} before r possible goes) =
    subst (Post Tables) goes (serve-IsServing k uninit r sv l possible (Reach-IsServing before))
