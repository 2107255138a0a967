-- ===== src/Server/UserPipe/Serving.antt =====
-- Requests for a pipe to or from a user keep the tables in order.
use nycu_np.Prelude.{ℕ, Option, none, some, Bytes, ℤ, pos, negsuc, ◌≡◌, refl, Bool-cases, inl, inr}
use nycu_np.Server.State.{UserInfo, Server, find_user, find_uid, put_user, deref}
use nycu_np.Server.Tables.{IsServing, IsSameUser, put_user-IsServing}
use nycu_np.Server.UserPipe.{
  Mode, writing, reading, Found, no_user, no_pipe_yet, has_pipe, user_not_exist, pipe_err, pipe_at,
  set_pipe, id_of, classify, found_user, above_max_conn, handle_user_pipe, handle_user_pipe_error,
  piped_msg, received_msg, write_found, read_found, write_user_pipe, read_user_pipe,
}
use nycu_np.Server.Users.{broadcast_message}
use nycu_np.Shell.Kernel.{Kernel, Log, Pipe}
use nycu_np.Shell.Pipes.{is_empty, create, close_pipe}
use nycu_np.Shell.Run.Post.{Post, Post-bind, Post-seq}

-- The user who is found is the one of that id.
abbrev IsFound : Server → ℤ → Found → Type 0
IsFound sv uid no_user = Unit {0}
IsFound sv uid (no_pipe_yet u) = find_user sv (id_of uid) ≡ some u
IsFound sv uid (has_pipe u) = find_user sv (id_of uid) ≡ some u

classify-IsFound :
    (sv : Server) (uid : ℤ) (u : UserInfo) (p : Pipe)
    → find_user sv (id_of uid) ≡ some u
    → IsFound sv uid (classify u p)
unfolding classify
classify-IsFound sv uid u p e = elim (Bool-cases (is_empty p)) [
  | inl free ↦ rw free e
  | inr full ↦ rw full e
]

find_uid-eq :
    (sv : Server) (uid : ℤ) (u : UserInfo)
    → find_uid sv uid ≡ some u
    → find_user sv (id_of uid) ≡ some u
find_uid-eq sv (pos n) u e = e
find_uid-eq sv (negsuc n) u e = cc

module _ (sv : Server) (id : ℕ) (uid : ℤ) where
  found_user-IsFound :
      (mode : Mode) (r : Option UserInfo) (l : Log)
      → ((u : UserInfo) → r ≡ some u → find_user sv (id_of uid) ≡ some u)
      → Post (λ f l'. IsFound sv uid f) (found_user mode id uid sv r l)
  unfolding found_user
  found_user-IsFound writing none l h = tt
  found_user-IsFound reading none l h = tt
  found_user-IsFound writing (some other) l h =
      Post-seq _ (pipe_at other id l) _ (λ p l'. classify-IsFound sv uid other p (h other refl))
  found_user-IsFound reading (some other) l h = Post-seq _ (deref (find_user sv id) l) _ λ me l'.
      Post-seq _ (pipe_at me (id_of uid) l') _
        (λ p l''. classify-IsFound sv uid other p (h other refl))

  handle_user_pipe-IsFound :
      (mode : Mode) (l : Log) → Post (λ f l'. IsFound sv uid f) (handle_user_pipe id uid mode sv l)
  unfolding handle_user_pipe
  handle_user_pipe-IsFound mode l = elim (Bool-cases (above_max_conn uid)) [
    | inl above ↦ rw above (found_user-IsFound mode none l (λ u e. cc))
    | inr within ↦
        rw within (found_user-IsFound mode (find_uid sv uid) l (λ u e. find_uid-eq sv uid u e))
  ]

set_pipe-IsSameUser : (i : ℕ) (p : Pipe) (u : UserInfo) → IsSameUser u (set_pipe i p u)
set_pipe-IsSameUser i p u = record { sock = refl; is_connected = refl }

-- `deref` goes on with the user who is there.
pub deref-eq : (r : Option UserInfo) (l : Log) → Post (λ u l'. r ≡ some u) (deref r l)
deref-eq none l = tt
deref-eq (some u) l = refl

module _ (k : Kernel) (id : ℕ) (uid : ℤ) (command : Bytes) (curr : Pipe) (sv : Server)
    (v : IsServing sv) where
  abbrev Serving : Server × Pipe → Log → Type 0
  Serving r l' = IsServing r.0

  write_found-IsServing :
      (f : Found) (l : Log)
      → IsFound sv uid f
      → Post Serving (write_found k id uid command curr sv f l)
  unfolding write_found
  write_found-IsServing no_user l h =
      Post-seq Serving (handle_user_pipe_error k id uid writing user_not_exist l) _ (λ fd l'. v)
  write_found-IsServing (has_pipe u) l h =
      Post-seq Serving (handle_user_pipe_error k id uid writing pipe_err l) _ (λ fd l'. v)
  write_found-IsServing (no_pipe_yet u) l h =
      Post-seq Serving (deref (find_user sv id) l) _ λ me l₁.
        Post-seq Serving (create k l₁) _ λ made l₂.
          Post-seq Serving
            (broadcast_message (piped_msg me id u (id_of uid) command)
              (put_user (id_of uid) (set_pipe id made u) sv) l₂)
            _
            λ sent l₃.
              put_user-IsServing (id_of uid) u (set_pipe id made u) sv h
                (set_pipe-IsSameUser id made u) v

  pub write_user_pipe-IsServing :
      (l : Log) → Post Serving (write_user_pipe k id uid command curr sv l)
  unfolding write_user_pipe
  write_user_pipe-IsServing l =
      Post-bind (λ f l'. IsFound sv uid f) Serving _ _
        (handle_user_pipe-IsFound sv id uid writing l) write_found-IsServing'
    where
      write_found-IsServing' :
          (f : Found) (l' : Log)
          → IsFound sv uid f
          → Post Serving (write_found k id uid command curr sv f l')
      write_found-IsServing' f l' h = write_found-IsServing f l' h

  read_found-IsServing :
      (f : Found) (l : Log) → Post Serving (read_found k id uid command curr sv f l)
  unfolding read_found
  read_found-IsServing no_user l =
      Post-seq Serving (handle_user_pipe_error k id uid reading user_not_exist l) _ (λ fd l'. v)
  read_found-IsServing (no_pipe_yet u) l =
      Post-seq Serving (handle_user_pipe_error k id uid reading pipe_err l) _ (λ fd l'. v)
  read_found-IsServing (has_pipe u) l =
      Post-bind (λ me l'. find_user sv id ≡ some me) Serving _ _ (deref-eq (find_user sv id) l)
        λ me l₁ mine.
          Post-seq Serving (broadcast_message (received_msg me id u (id_of uid) command) sv l₁) _
            λ sent l₂. Post-seq Serving (close_pipe (me.user_pipes (id_of uid)) _) _ λ closed l₃.
              put_user-IsServing id me (set_pipe (id_of uid) closed me) sv mine
                (set_pipe-IsSameUser (id_of uid) closed me) v

  pub read_user_pipe-IsServing :
      (l : Log) → Post Serving (read_user_pipe k id uid command curr sv l)
  unfolding read_user_pipe
  read_user_pipe-IsServing l =
      Post-seq Serving (handle_user_pipe id uid reading sv l) _ read_found-IsServing
