-- ===== src/Server/UserPipe/Granted.antt =====
-- The server's part in a pipe to a user, as the shell asks for it.
use nycu_np.Prelude.{
  ℕ, ◌==◌, ◌<◌, ltb, lt→ltb, List, [], ◌∷◌, Option, none, some, Bytes, ℤ, ◌≡◌, refl, ◌∙◌, arith,
  Bool-cases, inl, inr, if◌then◌else◌,
}
use nycu_np.Prelude.OrderedMap.{lookup-insert}
use nycu_np.Server.State.{UserInfo, Server, find_user, find_uid, deref, put_user, max_conn}
use nycu_np.Server.UserPipe.{
  writing, Found, no_user, no_pipe_yet, has_pipe, above_max_conn, set_pipe, id_of, found_user,
  handle_user_pipe, piped_msg, write_found, write_user_pipe, handle_user_pipe_error,
}
use nycu_np.Server.Users.{broadcast_message, send_all}
use nycu_np.Shell.Kernel.{Kernel, Log, Pipe, dup}
use nycu_np.Shell.Pipes.{create, set_fds, minus_one}
use nycu_np.Shell.Run.Post.{Post, Post-bind}
use nycu_np.Shell.Run.Runs.{Returns, Returns-bind, Any, create-Returns}
use nycu_np.Shell.Run.Wiring.{children, create-children}

-- The client that is served is a user.
abbrev pub HasUser : ℕ → Server → Type 0
HasUser id sv = (u : UserInfo) × (find_user sv id ≡ some u)

send_all-Returns :
    (users : List (ℕ × UserInfo)) (msg : Bytes) (l : Log) → Returns Any (send_all users msg l)
unfolding send_all
send_all-Returns [] msg l = (_, _, refl, tt)
send_all-Returns ((id, u) ∷ rest) msg l = send_all-Returns rest msg _

abbrev Childless : {A : Type 0} → Log → A → Log → Type 0
Childless l a l' = children l' ≡ children l

send_all-children :
    (users : List (ℕ × UserInfo)) (msg : Bytes) (l : Log)
    → Post (Childless l) (send_all users msg l)
unfolding send_all
send_all-children [] msg l = refl
send_all-children ((id, u) ∷ rest) msg l = send_all-children rest msg _

module _ (k : Kernel) (id : ℕ) where
  abbrev Kept : Server × Pipe → Type 0
  Kept r = HasUser id r.0

  found_user-Returns :
      (uid : ℤ) (sv : Server) (o : Option UserInfo) (l : Log)
      → id < max_conn
      → Returns Any (found_user writing id uid sv o l)
  unfolding found_user
  found_user-Returns uid sv none l small = (_, _, refl, tt)
  found_user-Returns uid sv (some other) l small = rw (lt→ltb id max_conn small) (_, _, refl, tt)

  write_found-Returns :
      ((l : Log) → (i : ℕ) × (o : ℕ) × (k.pipe_fds l ≡ some (i, o)))
      → (uid : ℤ) (text : Bytes) (curr : Pipe) (sv : Server) (f : Found) (l : Log) → HasUser id sv
      → Returns Kept (write_found k id uid text curr sv f l)
  unfolding write_found handle_user_pipe_error broadcast_message
  write_found-Returns pipes uid text curr sv no_user l v = (_, _, refl, v)
  write_found-Returns pipes uid text curr sv (has_pipe u) l v = (_, _, refl, v)
  write_found-Returns pipes uid text curr sv (no_pipe_yet u) l (me, there) = rw there (
      Returns-bind Any Kept (create k l) _ (create-Returns k pipes l) λ made l₁ t.
        let sv' = put_user (id_of uid) (set_pipe id made u) sv in
        let msg = piped_msg me id u (id_of uid) text in
        Returns-bind Any Kept (send_all sv'.users msg l₁) _ (send_all-Returns sv'.users msg l₁)
          λ sent l₂ t'. (
            (sv', set_fds minus_one (k.dup_fd (dup made.output ∷ l₂)) curr),
            _,
            refl,
            elim (Bool-cases (id_of uid == id)) [
              | inl same ↦ (
                set_pipe id made u,
                ground (arith, lookup-insert (id_of uid) id (set_pipe id made u) sv.users),
              )
              | inr other ↦
                  (me, ground (arith, lookup-insert (id_of uid) id (set_pipe id made u) sv.users))
            ],
          ))

  -- A client that is a user, whose id is below the size of the arrays, writes to whatever user the
  -- line names, and is a user behind it.
  pub write_user_pipe-Returns :
      (uid : ℤ)
      → ((l : Log) → (i : ℕ) × (o : ℕ) × (k.pipe_fds l ≡ some (i, o)))
      → id < max_conn
      → (text : Bytes) (p : Pipe) (sv : Server) (l : Log) → HasUser id sv
      → Returns Kept (write_user_pipe k id uid text p sv l)
  unfolding write_user_pipe handle_user_pipe
  write_user_pipe-Returns uid pipes small text p sv l v =
      Returns-bind Any Kept _ _
        (found_user-Returns uid sv (if above_max_conn uid then none else find_uid sv uid) l small)
        (λ f l' t. write_found-Returns pipes uid text p sv f l' v)

  write_found-children :
      (uid : ℤ) (text : Bytes) (curr : Pipe) (sv : Server) (f : Found) (l₀ l : Log)
      → children l ≡ children l₀
      → Post (Childless l₀) (write_found k id uid text curr sv f l)
  unfolding write_found handle_user_pipe_error broadcast_message
  write_found-children uid text curr sv no_user l₀ l e = e
  write_found-children uid text curr sv (has_pipe u) l₀ l e = e
  write_found-children uid text curr sv (no_pipe_yet u) l₀ l e =
      Post-bind (Childless l₀) (Childless l₀) (deref (find_user sv id) l) _
        (deref-children (find_user sv id) l e)
        λ me l₁ e₁.
          Post-bind (Childless l₁) (Childless l₀) (create k l₁) _ (create-children k l₁)
            λ made l₂ e₂.
              let users = (put_user (id_of uid) (set_pipe id made u) sv).users in
              let msg = piped_msg me id u (id_of uid) text in
              Post-bind {B = Server × Pipe} (Childless l₂) (Childless l₀) (send_all users msg l₂) _
                (send_all-children users msg l₂) λ sent l₃ e₃. e₃ ∙ e₂ ∙ e₁
    where
      deref-children :
          (o : Option UserInfo) (l : Log)
          → children l ≡ children l₀
          → Post (Childless l₀) (deref o l)
      deref-children none l e = tt
      deref-children (some u) l e = e

  found_user-children :
      (uid : ℤ) (sv : Server) (o : Option UserInfo) (l : Log)
      → Post (Childless l) (found_user writing id uid sv o l)
  unfolding found_user
  found_user-children uid sv none l = refl
  found_user-children uid sv (some other) l = elim (Bool-cases (ltb id max_conn)) [
    | inl small ↦ rw small refl
    | inr large ↦ rw large tt
  ]

  -- Writing to a user forks nothing.
  pub write_user_pipe-children :
      (uid : ℤ) (text : Bytes) (p : Pipe) (sv : Server) (l : Log)
      → Post (λ r l'. children l' ≡ children l) (write_user_pipe k id uid text p sv l)
  unfolding write_user_pipe handle_user_pipe
  write_user_pipe-children uid text p sv l =
      Post-bind (Childless l) (Childless l) _ _
        (found_user-children uid sv (if above_max_conn uid then none else find_uid sv uid) l)
        (λ f l' e. write_found-children uid text p sv f l l' e)
