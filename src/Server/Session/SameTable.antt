-- ===== src/Server/Session/SameTable.antt =====
-- A client's line leaves the table of sockets as it is.
use nycu_np.Prelude.{ℕ, Bytes, ℤ, List, ◌≡◌, Bool-cases, inl, inr}
use nycu_np.Server.Messages.{name, name_exists, set_name, copy_name}
use nycu_np.Server.Session.Invariant.{Keeps, run_shell_loop-Serving}
use nycu_np.Server.Session.{run_shell_loop}
use nycu_np.Server.State.{Server, find_user, put_user, deref, name_msg}
use nycu_np.Server.UserPipe.{
  writing, reading, Found, no_user, no_pipe_yet, has_pipe, user_not_exist, pipe_err, set_pipe,
  id_of, handle_user_pipe, handle_user_pipe_error, piped_msg, received_msg, write_found, read_found,
  write_user_pipe, read_user_pipe,
}
use nycu_np.Server.Users.{broadcast_message}
use nycu_np.Shell.Kernel.{Kernel, Log, Pipe}
use nycu_np.Shell.Pipes.{create, close_pipe}
use nycu_np.Shell.Run.Post.{Post, Post-seq}

module _ (table : List (ℕ × ℕ)) where
  abbrev pub IsSameTable : Server → Type 0
  IsSameTable sv = sv.sock_id_table ≡ table

  abbrev Same : Server × Pipe → Log → Type 0
  Same r l = IsSameTable r.0

  name-Same :
      (id : ℕ) (wanted : Bytes) (sv : Server) (l : Log)
      → IsSameTable sv
      → Post (λ sv' l'. IsSameTable sv') (name id wanted sv l)
  unfolding name set_name
  name-Same id wanted sv l same = elim (Bool-cases (name_exists wanted sv.users)) [
    | inl taken ↦ rw taken same
    | inr free ↦ rw free (
        Post-seq (λ sv' l'. IsSameTable sv') (deref (find_user sv id) l) _
          λ me l₁.
            Post-seq (λ sv' l'. IsSameTable sv') (copy_name wanted me l₁) _
              λ w l₂.
                Post-seq (λ sv' l'. IsSameTable sv')
                  (broadcast_message (name_msg w.ip w.port wanted) (put_user id w sv) l₂) _
                  (λ sent l₃. same))
  ]

  write_found-Same :
      (k : Kernel) (id : ℕ) (uid : ℤ) (text : Bytes) (curr : Pipe) (sv : Server) (f : Found)
      (l : Log)
      → IsSameTable sv
      → Post Same (write_found k id uid text curr sv f l)
  unfolding write_found
  write_found-Same k id uid text curr sv no_user l same =
      Post-seq Same (handle_user_pipe_error k id uid writing user_not_exist l) _ (λ fd l'. same)
  write_found-Same k id uid text curr sv (has_pipe u) l same =
      Post-seq Same (handle_user_pipe_error k id uid writing pipe_err l) _ (λ fd l'. same)
  write_found-Same k id uid text curr sv (no_pipe_yet u) l same =
      Post-seq Same (deref (find_user sv id) l) _ λ me l₁. Post-seq Same (create k l₁) _ λ made l₂.
        Post-seq Same
          (broadcast_message (piped_msg me id u (id_of uid) text)
            (put_user (id_of uid) (set_pipe id made u) sv) l₂)
          _ (λ sent l₃. same)

  read_found-Same :
      (k : Kernel) (id : ℕ) (uid : ℤ) (text : Bytes) (curr : Pipe) (sv : Server) (f : Found)
      (l : Log)
      → IsSameTable sv
      → Post Same (read_found k id uid text curr sv f l)
  unfolding read_found
  read_found-Same k id uid text curr sv no_user l same =
      Post-seq Same (handle_user_pipe_error k id uid reading user_not_exist l) _ (λ fd l'. same)
  read_found-Same k id uid text curr sv (no_pipe_yet u) l same =
      Post-seq Same (handle_user_pipe_error k id uid reading pipe_err l) _ (λ fd l'. same)
  read_found-Same k id uid text curr sv (has_pipe u) l same =
      Post-seq Same (deref (find_user sv id) l) _ λ me l₁.
        Post-seq Same (broadcast_message (received_msg me id u (id_of uid) text) sv l₁) _
          λ sent l₂. Post-seq Same (close_pipe (me.user_pipes (id_of uid)) _) _ (λ closed l₃. same)

  IsSameTable-Keeps : Keeps IsSameTable
  unfolding write_user_pipe read_user_pipe
  IsSameTable-Keeps = record {
    sets_env = λ f sv same. same;
    renames = name-Same;
    writes = λ k id uid text curr sv l same.
        Post-seq Same (handle_user_pipe id uid writing sv l) _
          (λ f l'. write_found-Same k id uid text curr sv f l' same);
    reads = λ k id uid text curr sv l same.
        Post-seq Same (handle_user_pipe id uid reading sv l) _
          (λ f l'. read_found-Same k id uid text curr sv f l' same);
    stores = λ id u w sv there like same. same;
  }

  pub run_shell_loop-Same :
      (k : Kernel) (uninit : ℤ) (fd : ℕ) (text : Bytes) (sv : Server) (l : Log)
      → IsSameTable sv
      → Post (λ r l'. IsSameTable r.0) (run_shell_loop k uninit fd text sv l)
  run_shell_loop-Same = run_shell_loop-Serving IsSameTable IsSameTable-Keeps
