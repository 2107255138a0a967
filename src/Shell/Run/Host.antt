-- ===== src/Shell/Run/Host.antt =====
-- What the server's part keeps true of the server, every run of the shell keeps true.
use nycu_np.Prelude.{Bool, List, [], ◌∷◌, Bytes, ℤ, is_positive, Bool-cases, inl, inr}
use nycu_np.Shell.Command.{
  Command, exe_command, pipe_command, file_command, numbered_pipe_command, user_pipe_command,
  NpCommandLine, create_pipe,
}
use nycu_np.Shell.Kernel.{Kernel, Log, Pipe}
use nycu_np.Shell.Pipes.{create, close_pipe}
use nycu_np.Shell.Run.Post.{Post, Post-bind, Post-seq}
use nycu_np.Shell.Run.{
  Shell, UserPipes, open_next, start_program, wait_for, fork_program, run_commands, is_zero,
  read_users, end_line, run_line, run_lines,
}

pub record KeepsHost {H : Type 0} (users : UserPipes H) (P : H → Type 0) : Type 0 where
  pub reads :
      (id uid : ℤ) (p : Pipe) (text : Bytes) (other : ℤ) (h : H) (l : Log)
      → P h
      → Post (λ r l'. P r.0) (users.read_user_pipe id uid p text other h l)
  pub writes :
      (id uid : ℤ) (p : Pipe) (text : Bytes) (other : ℤ) (h : H) (l : Log)
      → P h
      → Post (λ r l'. P r.0) (users.write_user_pipe id uid p text other h l)

module _ {H : Type 0} (k : Kernel) (users : UserPipes H) (P : H → Type 0)
    (keeps : KeepsHost users P) (id : ℤ) (text : Bytes) where
  module _ (line : NpCommandLine) where
    open_next_host :
        (rest : List Command) (h : H) (sh : Shell) (l : Log)
        → P h
        → Post (λ r l'. P r.0) (open_next k users id text line rest h sh l)
    unfolding open_next
    open_next_host [] h sh l p = p
    open_next_host (exe_command argv ∷ rest) h sh l p = tt
    open_next_host (pipe_command ∷ rest) h sh l p = Post-seq _ (create_pipe k _ _ _ l) _ (λ r l'. p)
    open_next_host (file_command name ∷ rest) h sh l p =
        Post-seq _ (create_pipe k _ _ _ l) _ (λ r l'. p)
    open_next_host (numbered_pipe_command n e ∷ rest) h sh l p =
        Post-seq _ (create_pipe k _ _ _ l) _ (λ r l'. p)
    open_next_host (user_pipe_command ∷ rest) h sh l p =
        elim (Bool-cases (is_positive line.write_uid)) [
          | inl asked ↦ rw asked (
              Post-bind (λ r l'. P r.0) _ _ _
                (keeps.writes id line.write_uid sh.curr_pipe text line.read_uid h l p)
                (λ r l' q. q))
          | inr other ↦ rw other p
        ]

    fork_program_host :
        (argv : List Bytes) (r : H × Shell × Bool) (l : Log)
        → P r.0
        → Post (λ r' l'. P r'.0) (fork_program k argv r l)
    unfolding fork_program wait_for
    fork_program_host argv r l p = elim (Bool-cases (is_zero r.1.older_pid)) [
      | inl none_yet ↦ rw none_yet p
      | inr waited ↦ rw waited p
    ]

    start_program_host :
        (argv : List Bytes) (rest : List Command) (h : H) (sh : Shell) (l : Log)
        → P h
        → Post (λ r l'. P r.0) (start_program k users id text line argv rest h sh l)
    unfolding start_program
    start_program_host argv rest h sh l p = Post-seq _ (close_pipe sh.prev_pipe l) _ λ closed l'.
        Post-bind (λ r l''. P r.0) _ _ _
          (open_next_host rest h (record sh { prev_pipe = sh.curr_pipe }) l' p)
          λ r l'' q. fork_program_host argv r l'' q

    run_commands_host :
        (cmds : List Command) (h : H) (sh : Shell) (l : Log)
        → P h
        → Post (λ r l'. P r.0) (run_commands k users id text line cmds h sh l)
    unfolding run_commands
    run_commands_host [] h sh l p = p
    run_commands_host (exe_command argv ∷ rest) h sh l p =
        Post-bind (λ r l'. P r.0) (λ r l'. P r.0) _ _ (start_program_host argv rest h sh l p)
          (λ r l' q. run_commands_host rest r.0 r.1 l' q)
    run_commands_host (pipe_command ∷ rest) h sh l p = run_commands_host rest h sh l p
    run_commands_host (file_command name ∷ rest) h sh l p = run_commands_host rest h sh l p
    run_commands_host (numbered_pipe_command n e ∷ rest) h sh l p = run_commands_host rest h sh l p
    run_commands_host (user_pipe_command ∷ rest) h sh l p = run_commands_host rest h sh l p

    read_users_host :
        (h : H) (sh : Shell) (l : Log)
        → P h
        → Post (λ r l'. P r.0) (read_users k users id text line h sh l)
    unfolding read_users
    read_users_host h sh l p = elim (Bool-cases (is_positive line.read_uid)) [
      | inl asked ↦ rw asked (
          Post-bind (λ r l'. P r.0) _ _ _
            (keeps.reads id line.read_uid sh.curr_pipe text line.write_uid h l p) (λ r l' q. q))
      | inr other ↦ rw other p
    ]

    run_line_host :
        (h : H) (sh : Shell) (l : Log)
        → P h
        → Post (λ r l'. P r.0) (run_line k users id text line h sh l)
    unfolding run_line
    run_line_host h sh l p = Post-seq _ (create k l) _ λ eol l₁.
        Post-bind (λ r l'. P r.0) _ _ _ (read_users_host h _ l₁ p)
          λ r₁ l₂ p₁.
            Post-bind (λ r l'. P r.0) _ _ _ (run_commands_host line.np_commands r₁.0 r₁.1 l₂ p₁)
              λ r₂ l₃ p₂. Post-seq _ (close_pipe r₂.1.prev_pipe l₃) _ λ closed l₄.
                Post-seq _ (end_line k users id text line (record r₂.1 { prev_pipe = closed }) l₄) _
                  λ sh₃ l₅. p₂

  pub run_lines_host :
      (lines : List NpCommandLine) (h : H) (sh : Shell) (l : Log)
      → P h
      → Post (λ r l'. P r.0) (run_lines k users id text lines h sh l)
  unfolding run_lines
  run_lines_host [] h sh l p = p
  run_lines_host (line ∷ lines) h sh l p =
      Post-bind (λ r l'. P r.0) (λ r l'. P r.0) _ _ (run_line_host line h sh l p)
        (λ r l' q. run_lines_host lines r.0 r.1 l' q)
