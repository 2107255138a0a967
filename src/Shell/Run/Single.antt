-- ===== src/Shell/Run/Single.antt =====
-- A line of one program: every call that the shell makes for it.
use nycu_np.Prelude.{
  ℕ, false, if◌then◌else◌, List, [], ◌∷◌, ◌++◌, some, Bytes, ℤ, pos, is_positive, ◌≡◌, Bool-cases,
  inl, inr,
}
use nycu_np.Shell.Command.{exe_command, NpCommandLine}
use nycu_np.Shell.Kernel.{Kernel, Log, Pipe, running, fork, pipe2, waitpid}
use nycu_np.Shell.Pipes.Close.{closes, close_pipe-closes}
use nycu_np.Shell.Pipes.{create, no_pipe}
use nycu_np.Shell.Ring.{next, front}
use nycu_np.Shell.Run.{
  Shell, UserPipes, run_line, is_zero, open_next, start_program, run_commands, wait_for,
  fork_program, end_line, read_users,
}

abbrev waits : ℤ → Log → Log
waits pid l = if is_zero pid then l else waitpid pid ∷ l

-- The log after the program has been forked.
abbrev pub forked_log : Shell → List Bytes → Pipe → Log → Log
forked_log sh argv p l =
    fork (record { prev_pipe = p; curr_pipe = p; pipe_err = false; argv = argv })
    ∷ (closes sh.prev_pipe ++ (pipe2 ∷ l))

module _ {H : Type 0} (k : Kernel) (users : UserPipes H) (id : ℤ) (text : Bytes)
    (argv : List Bytes) where
  -- A line of one program that reads from no user makes these calls and no other, where the system
  -- grants the `eol` pipe: it is made; the old pipe of the shell is closed; the program is forked
  -- with the pipe of this line's turn as both its ends; the process before the last is waited for,
  -- if there is one; the pipe is closed, the program waited for, and the pipe closed once more. The
  -- shell keeps the descriptors of the `eol` pipe.
  pub run_line_single :
      (line : NpCommandLine) (h : H) (sh : Shell) (l : Log) (i o : ℕ)
      → line.np_commands ≡ exe_command argv ∷ []
      → is_positive line.read_uid ≡ false
      → k.pipe_fds (pipe2 ∷ l) ≡ some (i, o)
      → let p = front (next sh.number_pipe_list) in
        let forked = forked_log sh argv p l in
        let pid = k.fork_pid forked in
        run_line k users id text line h sh l
        ≡ running
            (
              h,
              record {
                number_pipe_list = next sh.number_pipe_list;
                curr_pipe = no_pipe;
                prev_pipe = no_pipe;
                eol = record { input = pos i; output = pos o };
                older_pid = sh.newer_pid;
                newer_pid = pid;
                is_running = sh.is_running;
              },
            )
            (closes p ++ (waitpid pid ∷ (closes p ++ waits sh.older_pid forked)))
  unfolding run_line create read_users start_program fork_program open_next wait_for end_line
      run_commands
  run_line_single line h sh l i o e u f =
      let p = front (next sh.number_pipe_list) in
      rw (e, u, f, close_pipe-closes sh.prev_pipe (pipe2 ∷ l))
        (elim (Bool-cases (is_zero sh.older_pid)) [
          | inl none_yet ↦ rw none_yet (rw (close_pipe-closes p _) (rw (close_pipe-closes p _)))
          | inr waited ↦ rw waited (rw (close_pipe-closes p _) (rw (close_pipe-closes p _)))
        ])
