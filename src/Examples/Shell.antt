-- ===== src/Examples/Shell.antt =====
-- A ring, some command lines, and what is proved of the shell at them.
use nycu_np.Prelude.{
  ℕ, suc, true, false, List, [], ◌∷◌, ◌++◌, some, Bytes, codes, pos, All, ◌≡◌, refl, is_space,
  equal,
}
use nycu_np.Shell.Command.{exe_command, pipe_command, NpCommandLine, empty_line}
use nycu_np.Shell.Kernel.{Kernel, running, waitpid, pure}
use nycu_np.Shell.Parse.Pieces.{text}
use nycu_np.Shell.Parse.Pipelines.{IsProgram, pieces, parse_command-text}
use nycu_np.Shell.Parse.Shape.{IsRunnable, parse_command-IsRunnable}
use nycu_np.Shell.Parse.Total.{parse_command_total}
use nycu_np.Shell.Parse.{Builtins, parse_command}
use nycu_np.Shell.Pipes.Close.{closes}
use nycu_np.Shell.Pipes.{no_pipe}
use nycu_np.Shell.Ring.{CircularBuffer, empty_buffer, front, next}
use nycu_np.Shell.Run.Single.{forked_log, run_line_single}
use nycu_np.Shell.Run.{UserPipes, new_shell, run_line}

abbrev ring : CircularBuffer ℕ
ring = empty_buffer 0

-- A host that counts the built-in commands.
abbrev builtins : Builtins ℕ
builtins = record {
  exit = λ h. suc h;
  printenv = λ var h. suc h;
  setenv = λ var val h. suc h;
  who = λ h. suc h;
  tell = λ uid msg h. suc h;
  yell = λ msg h. suc h;
  name = λ new_name h. suc h;
}

abbrev ls : List Bytes
ls = codes "ls" ∷ []

abbrev cat : List Bytes
cat = codes "cat" ∷ codes "-n" ∷ []

ls-IsProgram : IsProgram ls
unfolding is_space equal
ls-IsProgram =
    (λ e. cc, (record { has_byte = λ e. cc; no_space = (refl, (refl, tt)); ordinary = refl }, tt))

cat-IsProgram : IsProgram cat
unfolding is_space equal
cat-IsProgram = (
  λ e. cc,
  (
    record { has_byte = λ e. cc; no_space = (refl, (refl, (refl, tt))); ordinary = refl },
    (record { has_byte = λ e. cc; no_space = (refl, (refl, tt)); ordinary = refl }, tt),
  ),
)

parse_command-text_example :
    parse_command builtins (pos 0) (text (pieces ls (cat ∷ []))) 0
    ≡ some (
      record empty_line { np_commands = exe_command ls ∷ pipe_command ∷ exe_command cat ∷ [] } ∷ [],
      0,
    )
parse_command-text_example =
    parse_command-text builtins (pos 0) ls (cat ∷ []) 0 ls-IsProgram (cat-IsProgram, tt)

parse_command_total_example :
    (r : List NpCommandLine × ℕ) × (parse_command builtins (pos 0) (codes "ls |2 cat > f") 0
      ≡ some r)
parse_command_total_example = parse_command_total builtins (pos 0) (codes "ls |2 cat > f") 0

abbrev ls_line : NpCommandLine
ls_line = record empty_line { np_commands = exe_command ls ∷ [] }

parse_command-IsRunnable_example : All IsRunnable (ls_line ∷ [])
parse_command-IsRunnable_example =
    parse_command-IsRunnable builtins (pos 0) (text (pieces ls [])) 0 (ls_line ∷ []) 0
      (parse_command-text builtins (pos 0) ls [] 0 ls-IsProgram tt)

abbrev kernel : Kernel
kernel = record {
  pipe_fds = λ l. some (20, 21);
  open_fd = λ l. pos 22;
  dup_fd = λ l. pos 23;
  fork_pid = λ l. pos 24;
  file_exists = λ l. false;
  makes_fifo = λ l. true;
  exec_fails = λ l. false;
}

-- A server without users.
abbrev nobody : UserPipes ℕ
nobody = record {
  read_user_pipe = λ id uid p line other h. pure (h, p);
  write_user_pipe = λ id uid p line other h. pure (h, p);
}

run_line_single_example :
    let p = front (next new_shell.number_pipe_list) in
    let forked = forked_log new_shell ls p [] in
    run_line kernel nobody (pos 1) [] ls_line 0 new_shell []
    ≡ running
        (
          0,
          record {
            number_pipe_list = next new_shell.number_pipe_list;
            curr_pipe = no_pipe;
            prev_pipe = no_pipe;
            eol = record { input = pos 20; output = pos 21 };
            older_pid = pos 0;
            newer_pid = pos 24;
            is_running = true;
          },
        )
        (closes p ++ (waitpid (pos 24) ∷ (closes p ++ forked)))
run_line_single_example =
    run_line_single kernel nobody (pos 1) [] ls ls_line 0 new_shell [] 20 21 refl refl refl
