-- ===== src/Examples/Fifo.antt =====
-- What is proved of the pipes between users of the server of processes, at two users and a kernel
-- whose files are those that its calls have made.
use nycu_np.Prelude.{
  Bool, true, false, ◌==◌, if◌then◌else◌, [], ◌∷◌, Option, none, some, Bytes, codes, pos, ◌≡◌, refl,
  ap, arith, equal, to_string,
}
use nycu_np.Server.Fifo.{got, failed, Reads, FifoServer, fifo, write_user_pipe}
use nycu_np.Server.Fifo.Open.{last_change, KeepsFiles, IsPlace}
use nycu_np.Server.Fifo.Exchange.{after_write, write_user_pipe_once}
use nycu_np.Server.Shared.{SharedUser, cleared}
use nycu_np.Server.UserPipe.{writing, pipe_taken_msg}
use nycu_np.Server.UserPipe.Exchange.{refused}
use nycu_np.Shell.Kernel.{Kernel, Log, access, mkfifo, unlink, running}
use nycu_np.Shell.Pipes.{no_pipe, minus_one, set_fds}

abbrev or_false : Option Bool → Bool
or_false none = false
or_false (some there) = there

file_there : Log → Bool
file_there (access name ∷ l) = or_false (last_change (λ m. true) name l)
file_there l = false

abbrev kernel : Kernel
kernel = record {
  pipe_fds = λ l. some (20, 21);
  open_fd = λ l. pos 22;
  dup_fd = λ l. pos 23;
  fork_pid = λ l. pos 24;
  file_exists = file_there;
  makes_fifo = λ l. true;
  exec_fails = λ l. false;
}

kernel-KeepsFiles : KeepsFiles kernel
unfolding file_there
kernel-KeepsFiles name l there e = ap or_false e

-- Two reads, and the error of a file that has no more bytes yet.
abbrev reads : Reads
reads = record {
  capacity = 65536;
  pipe_ends = λ l. some (30, 31);
  yields = λ l. got (codes "hello ") ∷ got (codes "world") ∷ failed ∷ [];
}

abbrev connected : Bytes → SharedUser
connected name = record cleared { name = name; is_connected = true }

abbrev users : FifoServer
users = record {
  shared = record {
    users = λ i. if i == 1 then connected (codes "ann") else connected (codes "bob");
    signalled = λ i. false;
    handling = λ i. false;
    shown = λ i. [];
  };
  user_pipes = λ i j. no_pipe;
}

second : IsPlace users.shared 2
second = record { at_least = omega arith; at_most = omega arith; is_there = refl }

abbrev command : Bytes
command = codes "echo hello world >2"

-- The calls by which the file has come, and gone.
abbrev with_file : Log
with_file = mkfifo (fifo 1 2) ∷ []

abbrev without_file : Log
without_file = unlink (fifo 1 2) ∷ with_file

write_user_pipe_once_example :
    let asked = access (fifo 1 2) ∷ with_file in
    (l' : Log) × (write_user_pipe kernel 1 (pos 2) command no_pipe (pos 0) users []
      ≡ running
          (after_write 1 2 command (pos 0) (pos 22) users, set_fds minus_one (pos 23) no_pipe)
          l')
    × (last_change kernel.makes_fifo (fifo 1 2) l' ≡ some true)
    × (write_user_pipe kernel 1 (pos 2) command no_pipe (pos 0) users with_file
        ≡ running
            (users, set_fds minus_one (pos 22) no_pipe)
            (refused (pipe_taken_msg 1 (pos 2)) writing asked))
unfolding file_there equal to_string
write_user_pipe_once_example =
    write_user_pipe_once kernel 1 2 command command no_pipe no_pipe (pos 0) (pos 0) users users []
      with_file kernel-KeepsFiles second second refl refl refl
