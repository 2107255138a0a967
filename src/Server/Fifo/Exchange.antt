-- ===== src/Server/Fifo/Exchange.antt =====
-- A pipe from one user to another, through a file: written, refused while it is there, read once.
use nycu_np.Prelude.{
  ℕ, true, false, if◌then◌else◌, List, ◌∷◌, some, Bytes, ℤ, pos, ◌≡◌, refl, ap, ◌∙◌,
}
use nycu_np.Server.Fifo.{
  FifoServer, set_pipe, fifo, piped_msg, announce, write_found, write_user_pipe, is_none,
}
use nycu_np.Server.Fifo.Drain.{passed_on}
use nycu_np.Server.Fifo.Open.{
  last_change, KeepsFiles, IsPlace, made, found, set_pipe_get, equal_self, handle_writing,
  open_taken, open_made,
}
use nycu_np.Server.UserPipe.{pipe_taken_msg, writing, handle_user_pipe_error}
use nycu_np.Server.UserPipe.Exchange.{refused}
use nycu_np.Shell.Kernel.{Kernel, Log, Pipe, access, mkfifo, unlink, dup, running, bind_outcome}
use nycu_np.Shell.Pipes.{minus_one, set_fds}

-- The receiver's record has the descriptor of the file, and everyone is told, where the line reads
-- from no user.
abbrev pub after_write : ℕ → ℕ → Bytes → ℤ → ℤ → FifoServer → FifoServer
after_write id uid command other fd st =
    let st' = set_pipe uid id (record (st.user_pipes uid id) { output = fd }) st in
    if is_none other then announce (piped_msg id uid command st.shared) st' else st'

module _ (k : Kernel) (id uid : ℕ) (command : Bytes) (curr : Pipe) (other : ℤ) (st : FifoServer)
    (l : Log) (place : IsPlace st.shared uid) where
  -- A pipe to a user who is there, to whom there is one: the client reads so, its program writes to
  -- /dev/null, and the server stays as it was.
  write_user_pipe-refused :
      k.file_exists (access (fifo id uid) ∷ l) ≡ true
      → let asked = access (fifo id uid) ∷ l in
        write_user_pipe k id (pos uid) command curr other st l
        ≡ running
            (
              st,
              set_fds minus_one
                  (k.open_fd (refused (pipe_taken_msg id (pos uid)) writing asked))
                  curr,
            )
            (refused (pipe_taken_msg id (pos uid)) writing asked)
  unfolding write_user_pipe write_found handle_user_pipe_error
  write_user_pipe-refused there =
      ap (λ m. bind_outcome m (write_found k id (pos uid) command curr other))
        (handle_writing k id uid st l place ∙ open_taken k (fifo id uid) uid id st l there)

  write_user_pipe-made :
      k.file_exists (access (fifo id uid) ∷ l) ≡ false
      → let fd = k.open_fd (made (fifo id uid) l) in
        write_user_pipe k id (pos uid) command curr other st l
        ≡ running
            (
              after_write id uid command other fd st,
              set_fds minus_one (k.dup_fd (dup fd ∷ made (fifo id uid) l)) curr,
            )
            (dup fd ∷ made (fifo id uid) l)
  unfolding write_user_pipe write_found
  write_user_pipe-made absent =
      let fd = k.open_fd (made (fifo id uid) l) in
      ap (λ m. bind_outcome m (write_found k id (pos uid) command curr other))
        (handle_writing k id uid st l place ∙ open_made k (fifo id uid) uid id st l absent)
      ∙ ap
          (λ (p : Pipe).
            running
              (
                after_write id uid command other fd st,
                set_fds minus_one (k.dup_fd (dup p.output ∷ made (fifo id uid) l)) curr,
              )
              (dup p.output ∷ made (fifo id uid) l))
          (set_pipe_get uid id (record (st.user_pipes uid id) { output = fd }) st)

-- The calls of a read that ends: the texts go through a pipe, and the file is removed.
abbrev pub received : ℤ → ℕ → ℕ → List Bytes → Bytes → Log → Log
received fd in_end out_end texts name l =
    dup fd ∷ unlink name ∷ passed_on fd in_end out_end texts (found name l)

-- The reader's record has the descriptor of the file, and everyone is told.
abbrev pub after_read : ℕ → ℕ → Bytes → ℤ → FifoServer → FifoServer
after_read id uid msg fd st =
    announce msg (set_pipe id uid (record (st.user_pipes id uid) { input = fd }) st)

-- A user writes to another, there being no file between them yet and `mkfifo` succeeding, and writes again, at any time
-- while the file that this makes is there, whatever has happened to the server since: the first
-- write makes the file, gives its descriptor to the receiver's record and tells everyone, unless the
-- line reads from a user too; the second is refused by the text and /dev/null, and the server stays
-- as it was.
pub write_user_pipe_once :
    (k : Kernel) (id uid : ℕ) (command command₂ : Bytes) (curr curr₂ : Pipe) (other other₂ : ℤ)
    (st st₂ : FifoServer) (l l₂ : Log)
    → KeepsFiles k
    → IsPlace st.shared uid
    → IsPlace st₂.shared uid
    → k.file_exists (access (fifo id uid) ∷ l) ≡ false
    → k.makes_fifo (mkfifo (fifo id uid) ∷ access (fifo id uid) ∷ l) ≡ true
    → last_change k.makes_fifo (fifo id uid) l₂ ≡ some true
    → let asked = access (fifo id uid) ∷ l₂ in
      (l' : Log) × (write_user_pipe k id (pos uid) command curr other st l
        ≡ running
            (
              after_write id uid command other (k.open_fd (made (fifo id uid) l)) st,
              set_fds minus_one (k.dup_fd l') curr,
            )
            l')
      × (last_change k.makes_fifo (fifo id uid) l' ≡ some true)
      × (write_user_pipe k id (pos uid) command₂ curr₂ other₂ st₂ l₂
          ≡ running
              (
                st₂,
                set_fds minus_one
                    (k.open_fd (refused (pipe_taken_msg id (pos uid)) writing asked))
                    curr₂,
              )
              (refused (pipe_taken_msg id (pos uid)) writing asked))
write_user_pipe_once k id uid command command₂ curr curr₂ other other₂ st st₂ l l₂ files place
      place₂ absent makes there =
    (
      _,
      write_user_pipe-made k id uid command curr other st l place absent,
      rw (equal_self (fifo id uid), makes) refl,
      write_user_pipe-refused k id uid command₂ curr₂ other₂ st₂ l₂ place₂
          (files (fifo id uid) l₂ true there),
    )
