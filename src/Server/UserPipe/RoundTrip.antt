-- ===== src/Server/UserPipe/RoundTrip.antt =====
-- A pipe between two users carries one command to the other, and is then gone.
use nycu_np.Prelude.{
  ℕ, ◌<◌, true, if◌then◌else◌, ◌==◌, ◌∷◌, ◌++◌, some, Bytes, pos, ◌≡◌, refl, arith, Bool-cases, inl,
  inr, subst,
}
use nycu_np.Prelude.OrderedMap.{lookup-insert}
use nycu_np.Server.State.{UserInfo, Server, find_user, max_conn}
use nycu_np.Server.UserPipe.Exchange.{
  Received, with_pipe, made_pipe, refused, write_user_pipe-Sent, read_user_pipe-Received,
  read_user_pipe-missing,
}
use nycu_np.Server.UserPipe.{read_user_pipe, write_user_pipe, set_pipe, pipe_missing_msg, reading}
use nycu_np.Shell.Kernel.{Kernel, Log, Pipe, running, dup, pipe2}
use nycu_np.Shell.Pipes.Close.{closes}
use nycu_np.Shell.Pipes.{minus_one, no_pipe, is_empty, set_fds}

set_pipe_self : (u : UserInfo) (id : ℕ) (p : Pipe) → (set_pipe id p u).user_pipes id ≡ p
set_pipe_self u id p = elim (Bool-cases (id == id)) [
  | inl same ↦ rw same
  | inr other ↦ absurd (ground arith)
]

module _ (k : Kernel) (id n : ℕ) (me receiver : UserInfo) (sv : Server) (l : Log) (i o : ℕ) where
  abbrev pub receiver₁ : UserInfo
  receiver₁ = set_pipe id (made_pipe i o) receiver

  abbrev pub sv₁ : Server
  sv₁ = with_pipe id n (made_pipe i o) receiver sv

  abbrev pub sv₂ : Server
  sv₂ = with_pipe id n no_pipe receiver₁ sv₁

  -- The user who wrote, as the server has it then.
  sender₁ : UserInfo
  sender₁ = if n == id then receiver₁ else me

  there₁ : find_user sv₁ n ≡ some receiver₁
  there₁ = ground (arith, lookup-insert n n receiver₁ sv.users)

  mine₁ : find_user sv id ≡ some me → find_user sv₁ id ≡ some sender₁
  unfolding sender₁
  mine₁ mine = ground (arith, lookup-insert n id receiver₁ sv.users)

  -- The user `id` writes to the user `n`, who has no pipe from `id` yet: from then on the server
  -- keeps a new pipe, and the program of `id` writes to a copy of its end. When `n` then reads
  -- from `id`, the program of `n` reads from a copy of the other end of that same pipe, both of
  -- whose ends are then closed and forgotten; a second read is refused and changes nothing. Both
  -- ids are in the range of the array of pipes, both users are there, and `pipe2` succeeds.
  pub write_read_user_pipe :
      (command command' command'' : Bytes) (curr curr' curr'' : Pipe) (l'' : Log)
      → find_user sv id ≡ some me
      → find_user sv n ≡ some receiver
      → id < max_conn
      → n < max_conn
      → is_empty (receiver.user_pipes id) ≡ true
      → k.pipe_fds (pipe2 ∷ l) ≡ some (i, o)
      → (l₁ : Log) × (l₂ : Log) × (write_user_pipe k id (pos n) command curr sv l
          ≡ running (sv₁, set_fds minus_one (k.dup_fd (dup (pos o) ∷ l₁)) curr) (dup (pos o) ∷ l₁))
        × (read_user_pipe k n (pos id) command' curr' sv₁ (dup (pos o) ∷ l₁)
            ≡ running
                (sv₂, set_fds (k.dup_fd (dup (pos i) ∷ l₂)) minus_one curr')
                (closes (made_pipe i o) ++ (dup (pos i) ∷ l₂)))
        × (read_user_pipe k n (pos id) command'' curr'' sv₂ l''
            ≡ running
                (
                  sv₂,
                  set_fds
                      (k.open_fd (refused (pipe_missing_msg (pos id) n) reading l''))
                      minus_one
                      curr'',
                )
                (refused (pipe_missing_msg (pos id) n) reading l''))
  write_read_user_pipe command command' command'' curr curr' curr'' l'' mine there id_fits n_fits
        free fds =
      let w =
        write_user_pipe-Sent k id n command curr sv l me receiver i o mine there (omega arith)
          id_fits free fds in
      let read_there =
        read_user_pipe-Received k n id command' curr' sv₁ (dup (pos o) ∷ w.told) receiver₁ sender₁
          there₁ (mine₁ mine) id_fits
          (rw (set_pipe_self receiver id (made_pipe i o)) (unfold is_empty in refl)) in
      let r =
        subst (Received k n id command' curr' sv₁ (dup (pos o) ∷ w.told) receiver₁ sender₁)
          (set_pipe_self receiver id (made_pipe i o)) read_there in
      (
        w.told,
        r.told,
        w.goes,
        r.goes,
        read_user_pipe-missing k n id command'' curr'' sv₂ l'' receiver₂ sender₂ there₂ mine₂
            id_fits (rw (set_pipe_self receiver₁ id no_pipe) (unfold is_empty in refl)),
      )
    where
      receiver₂ : UserInfo
      receiver₂ = set_pipe id no_pipe receiver₁

      sender₂ : UserInfo
      sender₂ = if n == id then receiver₂ else sender₁

      there₂ : find_user sv₂ n ≡ some receiver₂
      there₂ = ground (arith, lookup-insert n n receiver₂ sv₁.users)

      mine₂ : find_user sv₂ id ≡ some sender₂
      mine₂ = ground (arith, lookup-insert n id receiver₂ sv₁.users, mine₁ mine)
