-- ===== src/Server/Select.antt =====
-- The loop of `main` of np_single_proc.cpp.
pub mod Ascending
pub mod Table
pub mod Rounds
use nycu_np.Prelude.{
  ℕ, zero, suc, ◌+◌, ◌==◌, Bool, true, false, if◌then◌else◌, ltb, leb, List, [], ◌∷◌, Option, none,
  some, Bytes, ℤ,
}
use nycu_np.Server.Session.{connects, serve, run_shell_loop}
use nycu_np.Server.State.{Server}
use nycu_np.Server.Users.{remove_user}
use nycu_np.Shell.Kernel.{
  Kernel, Log, Proc, Outcome, running, fault, pure, ◌>>=◌, ◌>>◌, bind_outcome,
}

-- A set of descriptors; `fd_setsize` is its size.
abbrev pub FdSet : Type 0
FdSet = ℕ → Bool

abbrev pub fd_setsize : ℕ
fd_setsize = 1024

abbrev pub with_fd : ℕ → Bool → FdSet → FdSet
with_fd fd on set i = if i == fd then on else set i

-- The variables of the loop.
pub record Loop : Type 0 where
  pub server : Server
  pub master_socks : FdSet
  pub max_socks : ℕ

-- A client: its descriptor, its address and its port.
pub record Client : Type 0 where
  pub sock : ℕ
  pub ip : Bytes
  pub port : ℕ

-- The listening socket, what `accept` answers where the descriptors of the set are open, `none` being
-- -1, and the line that a client's descriptor yields.
pub record Sockets : Type 0 where
  pub server_sock : ℕ
  pub accepted : FdSet → Log → Option Client
  pub line : ℕ → Log → Bytes

module _ (k : Kernel) (uninit : ℤ) (net : Sockets) where
  unfoldable pub watch : Client → Loop → Loop
  watch c s = record s {
    master_socks = with_fd c.sock true s.master_socks;
    max_socks = if ltb s.max_socks c.sock then c.sock else s.max_socks;
  }

  -- A new connection. `FD_SET` of -1, or of a descriptor that the set has no place for, is undefined.
  unfoldable pub accept_client : Option Client → Loop → Proc Loop
  unfolding watch
  accept_client none s = λ l. fault
  accept_client (some c) s =
      if ltb c.sock fd_setsize
      then (do
        let s' = watch c s
        sv ← serve k uninit (connects c.ip c.port c.sock) s'.server
        pure (record s' { server = sv }))
      else λ l. fault

  -- An old connection.
  unfoldable pub leave_or_stay : ℕ → Loop → Server × Bool → Proc Loop
  leave_or_stay fd s (sv, true) = pure (record s { server = sv })
  leave_or_stay fd s (sv, false) = do
    left ← remove_user fd sv
    pure (record s { server = left; master_socks = with_fd fd false s.master_socks })

  unfoldable pub serve_client : ℕ → Loop → Proc Loop
  unfolding leave_or_stay
  serve_client fd s = do
    text ← λ l. running (net.line fd l) l
    after ← run_shell_loop k uninit fd text s.server
    leave_or_stay fd s after

  -- The body of the loop over the descriptors, for one that is ready.
  unfoldable pub serve_fd : ℕ → Loop → Proc Loop
  unfolding accept_client serve_client
  serve_fd fd s =
      if fd == net.server_sock
      then (do client ← λ l. running (net.accepted s.master_socks l) l; accept_client client s)
      else serve_client fd s

  -- The loop over the descriptors from `fd` on, which tests `fd <= maxSocks` anew each time. The
  -- first argument is fuel: a descriptor is below `fd_setsize`.
  unfoldable pub visit : ℕ → ℕ → FdSet → Loop → Proc Loop
  unfolding serve_fd
  visit zero fd ready s = pure s
  visit (suc fuel) fd ready s =
      let served : Proc Loop = (do s' ← serve_fd fd s; visit fuel (fd + 1) ready s') in
      let passed : Proc Loop = visit fuel (fd + 1) ready s in
      if leb fd s.max_socks then (if ready fd then served else passed) else pure s

  -- One round of the outer loop; `none` is a `select` that reports nothing.
  unfoldable pub round : Option FdSet → Loop → Proc Loop
  unfolding visit
  round none s = pure s
  round (some ready) s = visit fd_setsize 0 ready s

  -- So many rounds, the server not being stopped.
  unfoldable pub rounds : List (Option FdSet) → Loop → Proc Loop
  unfolding round
  rounds [] s = pure s
  rounds (ready ∷ more) s = do s' ← round ready s; rounds more s'

-- The variables as `main` sets them before the loop.
abbrev pub start : ℕ → Server → Loop
start server_sock sv = record {
  server = sv;
  master_socks = with_fd server_sock true (λ fd. false);
  max_socks = server_sock;
}
