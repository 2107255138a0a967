-- ===== src/Server/Session/Granted.antt =====
-- What the shell asks of the server, where the server grants it.
use nycu_np.Prelude.{ℕ, ◌<◌, some, ℤ, ◌≡◌}
use nycu_np.Server.Session.{user_pipes}
use nycu_np.Server.State.{max_conn}
use nycu_np.Server.UserPipe.Granted.{HasUser, write_user_pipe-Returns, write_user_pipe-children}
use nycu_np.Shell.Kernel.{Kernel, Log}
use nycu_np.Shell.Run.Runs.{IsGranted}
use nycu_np.Shell.Run.Wiring.{IsForkFree}

module _ (k : Kernel) (id : ℕ) where
  -- The pipes to users of the single-process server, for a client that is a user, whose id is below
  -- the size of the arrays, whatever user the line names.
  pub user_pipes-IsGranted :
      ((l : Log) → (i : ℕ) × (o : ℕ) × (k.pipe_fds l ≡ some (i, o)))
      → id < max_conn
      → (me uid : ℤ) → IsGranted k (user_pipes k id) (HasUser id) me uid
  unfolding user_pipes
  user_pipes-IsGranted pipes small me uid = record {
    pipes = pipes;
    writes = λ p text other sv l v. write_user_pipe-Returns k id uid pipes small text p sv l v;
  }

  pub user_pipes-IsForkFree : IsForkFree (user_pipes k id)
  unfolding user_pipes
  user_pipes-IsForkFree = record {
    write_forks = λ me uid p text other sv l. write_user_pipe-children k id uid text p sv l;
  }
