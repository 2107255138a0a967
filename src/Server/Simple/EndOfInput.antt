-- ===== src/Server/Simple/EndOfInput.antt =====
-- The process of a client whose input has ended.
use nycu_np.Prelude.{ℕ, zero, suc, Bool, true, false, if◌then◌else◌, [], ℤ, ◌≡◌, refl}
use nycu_np.Server.Session.Idle.{IsWaiting, run_shell_loop-idle}
use nycu_np.Server.Session.{run_shell_loop}
use nycu_np.Server.Simple.{Listener, turns}
use nycu_np.Server.State.{Server}
use nycu_np.Shell.Kernel.{Kernel, Log, pure}
use nycu_np.Shell.Run.Post.{Runs, Runs-bind}

module _ (k : Kernel) (uninit : ℤ) (net : Listener) where
  abbrev Stays : ℕ → Server × Bool → Log → Type 0
  Stays sock r l = (r.1 ≡ true) × IsWaiting sock r.0

  turn-Stays :
      (n sock : ℕ)
      → ((sv : Server) (l : Log)
          → IsWaiting sock sv
          → Runs (Stays sock) (turns k uninit net n sock sv l))
      → (r : Server × Bool) (l : Log) → net.is_on l ≡ true
      → Stays sock r l
      → Runs (Stays sock) (
          (if r.1
              then (if net.is_on l then turns k uninit net n sock r.0 else pure (r.0, false))
              else pure (r.0, false))
            l)
  turn-Stays n sock next (sv, true) l on (same, w) = rw on (next sv l w)
  turn-Stays n sock next (sv, false) l on (same, w) = absurd cc

  -- A process whose client has sent no `exit` stays in its loop however many turns it takes, once
  -- the input has ended, every read of which leaves the line empty, unless the server is stopped or a
  -- `send` of the prompt raises SIGPIPE, which the process does not handle: where the client has ended
  -- its input but keeps the connection, the process never leaves.
  pub turns-Stays :
      ((l : Log) → net.line l ≡ [])
      → ((l : Log) → net.is_on l ≡ true)
      → ((l : Log) → net.is_killed l ≡ false)
      → (n sock : ℕ) (sv : Server) (l : Log) → IsWaiting sock sv
      → Runs (λ r l'. (r.1 ≡ true) × IsWaiting sock r.0) (turns k uninit net n sock sv l)
  unfolding turns
  turns-Stays ended on alive zero sock sv l w = (refl, w)
  turns-Stays ended on alive (suc n) sock sv l w = rw (ended l) (
      Runs-bind (Stays sock) (Stays sock) (run_shell_loop k uninit sock [] sv l) _
        (run_shell_loop-idle k uninit sock sv l w)
        λ r l' h.
          rw (alive l') (turn-Stays n sock (turns-Stays ended on alive n sock) r l' (on l') h))
