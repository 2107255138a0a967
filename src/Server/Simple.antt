-- ===== src/Server/Simple.antt =====
-- The processes of np_simple.cpp. Each client is served by a process of its own.
pub mod Alone
pub mod EndOfInput
pub mod Listening
use nycu_np.Prelude.{
  ℕ, zero, suc, ◌==◌, Bool, true, false, if◌then◌else◌, Option, none, some, Bytes, codes, ℤ, pos,
  negsuc,
}
use nycu_np.Server.Select.{Client}
use nycu_np.Server.Session.{run_shell_loop}
use nycu_np.Server.State.{Server}
use nycu_np.Server.Users.{add_user, remove_user, send_raw_message}
use nycu_np.Shell.Run.{is_zero}
use nycu_np.Shell.Kernel.{
  Kernel, Log, Proc, Outcome, running, exited, close, setenv, fork_session, pure, emit, ◌>>=◌, ◌>>◌,
  bind_outcome,
}

-- The listening socket; what `accept` answers, `none` being -1; what `fork` answers, which is 0 in the
-- process that serves the client; the process's id; the line that `getline` reads, the empty one
-- at the end of the input; the flag `running`, which the handler of SIGINT clears; and whether a
-- `send` since the last line has raised SIGPIPE, which ends the process, as it does where the client
-- has closed the connection.
pub record Listener : Type 0 where
  pub server_sock : ℕ
  pub accepted : Log → Option Client
  pub fork_pid : Log → ℤ
  pub getpid : Log → ℤ
  pub line : Log → Bytes
  pub is_on : Log → Bool
  pub is_killed : Log → Bool

module _ (k : Kernel) (uninit : ℤ) (net : Listener) where
  -- What follows a `send` to the client.
  abbrev pub survive : {A : Type 0} → Proc A → Proc A
  survive p l = if net.is_killed l then exited l else p l

  -- The loop of a client's process. The first argument bounds its turns; the Boolean is whether the
  -- process is still in the loop.
  unfoldable pub turns : ℕ → ℕ → Server → Proc (Server × Bool)
  turns zero sock sv = pure (sv, true)
  turns (suc n) sock sv = do
    text ← λ l. running (net.line l) l
    (sv', stays) ← run_shell_loop k uninit sock text sv
    on ← λ l. running (net.is_on l) l
    survive
        (if stays then (if on then turns n sock sv' else pure (sv', false)) else pure (sv', false))

  leave : ℕ → Server × Bool → Proc (Server × Bool)
  leave sock (sv, true) = pure (sv, true)
  leave sock (sv, false) = do
    left ← remove_user sock sv
    emit (close (pos sock))
    pure (left, false)

  -- A client's process, up to its `exit`.
  unfoldable pub session : ℕ → Client → Server → Proc (Server × Bool)
  unfolding turns leave
  session n c sv = do
    emit (close (pos net.server_sock))
    emit (setenv (codes "PATH") (codes "bin:."))
    pid ← λ l. running (net.getpid l) l
    new ← add_user c.ip c.port c.sock pid sv
    send_raw_message c.sock (codes "% ")
    r ← survive (turns n c.sock new)
    leave c.sock r

  -- What follows `fork`, in either process; `rest` is the loop of the listening one.
  serve_client : ℕ → Client → Server → Proc Bool → Proc Bool
  unfolding session
  serve_client n c sv rest = do
    emit fork_session
    pid ← λ l. running (net.fork_pid l) l
    (if is_zero pid
        then (do r ← session n c sv; (if r.1 then pure true else (λ l. exited l)))
        else (do emit (close (pos c.sock)); rest))

  serve_next : ℕ → Option Client → Server → Proc Bool → Proc Bool
  unfolding serve_client
  serve_next n none sv rest = pure false
  serve_next n (some c) sv rest = serve_client n c sv rest

  -- The loop of `main`, for so many clients; the Boolean is whether the process is still in a loop.
  unfoldable pub accepts : ℕ → ℕ → Server → Proc Bool
  unfolding serve_next
  accepts zero n sv = pure true
  accepts (suc m) n sv = do
    on ← λ l. running (net.is_on l) l
    (if on
        then (do c ← λ l. running (net.accepted l) l; serve_next n c sv (accepts m n sv))
        else pure false)
