-- ===== src/Server/Shared/Welcome.antt =====
-- The process that np_multi_proc.cpp forks for a client, up to its first prompt.
pub mod Reach
pub mod Greeting
use nycu_np.Prelude.{
  ℕ, zero, suc, ◌+◌, ◌-◌, ◌<◌, ◌≤◌, true, false, if◌then◌else◌, if_true, if_false, ltb, leb, ◌==◌,
  ◌&&◌, Option, none, some, Bytes, ℤ, take, ◌++◌, ◌≡◌, ◌⊎◌, refl, ap, ◌∙◌, arith, ==_iff,
  Bool-cases, inl, inr,
}
use nycu_np.Server.Shared.{
  SharedUser, Shared, user_msg_len, send_raw_message, kill, send_connected, broadcast_message,
  add_user,
}
use nycu_np.Server.State.{max_conn, login_msg, welcome_msg}

-- The welcome of the client `id`. `others` is what the other processes do between its calls: behind
-- the call before, behind the message, and behind its handler, which runs before the call that sends
-- a signal to the process itself returns.
pub welcomed : (ℕ → Shared → Shared) → ℕ → Shared → Shared
welcomed others id s = others 2 (kill id (others 1 (send_raw_message id welcome_msg (others 0 s))))

pub greet : (ℕ → Shared → Shared) → Bytes → ℕ → ℕ → Shared → Shared
greet others ip port id s =
    let w = welcomed others id s in
    kill id (others 3 (broadcast_message (login_msg (w.users id).name ip port) w))

pub greeted : (ℕ → Shared → Shared) → Bytes → ℕ → Option (Shared × ℕ) → Option (Shared × ℕ)
greeted others ip port none = none
greeted others ip port (some (s, id)) = some (greet others ip port id s, id)

unfoldable pub start_client : (ℕ → Shared → Shared) → Bytes → ℕ → ℤ → Shared → Option (Shared × ℕ)
unfolding greeted greet
start_client others ip port pid s = greeted others ip port (add_user ip port pid s)
