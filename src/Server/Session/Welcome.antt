-- ===== src/Server/Session/Welcome.antt =====
-- What a client that connects, and everybody else, is sent.
use nycu_np.Prelude.{ℕ, List, ◌∷◌, none, Bytes, codes, ℤ, pos, negsuc, ◌≡◌, refl, ap, ◌∙◌}
use nycu_np.Prelude.OrderedMap.{lookup}
use nycu_np.Server.Session.{connects, serve}
use nycu_np.Server.State.{Server, deref, find_user, get_serving_user_id, welcome_msg, login_msg}
use nycu_np.Server.Users.Ids.{announced, IsConsistent, Added, add_user-Added}
use nycu_np.Server.Users.Leave.{sends, sent_to, broadcast_message-SendsTo}
use nycu_np.Server.Users.{add_user, broadcast_message, send_raw_message}
use nycu_np.Shell.Kernel.{Kernel, Log, Outcome, running, send, pure, ◌>>=◌, ◌>>◌, bind_outcome}

-- The messages of a welcome, on top of the older ones.
abbrev pub welcomed : ℕ → Bytes → ℕ → Server → List (ℤ × Bytes) → List (ℤ × Bytes)
welcomed sock ip port sv older =
    (pos sock, codes "% ")
    ∷ sent_to sv.users (login_msg (codes "(no name)") ip port) ((pos sock, welcome_msg) ∷ older)

module _ (k : Kernel) (uninit : ℤ) (ip : Bytes) (port sock : ℕ) (sv : Server) (l : Log) where
  -- What follows once the user is added.
  unfoldable pub greet : Server → Log → Outcome Server
  greet new = do
    send_raw_message sock welcome_msg
    u ← deref (find_user new (get_serving_user_id new sock))
    broadcast_message (login_msg u.name ip port) new
    send_raw_message sock (codes "% ")
    pure new

  pub serve-greet :
      serve k uninit (connects ip port sock) sv l
      ≡ bind_outcome (add_user ip port sock (negsuc 0) sv l) greet
  unfolding serve greet
  serve-greet = refl

  -- Where the tables are consistent, a client that connects on a socket that is not in use is added
  -- as a user, as adding a user does; it is sent the welcome, then every user, the new one
  -- included, is sent that somebody without a name has entered, in the order of the ids, and then
  -- the new one is sent the prompt; nothing else is sent.
  pub serve-Added :
      IsConsistent sv
      → lookup sock sv.sock_id_table ≡ none
      → (sv' : Server) × (l' : Log) × (serve k uninit (connects ip port sock) sv l ≡ running sv' l')
        × Added sv sock sv'
        × (sends l' ≡ welcomed sock ip port sv' (sends l))
  unfolding greet
  serve-Added v fresh =
      let (sv', adds, a) = add_user-Added ip port sock (negsuc 0) sv l v fresh in
      let (l₂, told, sent) =
        broadcast_message-SendsTo sv' (login_msg a.user.name ip port)
          (send (pos sock) welcome_msg ∷ announced ip port sv'.last_uid l) in
      (
        sv',
        send (pos sock) (codes "% ") ∷ l₂,
        serve-greet ∙ ap (λ m. bind_outcome m greet) adds ∙ rw (a.by_sock, a.is_there, told) refl,
        a,
        ap (◌∷◌ (pos sock, codes "% ")) (
            sent
            ∙ ap (λ n. sent_to sv'.users (login_msg n ip port) ((pos sock, welcome_msg) ∷ sends l))
                a.unnamed),
      )
