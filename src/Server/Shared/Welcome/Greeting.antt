-- ===== src/Server/Shared/Welcome/Greeting.antt =====
-- What a new client and the other users are shown.
use nycu_np.Prelude.{
  ℕ, ◌+◌, ◌-◌, ◌<◌, ◌≤◌, true, if_true, ltb, leb, ◌==◌, ◌&&◌, none, some, Bytes, ℤ, [], ◌++◌, ◌≡◌,
  ◌⊎◌, refl, ap, ◌∙◌, arith, ==_iff, inl, inr,
}
use nycu_np.Server.Shared.{
  SharedUser, Shared, as_message, send_raw_message, kill, broadcast_message, add_user,
}
use nycu_np.Server.Shared.Slots.{IsPlaced, add_user-IsPlaced}
use nycu_np.Server.State.{max_conn, login_msg, welcome_msg}
use nycu_np.Server.Shared.Welcome.Reach.{
  with_message, send_connected-users, send_connected-signalled, send_connected-shown,
}
use nycu_np.Server.Shared.Welcome.{welcomed, greet, greeted, start_client}

-- What a handler and a message do to the client itself.
kill_shown : (id : ℕ) (s : Shared) → (kill id s).shown id ≡ s.shown id ++ (s.users id).buffer
unfolding kill
kill_shown id s = let same : (id == id) ≡ true = (==_iff id id).1 refl in rw same refl

kill_user : (id : ℕ) (s : Shared) → (kill id s).users id ≡ record (s.users id) { buffer = [] }
unfolding kill
kill_user id s = let same : (id == id) ≡ true = (==_iff id id).1 refl in rw same refl

sent_user :
    (id : ℕ) (msg : Bytes) (s : Shared)
    → (send_raw_message id msg s).users id ≡ with_message msg (s.users id)
unfolding send_raw_message
sent_user id msg s = let same : (id == id) ≡ true = (==_iff id id).1 refl in rw same refl

sent_shown : (id : ℕ) (msg : Bytes) (s : Shared) → (send_raw_message id msg s).shown id ≡ s.shown id
unfolding send_raw_message
sent_shown id msg s = refl

is_reached :
    (s : Shared) (j : ℕ)
    → 1 ≤ j
    → j < max_conn
    → (s.users j).is_connected ≡ true
    → (leb 1 j && (ltb j (1 + (max_conn - 1)) && (s.users j).is_connected)) ≡ true
is_reached s j above below there = ground arith

told_user :
    (msg : Bytes) (s : Shared) (j : ℕ)
    → 1 ≤ j
    → j < max_conn
    → (s.users j).is_connected ≡ true
    → ((broadcast_message msg s).users j ≡ with_message msg (s.users j))
      × ((broadcast_message msg s).signalled j ≡ true)
unfolding broadcast_message
told_user msg s j above below there = (
  send_connected-users (max_conn - 1) 1 j msg s ∙ if_true _ _ _ (is_reached s j above below there),
  send_connected-signalled (max_conn - 1) 1 j msg s
      ∙ if_true _ _ _ (is_reached s j above below there),
)

told_shown : (id : ℕ) (msg : Bytes) (s : Shared) → (broadcast_message msg s).shown id ≡ s.shown id
unfolding broadcast_message
told_shown id msg s = ap (λ f. f id) (send_connected-shown (max_conn - 1) 1 msg s)

-- The other processes leave the record of the client, with its buffer, and what it is shown as they
-- are; all else they may change.
pub record Spares (id : ℕ) (others : ℕ → Shared → Shared) : Type 0 where
  pub user : (k : ℕ) (s : Shared) → (others k s).users id ≡ s.users id
  pub shows : (k : ℕ) (s : Shared) → (others k s).shown id ≡ s.shown id

-- The client `id` of the users `s` has been greeted: what it is shown, and what the others had when
-- they had been told.
pub record IsGreeted (others : ℕ → Shared → Shared) (ip : Bytes) (port id : ℕ) (s t : Shared)
    : Type 0 where
  pub is_shown :
      t.shown id
      ≡ (s.shown id ++ as_message welcome_msg) ++ as_message (login_msg (s.users id).name ip port)
  pub announced : Shared
  pub goes_on : t ≡ kill id (others 3 announced)
  pub told :
      (j : ℕ)
      → 1 ≤ j
      → j < max_conn
      → ((welcomed others id s).users j).is_connected ≡ true
      → (announced.users j
          ≡ with_message (login_msg (s.users id).name ip port) ((welcomed others id s).users j))
        × (announced.signalled j ≡ true)

module _ (others : ℕ → Shared → Shared) (id : ℕ) (spares : Spares id others) (s : Shared) where
  abbrev sent : Shared
  sent = send_raw_message id welcome_msg (others 0 s)

  sent-user : (others 1 sent).users id ≡ with_message welcome_msg (s.users id)
  sent-user =
      spares.user 1 sent
      ∙ sent_user id welcome_msg (others 0 s)
      ∙ ap (with_message welcome_msg) (spares.user 0 s)

  welcomed-user : (welcomed others id s).users id ≡ record (s.users id) { buffer = [] }
  unfolding welcomed
  welcomed-user =
      spares.user 2 (kill id (others 1 sent))
      ∙ kill_user id (others 1 sent)
      ∙ ap (λ (u : SharedUser). record u { buffer = [] }) sent-user

  welcomed-shown : (welcomed others id s).shown id ≡ s.shown id ++ as_message welcome_msg
  unfolding welcomed
  welcomed-shown =
      spares.shows 2 (kill id (others 1 sent))
      ∙ kill_shown id (others 1 sent)
      ∙ ap (λ shown. shown ++ ((others 1 sent).users id).buffer)
          (spares.shows 1 sent ∙ sent_shown id welcome_msg (others 0 s) ∙ spares.shows 0 s)
      ∙ ap (λ (u : SharedUser). s.shown id ++ u.buffer) sent-user

  greet-IsGreeted :
      (ip : Bytes) (port : ℕ)
      → 1 ≤ id
      → id < max_conn
      → (s.users id).is_connected ≡ true
      → IsGreeted others ip port id s (greet others ip port id s)
  unfolding greet
  greet-IsGreeted ip port above below there =
      let w = welcomed others id s in
      let msg = login_msg (s.users id).name ip port in
      let a = broadcast_message msg w in
      let named : (w.users id).name ≡ (s.users id).name =
        ap (λ (u : SharedUser). u.name) welcomed-user in
      let still = ap (λ (u : SharedUser). u.is_connected) welcomed-user ∙ there in
      let same = ap (λ n. kill id (others 3 (broadcast_message (login_msg n ip port) w))) named in
      record {
        is_shown =
            ap (λ (t : Shared). t.shown id) same
            ∙ kill_shown id (others 3 a)
            ∙ ap (λ shown. shown ++ ((others 3 a).users id).buffer)
                (spares.shows 3 a ∙ told_shown id msg w ∙ welcomed-shown)
            ∙ ap (λ (u : SharedUser). (s.shown id ++ as_message welcome_msg) ++ u.buffer)
                (spares.user 3 a ∙ (told_user msg w id above below still).0);
        announced = a;
        goes_on = same;
        told = told_user msg w;
      }

-- Where the other processes, whatever else they do between its calls on the shared memory, leave the
-- record of the new client, with its buffer, and what it is shown as they are, and a signal to
-- itself is handled before `kill` returns: the process of a new client of the server of processes
-- adds it, under the first of the thirty ids that is free, without a name and with every other
-- record as it is; it then shows the welcome and the message that the client has entered, each cut
-- to the buffer, in this order, and when it has told the others, each user who was connected has that
-- message in the buffer and a signal to show it. Where no id is free, what the process does is
-- undefined.
pub start_client-IsGreeted :
    (others : ℕ → Shared → Shared) (ip : Bytes) (port : ℕ) (pid : ℤ) (s : Shared)
    → ((id : ℕ) (added : Shared) → add_user ip port pid s ≡ some (added, id) → Spares id others)
    → ((id : ℕ) × (added greeted : Shared) × (add_user ip port pid s ≡ some (added, id))
        × (start_client others ip port pid s ≡ some (greeted, id))
        × IsPlaced s added id
        × IsGreeted others ip port id added greeted)
      ⊎ (((j : ℕ) → 1 ≤ j → j ≤ 30 → (s.users j).is_connected ≡ true)
          × (start_client others ip port pid s ≡ none))
unfolding start_client
start_client-IsGreeted others ip port pid s spares = elim (add_user-IsPlaced ip port pid s) [
  | inl (id, added, adds, placed) ↦ inl (
    id,
    added,
    greet others ip port id added,
    adds,
    ap (greeted others ip port) adds,
    placed,
    greet-IsGreeted others id (spares id added adds) added ip port placed.at_least
        (omega (arith, placed.at_most)) placed.is_there,
  )
  | inr (full, undefined) ↦ inr (full, ap (greeted others ip port) undefined)
]
