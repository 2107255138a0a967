-- ===== src/Server/Messages/Delivery.antt =====
-- Who receives what.
use nycu_np.Prelude.{
  ℕ, ◌<◌, ◌≤◌, true, false, ◌∷◌, Option, none, some, Bytes, c_text, ℤ, pos, ◌≡◌, refl, arith,
  Bool-cases, inl, inr, ◌⊎◌, ltb, length,
}
use nycu_np.Server.Messages.{tell, yell, name, tell_user, name_exists, no_user_msg, name_taken_msg}
use nycu_np.Server.State.{
  UserInfo, Server, find_user, find_uid, tell_msg, yell_msg, name_msg, put_user, max_user_name_len,
}
use nycu_np.Server.Users.Leave.{SendsTo, send_all-SendsTo, broadcast_message-SendsTo}
use nycu_np.Shell.Kernel.{Log, Outcome, running, Event, cout, send}

-- What `tell` does: one message to the user of that id, or the error text to the one who tells.
abbrev pub told : ℕ → UserInfo → ℤ → Bytes → Option UserInfo → Event
told id me uid msg none = cout (no_user_msg uid)
told id me uid msg (some target) = send (pos target.sock) (tell_msg me.name msg)

-- A client that is served tells a user: the one with that id, if there is one, is sent the text on
-- that user's socket and nothing else happens; otherwise the client reads that there is no such
-- user, and nothing is sent to anyone.
tell_lem :
    (id : ℕ) (me : UserInfo) (uid : ℤ) (msg : Bytes) (sv : Server) (l : Log)
    → find_user sv id ≡ some me
    → tell id uid msg sv l ≡ running tt (told id me uid msg (find_uid sv uid) ∷ l)
unfolding tell
tell_lem id me uid msg sv l there = to (find_uid sv uid)
  where
    to :
        (target : Option UserInfo)
        → tell_user id msg sv target uid l ≡ running tt (told id me uid msg target ∷ l)
    to none = refl
    to (some target) = rw there

-- A client that is served yells: every user, the client included, is sent the text once, in the
-- order of the ids, and nobody else is.
yell-SendsTo :
    (id : ℕ) (me : UserInfo) (msg : Bytes) (sv : Server) (l : Log)
    → find_user sv id ≡ some me
    → SendsTo sv.users (yell_msg me.name msg) l tt (yell id msg sv l)
unfolding yell
yell-SendsTo id me msg sv l there = rw there (send_all-SendsTo sv.users (yell_msg me.name msg) l)

-- A client that is served asks for a name. If somebody has it, the client reads so and nothing
-- else happens. If nobody has it and its text in front of the first NUL is shorter than the array that
-- holds it, the client has that text as its name from then on and every user is told once. If nobody
-- has it and that text is longer, it is written out of the bounds of the array.
pub name_lem :
    (id : ℕ) (me : UserInfo) (wanted : Bytes) (sv : Server) (l : Log)
    → find_user sv id ≡ some me
    → let renamed = put_user id (record me { name = c_text wanted }) sv in
      ((name_exists wanted sv.users ≡ true)
        × (name id wanted sv l ≡ running sv (cout (name_taken_msg wanted) ∷ l)))
      ⊎ ((name_exists wanted sv.users ≡ false)
          × (length (c_text wanted) < max_user_name_len)
          × SendsTo renamed.users (name_msg me.ip me.port wanted) l renamed (name id wanted sv l))
      ⊎ ((name_exists wanted sv.users ≡ false)
          × (max_user_name_len ≤ length (c_text wanted))
          × (name id wanted sv l ≡ Outcome.fault))
name_lem id me wanted sv l there = elim (Bool-cases (name_exists wanted sv.users)) [
  | inl taken ↦ inl (taken, unfold name in rw taken)
  | inr free ↦ inr (elim (Bool-cases (ltb (length (c_text wanted)) max_user_name_len)) [
    | inl fits ↦
        let renamed = put_user id (record me { name = c_text wanted }) sv in
        let (l', told_all, sent) =
          broadcast_message-SendsTo renamed (name_msg me.ip me.port wanted) l in
        inl (free, ground arith, (l', unfold name in rw (free, there, fits, told_all), sent))
    | inr long ↦ inr (free, ground arith, unfold name in rw (free, there, long))
  ])
]
