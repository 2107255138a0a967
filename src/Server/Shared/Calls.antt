-- ===== src/Server/Shared/Calls.antt =====
-- Every call of the server is a sequence of steps on the memory.
use nycu_np.Prelude.{
  ℕ, zero, suc, ◌+◌, ◌-◌, Bool, true, false, if◌then◌else◌, if_true, if_false, ltb, List, [], ◌∷◌,
  Option, none, some, Bytes, c_text, not, ◌&&◌, codes, ℤ, take, length, ◌≡◌, refl, ap, ◌∙◌,
  Bool-cases, inl, inr,
}
use nycu_np.Server.Shared.Mail.{Step, sends, prints, empties, fills, clears, step, run}
use nycu_np.Server.Shared.{
  Shared, send_raw_message, show_buffer, clear_buffer, send_connected, broadcast_message, min_key,
  add_user, remove_user, in_array, tell, yell, name_exists_from, name,
}
use nycu_np.Server.State.{
  max_conn, max_user_name_len, ip_len, logout_msg, tell_msg, yell_msg, name_msg,
}

-- What the processes call: a client connects, leaves, tells, yells or takes a name, and a handler
-- shows its buffer, and clears it.
pub data Call : Type 0 where
  connects : Bytes → ℕ → ℤ → Call
  leaves : ℕ → Call
  tells : ℕ → ℕ → Bytes → Call
  yells : ℕ → Bytes → Call
  names : ℕ → Bytes → Call
  shows clears_buffer : ℕ → Call

-- `none` is undefined behaviour.
abbrev memory : Option (Shared × ℕ) → Option Shared
memory none = none
memory (some (s, id)) = some s

pub call : Call → Shared → Option Shared
call (connects ip port pid) s = memory (add_user ip port pid s)
call (leaves id) s = some (remove_user id s)
call (tells id uid msg) s = tell id uid msg s
call (yells id msg) s = some (yell id msg s)
call (names id new_name) s = name id new_name s
call (shows id) s = some (if s.signalled id && not (s.handling id) then show_buffer id s else s)
call (clears_buffer id) s = some (if s.handling id then clear_buffer id s else s)

abbrev pub IsRun : Shared → Shared → Type 0
IsRun s t = (es : List Step) × (t ≡ run es s)

if_rule : {A : Type 0} (P : A → Type 0) (b : Bool) {x y : A} → P x → P y → P (if b then x else y)
if_rule P true h k = h
if_rule P false h k = k

send_connected-IsRun :
    (rounds i : ℕ) (msg : Bytes) (s : Shared) → IsRun s (send_connected rounds i msg s)
unfolding send_connected run step
send_connected-IsRun zero i msg s = ([], refl)
send_connected-IsRun (suc rounds) i msg s = elim (Bool-cases (s.users i).is_connected) [
  | inl there ↦
      let (es, e) = send_connected-IsRun rounds (i + 1) msg (send_raw_message i msg s) in
      (
        sends i msg ∷ es,
        ap (send_connected rounds (i + 1) msg) (if_true (s.users i).is_connected _ _ there) ∙ e,
      )
  | inr other ↦
      let (es, e) = send_connected-IsRun rounds (i + 1) msg s in
      (es, ap (send_connected rounds (i + 1) msg) (if_false (s.users i).is_connected _ _ other) ∙ e)
]

-- The steps of a call that is defined.
abbrev pub Steps : Shared → Option Shared → Type 0
Steps s none = Unit
Steps s (some t) = IsRun s t

behind : (e : Step) (s t : Shared) → IsRun (step e s) t → IsRun s t
unfolding run
behind e s t (es, same) = (e ∷ es, same)

-- A call that is defined does some steps, one after the other.
pub call-IsRun : (c : Call) (s : Shared) → Steps s (call c s)
unfolding call run step add_user remove_user broadcast_message tell yell name
call-IsRun (connects ip port pid) s =
    if_rule (λ r. Steps s (memory r)) (ltb (min_key s.users) max_conn)
      (
        fills (min_key s.users) (record (s.users (min_key s.users)) {
          ip = take (ip_len - 1) ip;
          name = codes "(no name)";
          port = port;
          pid = pid;
          is_connected = true;
        })
            ∷ [],
        refl,
      )
      tt
call-IsRun (leaves id) s =
    behind (clears id) s _
      (send_connected-IsRun (max_conn - 1) 1 (logout_msg (s.users id).name) (step (clears id) s))
call-IsRun (tells id uid msg) s =
    if_rule (Steps s) (in_array uid)
      (if_rule (IsRun s) (s.users uid).is_connected
        (sends uid (tell_msg (s.users id).name msg) ∷ [], refl) ([], refl))
      tt
call-IsRun (yells id msg) s =
    send_connected-IsRun (max_conn - 1) 1 (yell_msg (s.users id).name msg) s
call-IsRun (names id new_name) s =
    let named = fills id (record (s.users id) { name = c_text new_name }) in
    if_rule (Steps s) (name_exists_from (max_conn - 1) 1 new_name s.users) ([], refl)
      (if_rule (Steps s) (ltb (length (c_text new_name)) max_user_name_len)
        (behind named s _ (
          send_connected-IsRun (max_conn - 1) 1
            (name_msg (s.users id).ip (s.users id).port new_name) (step named s)))
        tt)
call-IsRun (shows id) s = (prints id ∷ [], refl)
call-IsRun (clears_buffer id) s = (empties id ∷ [], refl)
