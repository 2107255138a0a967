-- ===== src/Server/Shared/Mail.antt =====
-- What the signal handler shows of the messages, whatever order the processes come in.
use nycu_np.Prelude.{
  ℕ, Bool, not, ◌&&◌, true, false, if◌then◌else◌, ◌==◌, List, [], ◌∷◌, ◌++◌, append-nil,
  append_assoc, Bytes, ◌≡◌, refl, sym, ap, subst, if_true, if_false, ◌∙◌, Bool-cases, ==_iff, inl,
  inr,
}
use nycu_np.Server.Shared.{
  SharedUser, Shared, put, cleared, send_raw_message, as_message, show_buffer, clear_buffer,
}

-- A step of some process on the memory: a message to a user, the handler of a user's process, which
-- shows the buffer and then clears it, a user's record filled, where the buffer stays, and a user's
-- record cleared.
pub data Step : Type 0 where
  sends : ℕ → Bytes → Step
  prints empties : ℕ → Step
  fills : ℕ → SharedUser → Step
  clears : ℕ → Step

-- A handler without a signal does not run, and one that runs is not started again.
unfoldable pub step : Step → Shared → Shared
step (sends uid msg) s = send_raw_message uid msg s
step (prints id) s = if s.signalled id && not (s.handling id) then show_buffer id s else s
step (empties id) s = if s.handling id then clear_buffer id s else s
step (fills id u) s = record s {
  users = put id (record u { buffer = (s.users id).buffer }) s.users;
}
step (clears id) s = record s { users = put id cleared s.users }

unfoldable pub run : List Step → Shared → Shared
run [] s = s
run (e ∷ es) s = run es (step e s)

-- The messages to a user, as the buffer holds them.
abbrev pub messages_to : ℕ → List Step → List Bytes
messages_to id [] = []
messages_to id (sends uid msg ∷ es) =
    let rest = messages_to id es in if id == uid then as_message msg ∷ rest else rest
messages_to id (_ ∷ es) = messages_to id es

-- Some of the elements of a list, in their order.
pub data Sublist {A : Type 0} : List A → List A → Type 0 where
  done : Sublist [] []
  keep : {a : A} {xs ys : List A} → Sublist xs ys → Sublist (a ∷ xs) (a ∷ ys)
  skip : {a : A} {xs ys : List A} → Sublist xs ys → Sublist xs (a ∷ ys)

abbrev pub concat : List Bytes → Bytes
concat [] = []
concat (text ∷ texts) = text ++ concat texts

-- What is shown is some of the texts in front of which `shown` stands.
abbrev IsShown : ℕ → Bytes → List Bytes → Shared → Type 0
IsShown id shown texts s =
    (kept : List Bytes) × Sublist kept texts × (s.shown id ≡ shown ++ concat kept)

-- A text that is not there may stand for any.
skip-IsShown :
    (id : ℕ) (shown text : Bytes) (texts : List Bytes) (s : Shared)
    → IsShown id shown ([] ∷ texts) s
    → IsShown id shown (text ∷ texts) s
skip-IsShown id shown text texts s (_, keep rest, e) = (_, skip rest, e)
skip-IsShown id shown text texts s (kept, skip rest, e) = (kept, skip rest, e)

-- A text that has been shown.
keep-IsShown :
    (id : ℕ) (shown text : Bytes) (texts : List Bytes) (s : Shared)
    → IsShown id (shown ++ text) ([] ∷ texts) s
    → IsShown id shown (text ∷ texts) s
keep-IsShown id shown text texts s (_, keep rest, e) = (_, keep rest, e ∙ append_assoc shown text _)
keep-IsShown id shown text texts s (kept, skip rest, e) =
    (text ∷ kept, keep rest, e ∙ append_assoc shown text _)

same_text :
    (id : ℕ) (texts : List Bytes) (s : Shared) {shown shown' text text' : Bytes}
    → shown' ≡ shown
    → text' ≡ text
    → IsShown id shown' (text' ∷ texts) s
    → IsShown id shown (text ∷ texts) s
same_text id texts s {shown = shown} {shown' = shown'} {text = text} e f h =
    subst (λ a. IsShown id a (text ∷ texts) s) e (subst (λ b. IsShown id shown' (b ∷ texts) s) f h)

pub put-same : {A : Type 0} (i j : ℕ) (a : A) (f : ℕ → A) → (j == i) ≡ true → put i a f j ≡ a
put-same i j a f e = if_true (j == i) a (f j) e

pub put-other : {A : Type 0} (i j : ℕ) (a : A) (f : ℕ → A) → (j == i) ≡ false → put i a f j ≡ f j
put-other i j a f e = if_false (j == i) a (f j) e

-- What a text that is shown next would be: a handler that has shown the buffer clears it before it
-- shows anything else.
abbrev held_of : Bool → Bytes → Bytes
held_of false text = text
held_of true text = []

abbrev held : ℕ → Shared → Bytes
held id s = held_of (s.handling id) (s.users id).buffer

-- A message that comes while the handler runs may be passed over.
pass_over :
    (id : ℕ) (shown held text : Bytes) (texts : List Bytes) (s : Shared)
    → IsShown id shown (held ∷ texts) s
    → IsShown id shown (held ∷ text ∷ texts) s
pass_over id shown held text texts s (_, keep rest, e) = (_, keep (skip rest), e)
pass_over id shown held text texts s (kept, skip rest, e) = (kept, skip (skip rest), e)

held_sent :
    (id : ℕ) (shown : Bytes) (b : Bool) (old new : Bytes) (texts : List Bytes) (s : Shared)
    → IsShown id shown (held_of b new ∷ texts) s
    → IsShown id shown (held_of b old ∷ new ∷ texts) s
held_sent id shown false old new texts s (kept, sub, e) = (kept, skip sub, e)
held_sent id shown true old new texts s h = pass_over id shown [] new texts s h

held_cleared :
    (id : ℕ) (shown : Bytes) (b : Bool) (old : Bytes) (texts : List Bytes) (s : Shared)
    → IsShown id shown (held_of b [] ∷ texts) s
    → IsShown id shown (held_of b old ∷ texts) s
held_cleared id shown false old texts s h = skip-IsShown id shown old texts s h
held_cleared id shown true old texts s h = h

handler_idle : (a b : Bool) → (a && not b) ≡ true → b ≡ false
handler_idle true false on = refl
handler_idle _ _ on = absurd cc

module _ (id : ℕ) (es : List Step) (s : Shared) where
  -- What holds of the steps behind the first one.
  abbrev After : Shared → Type 0
  After t = IsShown id (t.shown id) (held id t ∷ messages_to id es) (run es t)

  abbrev Result : List Bytes → Shared → Type 0
  Result texts t = IsShown id (s.shown id) (held id s ∷ texts) (run es t)

  -- A step that leaves what is shown and what is held.
  keeps :
      (t : Shared)
      → t.shown id ≡ s.shown id
      → held id t ≡ held id s
      → After t
      → Result (messages_to id es) t
  keeps t e f h = same_text id (messages_to id es) (run es t) e f h

  if_step :
      (texts : List Bytes) (b : Bool) (t : Shared)
      → (b ≡ true → After t → Result texts t)
      → (After s → Result texts s)
      → After (if b then t else s)
      → Result texts (if b then t else s)
  if_step texts true t f g h = f refl h
  if_step texts false t f g h = g h

  sends-IsShown :
      (uid : ℕ) (msg : Bytes)
      → After (send_raw_message uid msg s)
      → Result (messages_to id (sends uid msg ∷ es)) (send_raw_message uid msg s)
  unfolding send_raw_message
  sends-IsShown uid msg h = elim (Bool-cases (id == uid)) [
    | inl mine ↦
        let t = send_raw_message uid msg s in
        subst (λ texts. Result texts t) (sym (if_true (id == uid) _ _ mine))
          (held_sent id (s.shown id) (s.handling id) (s.users id).buffer (as_message msg)
            (messages_to id es) (run es t)
            (same_text id (messages_to id es) (run es t) refl
              (ap (λ (u : SharedUser). held_of (s.handling id) u.buffer)
                (put-same uid id _ s.users mine))
              h))
    | inr other ↦
        subst (λ texts. Result texts (send_raw_message uid msg s))
          (sym (if_false (id == uid) _ _ other))
          (keeps (send_raw_message uid msg s) refl
            (ap (λ (u : SharedUser). held_of (s.handling id) u.buffer)
              (put-other uid id _ s.users other))
            h)
  ]

  prints-IsShown :
      (k : ℕ) → After (step (prints k) s) → Result (messages_to id es) (step (prints k) s)
  unfolding step
  prints-IsShown k =
      if_step (messages_to id es) (s.signalled k && not (s.handling k)) (show_buffer k s)
        (λ on h. elim (Bool-cases (id == k)) [
          | inl mine ↦
              let t = show_buffer k s in
              let same = sym ((==_iff id k).0 mine) in
              let idle =
                ap s.handling (sym same) ∙ handler_idle (s.signalled k) (s.handling k) on in
              subst
                (λ b.
                  IsShown id (s.shown id) (held_of b (s.users id).buffer ∷ messages_to id es)
                    (run es t))
                (sym idle)
                (keep-IsShown id (s.shown id) (s.users id).buffer (messages_to id es) (run es t) (
                  same_text id (messages_to id es) (run es t) {text = []}
                    (put-same k id _ s.shown mine ∙ ap (λ j. s.shown j ++ (s.users j).buffer) same)
                    (ap (λ b. held_of b (s.users id).buffer) (put-same k id true s.handling mine))
                    h))
          | inr other ↦
              keeps (show_buffer k s) (put-other k id _ s.shown other)
                (ap (λ b. held_of b (s.users id).buffer) (put-other k id true s.handling other)) h
        ])
        (λ h. h)

  empties-IsShown :
      (k : ℕ) → After (step (empties k) s) → Result (messages_to id es) (step (empties k) s)
  unfolding step
  empties-IsShown k =
      if_step (messages_to id es) (s.handling k) (clear_buffer k s)
        (λ on h. elim (Bool-cases (id == k)) [
          | inl mine ↦
              let busy = ap s.handling ((==_iff id k).0 mine) ∙ on in
              keeps (clear_buffer k s) refl
                (ap (λ b. held_of b ((clear_buffer k s).users id).buffer)
                    (put-same k id false s.handling mine)
                  ∙ ap (λ (u : SharedUser). u.buffer) (put-same k id _ s.users mine)
                  ∙ sym (ap (λ b. held_of b (s.users id).buffer) busy))
                h
          | inr other ↦
              keeps (clear_buffer k s) refl
                (ap (λ b. held_of b ((clear_buffer k s).users id).buffer)
                    (put-other k id false s.handling other)
                  ∙ ap (λ (u : SharedUser). held_of (s.handling id) u.buffer)
                      (put-other k id _ s.users other))
                h
        ])
        (λ h. h)

  -- A record that keeps its buffer.
  put-IsShown :
      (k : ℕ) (u : SharedUser)
      → u.buffer ≡ (s.users k).buffer
      → After (record s { users = put k u s.users })
      → Result (messages_to id es) (record s { users = put k u s.users })
  put-IsShown k u kept h =
      keeps (record s { users = put k u s.users }) refl
        (ap (held_of (s.handling id)) (elim (Bool-cases (id == k)) [
          | inl mine ↦
              ap (λ (u : SharedUser). u.buffer) (put-same k id u s.users mine)
              ∙ kept
              ∙ ap (λ j. (s.users j).buffer) (sym ((==_iff id k).0 mine))
          | inr other ↦ ap (λ (u : SharedUser). u.buffer) (put-other k id u s.users other)
        ]))
        h

  clears-IsShown :
      (k : ℕ)
      → After (record s { users = put k cleared s.users })
      → Result (messages_to id es) (record s { users = put k cleared s.users })
  clears-IsShown k h = elim (Bool-cases (id == k)) [
    | inl mine ↦
        let t = record s { users = put k cleared s.users } in
        held_cleared id (s.shown id) (s.handling id) (s.users id).buffer (messages_to id es)
          (run es t)
          (same_text id (messages_to id es) (run es t) refl
            (ap (λ (u : SharedUser). held_of (s.handling id) u.buffer)
              (put-same k id cleared s.users mine))
            h)
    | inr other ↦
        keeps (record s { users = put k cleared s.users }) refl
          (ap (λ (u : SharedUser). held_of (s.handling id) u.buffer)
            (put-other k id cleared s.users other))
          h
  ]

-- The texts that are shown are some of what is held and of the messages.
run-IsShown :
    (id : ℕ) (es : List Step) (s : Shared)
    → IsShown id (s.shown id) (held id s ∷ messages_to id es) (run es s)
unfolding run step
run-IsShown id [] s = ([], skip done, sym (append-nil _))
run-IsShown id (sends uid msg ∷ es) s =
    sends-IsShown id es s uid msg (run-IsShown id es (send_raw_message uid msg s))
run-IsShown id (prints k ∷ es) s = prints-IsShown id es s k (run-IsShown id es (step (prints k) s))
run-IsShown id (empties k ∷ es) s =
    empties-IsShown id es s k (run-IsShown id es (step (empties k) s))
run-IsShown id (fills k u ∷ es) s =
    put-IsShown id es s k (record u { buffer = (s.users k).buffer }) refl
      (run-IsShown id es (step (fills k u) s))
run-IsShown id (clears k ∷ es) s = clears-IsShown id es s k (run-IsShown id es (step (clears k) s))

any_held :
    (id : ℕ) (shown : Bytes) (b : Bool) (text : Bytes) (texts : List Bytes) (s : Shared)
    → IsShown id shown (held_of b text ∷ texts) s
    → IsShown id shown (text ∷ texts) s
any_held id shown false text texts s h = h
any_held id shown true text texts s h = skip-IsShown id shown text texts s h

-- Whatever the processes do, in whatever order, where each message, each showing of a buffer and each
-- clearing of one is a step: each user is shown some of the messages to that user, as far as their
-- first NUL and cut to the buffer, each once and in the order in which they were sent, behind what was
-- shown before and what the buffer may have held. Not all of them need be shown.
pub run-Sublist :
    (id : ℕ) (es : List Step) (s : Shared)
    → (kept : List Bytes) × Sublist kept ((s.users id).buffer ∷ messages_to id es)
      × ((run es s).shown id ≡ s.shown id ++ concat kept)
run-Sublist id es s =
    any_held id (s.shown id) (s.handling id) (s.users id).buffer (messages_to id es) (run es s)
      (run-IsShown id es s)
