-- ===== src/Server/Shared/Welcome/Reach.antt =====
-- Whom a message to everybody reaches.
use nycu_np.Prelude.{
  ℕ, zero, suc, ◌+◌, true, if◌then◌else◌, if_true, if_false, ltb, leb, ◌==◌, ◌&&◌, Bytes, ◌≡◌, refl,
  ap, ◌∙◌, arith, ==_iff, Bool-cases, inl, inr,
}
use nycu_np.Server.Shared.{SharedUser, Shared, as_message, send_raw_message, send_connected}

-- The record of a user who has been sent a message.
abbrev pub with_message : Bytes → SharedUser → SharedUser
with_message msg u = record u { buffer = as_message msg }

-- The loop reaches the connected users of its range, and nobody else.
pub send_connected-users :
    (rounds i j : ℕ) (msg : Bytes) (s : Shared)
    → (send_connected rounds i msg s).users j ≡ (
        if leb i j && (ltb j (i + rounds) && (s.users j).is_connected)
        then with_message msg (s.users j)
        else s.users j)
unfolding send_connected send_raw_message
send_connected-users zero i j msg s = elim (Bool-cases (leb i j)) [
  | inl e ↦ ground arith
  | inr e ↦ ground arith
]
send_connected-users (suc rounds) i j msg s = elim (Bool-cases (s.users i).is_connected) [
  | inl there ↦
      let sent = send_raw_message i msg s in
      ap (λ (t : Shared). (send_connected rounds (i + 1) msg t).users j)
        (if_true (s.users i).is_connected sent s there)
      ∙ send_connected-users rounds (i + 1) j msg sent
      ∙ elim (Bool-cases (j == i)) [ inl same ↦ ground arith | inr other ↦ ground arith ]
  | inr gone ↦
      let sent = send_raw_message i msg s in
      ap (λ (t : Shared). (send_connected rounds (i + 1) msg t).users j)
        (if_false (s.users i).is_connected sent s gone)
      ∙ send_connected-users rounds (i + 1) j msg s
      ∙ elim (Bool-cases (j == i)) [
        | inl same ↦ ground (arith, (==_iff j i).0)
        | inr other ↦ ground arith
      ]
]

pub send_connected-signalled :
    (rounds i j : ℕ) (msg : Bytes) (s : Shared)
    → (send_connected rounds i msg s).signalled j ≡ (
        if leb i j && (ltb j (i + rounds) && (s.users j).is_connected) then true else s.signalled j)
unfolding send_connected send_raw_message
send_connected-signalled zero i j msg s = elim (Bool-cases (leb i j)) [
  | inl e ↦ ground arith
  | inr e ↦ ground arith
]
send_connected-signalled (suc rounds) i j msg s = elim (Bool-cases (s.users i).is_connected) [
  | inl there ↦
      let sent = send_raw_message i msg s in
      ap (λ (t : Shared). (send_connected rounds (i + 1) msg t).signalled j)
        (if_true (s.users i).is_connected sent s there)
      ∙ send_connected-signalled rounds (i + 1) j msg sent
      ∙ elim (Bool-cases (j == i)) [ inl same ↦ ground arith | inr other ↦ ground arith ]
  | inr gone ↦
      let sent = send_raw_message i msg s in
      ap (λ (t : Shared). (send_connected rounds (i + 1) msg t).signalled j)
        (if_false (s.users i).is_connected sent s gone)
      ∙ send_connected-signalled rounds (i + 1) j msg s
      ∙ elim (Bool-cases (j == i)) [
        | inl same ↦ ground (arith, (==_iff j i).0)
        | inr other ↦ ground arith
      ]
]

pub send_connected-shown :
    (rounds i : ℕ) (msg : Bytes) (s : Shared) → (send_connected rounds i msg s).shown ≡ s.shown
unfolding send_connected send_raw_message
send_connected-shown zero i msg s = refl
send_connected-shown (suc rounds) i msg s = elim (Bool-cases (s.users i).is_connected) [
  | inl there ↦
      let sent = send_raw_message i msg s in
      ap (λ (t : Shared). (send_connected rounds (i + 1) msg t).shown)
        (if_true (s.users i).is_connected sent s there)
      ∙ send_connected-shown rounds (i + 1) msg sent
  | inr gone ↦
      let sent = send_raw_message i msg s in
      ap (λ (t : Shared). (send_connected rounds (i + 1) msg t).shown)
        (if_false (s.users i).is_connected sent s gone)
      ∙ send_connected-shown rounds (i + 1) msg s
]
