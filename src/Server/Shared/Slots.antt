-- ===== src/Server/Shared/Slots.antt =====
-- The place that a new user gets.
use nycu_np.Prelude.{
  ℕ, zero, suc, ◌+◌, ◌≤◌, ◌<◌, true, false, if_true, if_false, ltb, ltb→lt, ◌==◌, ==_iff, none,
  some, Bytes, ℤ, codes, ◌≡◌, refl, sym, ap, subst, ◌∙◌, arith, ◌⊎◌, inl, inr, Bool-cases,
}
use nycu_np.Server.Shared.Mail.{put-same, put-other}
use nycu_np.Server.Shared.{SharedUser, Shared, min_key_from, min_key, add_user}
use nycu_np.Server.State.{max_conn}

pub record Found (rounds i : ℕ) (users : ℕ → SharedUser) (m : ℕ) : Type 0 where
  pub above : i ≤ m
  pub below : m ≤ i + rounds
  pub taken : (j : ℕ) → i ≤ j → j < m → (users j).is_connected ≡ true
  pub free : m < i + rounds → (users m).is_connected ≡ false

pub min_key_from-Found :
    (rounds i : ℕ) (users : ℕ → SharedUser) → Found rounds i users (min_key_from rounds i users)
unfolding min_key_from
min_key_from-Found zero i users = record {
  above = omega arith;
  below = omega arith;
  taken = λ j h k. absurd (omega arith);
  free = λ h. absurd (omega arith);
}
min_key_from-Found (suc rounds) i users = elim (Bool-cases (users i).is_connected) [
  | inl there ↦
      let later = min_key_from-Found rounds (i + 1) users in
      subst (Found (suc rounds) i users) (sym (if_true (users i).is_connected _ _ there)) (record {
        above = omega (arith, later.above);
        below = omega (arith, later.below);
        taken = λ j h k. elim (Bool-cases (j == i)) [
          | inl same ↦ ap (λ n. (users n).is_connected) ((==_iff j i).0 same) ∙ there
          | inr other ↦ later.taken j (ground arith) k
        ];
        free = λ h. later.free (omega arith);
      })
  | inr gone ↦
      subst (Found (suc rounds) i users) (sym (if_false (users i).is_connected _ _ gone)) (record {
        above = omega arith;
        below = omega arith;
        taken = λ j h k. absurd (omega arith);
        free = λ h. gone;
      })
]

-- The first place that is free, and what becomes of the memory.
pub record IsPlaced (before after : Shared) (id : ℕ) : Type 0 where
  pub at_least : 1 ≤ id
  pub at_most : id ≤ 30
  pub was_free : (before.users id).is_connected ≡ false
  pub taken_below : (j : ℕ) → 1 ≤ j → j < id → (before.users j).is_connected ≡ true
  pub is_there : (after.users id).is_connected ≡ true
  pub unnamed : (after.users id).name ≡ codes "(no name)"
  pub others_stay : (j : ℕ) → (j == id) ≡ false → after.users j ≡ before.users j

-- A user who connects to the server of processes gets the first of the thirty places that is free,
-- is there without a name, and leaves every other record as it is; where no place is free, what the
-- server does is undefined.
pub add_user-IsPlaced :
    (ip : Bytes) (port : ℕ) (pid : ℤ) (s : Shared)
    → ((id : ℕ) × (after : Shared) × (add_user ip port pid s ≡ some (after, id))
        × IsPlaced s after id)
      ⊎ (((j : ℕ) → 1 ≤ j → j ≤ 30 → (s.users j).is_connected ≡ true)
          × (add_user ip port pid s ≡ none))
unfolding add_user min_key
add_user-IsPlaced ip port pid s =
    let id = min_key_from 30 1 s.users in
    let found = min_key_from-Found 30 1 s.users in
    elim (Bool-cases (ltb id max_conn)) [
      | inl fits ↦
          let bound = ltb→lt id max_conn fits in
          inl (
            id,
            _,
            if_true (ltb id max_conn) _ _ fits,
            record {
              at_least = found.above;
              at_most = omega arith;
              was_free = found.free (omega arith);
              taken_below = found.taken;
              is_there =
                  ap (λ (u : SharedUser). u.is_connected)
                    (put-same id id _ s.users ((==_iff id id).1 refl));
              unnamed =
                  ap (λ (u : SharedUser). u.name)
                    (put-same id id _ s.users ((==_iff id id).1 refl));
              others_stay = λ j other. put-other id j _ s.users other;
            },
          )
      | inr full ↦
          inr ((λ j h k. found.taken j h (ground arith)), if_false (ltb id max_conn) _ _ full)
    ]
