-- ===== src/Server/Shared/Who.antt =====
-- `Who` of the two builds of chatServer.cpp, with and without CONFIG_SHM.
use nycu_np.Prelude.{
  ℕ, zero, suc, ◌+◌, ◌≤◌, ◌<◌, true, false, if_true, if_false, ◌==◌, ==_iff, List, [], ◌∷◌, ◌++◌,
  Option, none, some, codes, ◌≡◌, refl, sym, ap, subst, ◌∙◌, arith, Bool-cases, inl, inr,
}
use nycu_np.Prelude.OrderedMap.{lookup, IsSorted, IsSorted-mono, lookup_below}
use nycu_np.Server.Messages
use nycu_np.Server.Messages.{who_row, who_rows}
use nycu_np.Server.Shared.{SharedUser, Shared, who_from, who}
use nycu_np.Server.State.{UserInfo, Server, find_user}
use nycu_np.Shell.Kernel.{Log, cout, emit}

-- The place of an id says what the map of users has for it.
abbrev pub IsShownAs : SharedUser → Option UserInfo → Type 0
IsShownAs u none = u.is_connected ≡ false
IsShownAs u (some w) =
    (u.is_connected ≡ true) × (u.name ≡ w.name) × (u.ip ≡ w.ip) × (u.port ≡ w.port)

lookup_behind :
    (k : ℕ) (w : UserInfo) (m : List (ℕ × UserInfo)) (j : ℕ)
    → k < j
    → lookup j ((k, w) ∷ m) ≡ lookup j m
lookup_behind k w m j h = ground arith

module _ (me : ℕ) (users : ℕ → SharedUser) where
  who_from-there :
      (rounds i : ℕ) (w : UserInfo)
      → IsShownAs (users i) (some w)
      → who_from (suc rounds) i me users ≡ who_row me i w ++ who_from rounds (i + 1) me users
  unfolding who_from
  who_from-there rounds i w (there, name, ip, port) =
      if_true (users i).is_connected _ _ there ∙ rw name (rw ip (rw port refl))

  who_from-away :
      (rounds i : ℕ)
      → (users i).is_connected ≡ false
      → who_from (suc rounds) i me users ≡ who_from rounds (i + 1) me users
  unfolding who_from
  who_from-away rounds i away = if_false (users i).is_connected _ _ away

  who_from-rows :
      (rounds i : ℕ) (m : List (ℕ × UserInfo))
      → IsSorted i m
      → ((j : ℕ) → i + rounds ≤ j → lookup j m ≡ none)
      → ((j : ℕ) → i ≤ j → j < i + rounds → IsShownAs (users j) (lookup j m))
      → who_from rounds i me users ≡ who_rows me m
  unfolding who_from
  who_from-rows zero i [] sorted none_above shown = refl
  who_from-rows zero i ((k, w) ∷ m) sorted none_above shown = absurd (ground (arith, none_above k))
  who_from-rows (suc rounds) i [] sorted none_above shown =
      who_from-away rounds i (shown i (omega arith) (omega arith))
      ∙ who_from-rows rounds (i + 1) [] tt (λ j h. refl)
          (λ j h k. shown j (omega arith) (omega arith))
  who_from-rows (suc rounds) i ((k, w) ∷ m) sorted none_above shown = elim (Bool-cases (k == i)) [
    | inl same ↦
        let here = (==_iff k i).0 same in
        who_from-there rounds i w (
          subst (IsShownAs (users i)) (if_true (k == i) _ _ same)
            (shown i (omega arith) (omega arith)))
        ∙ ap (λ n. who_row me n w ++ who_from rounds (i + 1) me users) (sym here)
        ∙ ap (λ rows. who_row me k w ++ rows)
            (who_from-rows rounds (i + 1) m
              (IsSorted-mono m (i + 1) (suc k) (ground arith) sorted.1)
              (λ j h. sym (lookup_behind k w m j (omega arith)) ∙ none_above j (omega arith))
              (λ j h l.
                subst (IsShownAs (users j)) (lookup_behind k w m j (omega arith))
                  (shown j (omega arith) (omega arith))))
    | inr other ↦
        who_from-away rounds i (
          subst (IsShownAs (users i))
            (lookup_below (suc i) i ((k, w) ∷ m) (ground arith) (omega arith))
            (shown i (omega arith) (omega arith)))
        ∙ who_from-rows rounds (i + 1) ((k, w) ∷ m) (ground arith)
            (λ j h. none_above j (omega arith)) (λ j h l. shown j (omega arith) (omega arith))
  ]

-- The array holds the users of the map: the ids ascend from 1 and are 30 at most, and each place
-- says what the map has for its id.
pub record Agrees (s : Shared) (sv : Server) : Type 0 where
  pub ids_ascend : IsSorted 1 sv.users
  pub none_above : (j : ℕ) → 31 ≤ j → find_user sv j ≡ none
  pub shown : (j : ℕ) → 1 ≤ j → j ≤ 30 → IsShownAs (s.users j) (find_user sv j)

-- Where the array holds the users of the map, with their names, addresses and ports, `Who` of the
-- server of processes prints what that of the single process does, for whoever asks.
pub who-Agrees :
    (id : ℕ) (s : Shared) (sv : Server) (l : Log)
    → Agrees s sv
    → Messages.who id sv l ≡ emit (cout (who id s)) l
unfolding who Messages.who
who-Agrees id s sv l a =
    ap (λ rows. emit (cout (codes "<ID>\t<nickname>\t<IP:port>\t<indicate me>\n" ++ rows)) l)
      (sym (
        who_from-rows id s.users 30 1 sv.users a.ids_ascend a.none_above
          (λ j h k. a.shown j h (omega arith))))
