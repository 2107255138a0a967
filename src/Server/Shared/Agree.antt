-- ===== src/Server/Shared/Agree.antt =====
-- A user who connects, in the two builds of chatServer.cpp, with and without CONFIG_SHM.
use nycu_np.Prelude.{
  ℕ, ◌-◌, ◌≤◌, true, false, if◌then◌else◌, if_true, if_false, ltb, ltb→lt, ◌==◌, Option, none, some,
  Bytes, codes, ℤ, take, ◌≡◌, refl, sym, subst, ◌∙◌, arith, Bool-cases, inl, inr,
}
use nycu_np.Prelude.OrderedMap.{insert-IsSorted, lookup-insert}
use nycu_np.Server.Shared.Mail.{put-same, put-other}
use nycu_np.Server.Shared.Slots.{Found, min_key_from-Found}
use nycu_np.Server.Shared.Who.{IsShownAs, Agrees}
use nycu_np.Server.Shared.{SharedUser, Shared, put, add_user, min_key, min_key_from}
use nycu_np.Server.State.{UserInfo, Server, find_user, max_conn, ip_len}
use nycu_np.Server.Users
use nycu_np.Server.Users.Ids.{IsSmallestFree, min_key_from-IsSmallestFree}
use nycu_np.Server.Users.{connected_user, place_user}
use nycu_np.Shell.Kernel.{Log, running}

IsShownAs-away :
    (u : SharedUser) (entry : Option UserInfo)
    → IsShownAs u entry
    → u.is_connected ≡ false
    → entry ≡ none
IsShownAs-away u none shown away = refl
IsShownAs-away u (some w) (there, name, ip, port) away = absurd cc

-- The first place that is free has the smallest id that is free.
same_id :
    (s : Shared) (sv : Server) (m n : ℕ)
    → Agrees s sv
    → Found 30 1 s.users m
    → m ≤ 30
    → IsSmallestFree 1 n sv.users
    → n ≡ m
same_id s sv m n a found fits free = elim (Bool-cases (ltb n m)) [
  | inl below ↦
      let less = ltb→lt n m below in
      let away : (s.users n).is_connected ≡ false =
        subst (IsShownAs (s.users n)) free.is_free (a.shown n free.at_least (omega arith)) in
      let there = found.taken n free.at_least less in absurd cc
  | inr first ↦ elim (Bool-cases (ltb m n)) [
    | inl above ↦ absurd (
        free.taken_below m found.above (ltb→lt m n above) (
          IsShownAs-away (s.users m) (find_user sv m) (a.shown m found.above fits)
            (found.free (omega arith))))
    | inr last ↦ ground arith
  ]
]

put-IsShownAs :
    (i j : ℕ) (u : SharedUser) (w : UserInfo) (users : ℕ → SharedUser) (entry : Option UserInfo)
    → IsShownAs u (some w)
    → IsShownAs (users j) entry
    → IsShownAs (put i u users j) (if i == j then some w else entry)
put-IsShownAs i j u w users entry new old = elim (Bool-cases (i == j)) [
  | inl same ↦
      subst (λ v. IsShownAs v (if i == j then some w else entry))
        (sym (put-same i j u users (ground arith)))
        (subst (IsShownAs u) (sym (if_true (i == j) _ _ same)) new)
  | inr other ↦
      subst (λ v. IsShownAs v (if i == j then some w else entry))
        (sym (put-other i j u users (ground arith)))
        (subst (IsShownAs (users j)) (sym (if_false (i == j) _ _ other)) old)
]

module _ (ip : Bytes) (port : ℕ) where
  -- The record of a user who has just connected, in the array.
  abbrev placed : ℤ → SharedUser → SharedUser
  placed pid u = record u {
    ip = take (ip_len - 1) ip;
    name = codes "(no name)";
    port = port;
    pid = pid;
    is_connected = true;
  }

  abbrev with_placed : ℕ → ℤ → Shared → Shared
  with_placed id pid s = record s { users = put id (placed pid (s.users id)) s.users }

  place_user-Agrees :
      (sock id : ℕ) (pid pid' : ℤ) (s : Shared) (sv : Server)
      → 1 ≤ id
      → id ≤ 30
      → Agrees s sv
      → Agrees (with_placed id pid s) (place_user id (connected_user ip port sock pid') sv)
  place_user-Agrees sock id pid pid' s sv low high a = record {
    ids_ascend = insert-IsSorted 1 id user sv.users low a.ids_ascend;
    none_above = λ j h. ground (arith, lookup-insert id j user sv.users, a.none_above j h);
    shown = λ j h k.
        subst (IsShownAs (put id (placed pid (s.users id)) s.users j))
          (sym (lookup-insert id j user sv.users))
          (put-IsShownAs id j (placed pid (s.users id)) user s.users (find_user sv j)
            (refl, refl, refl, refl) (a.shown j h k));
  }
    where
      user : UserInfo
      user = connected_user ip port sock pid'

  -- What the server of a single process makes of the same user.
  abbrev Follows : ℕ → ℤ → Server → Log → Option (Shared × ℕ) → Type 0
  Follows sock pid sv l none = Unit
  Follows sock pid sv l (some (t, id)) =
      (sv' : Server) × (l' : Log) × (Users.add_user ip port sock pid sv l ≡ running sv' l')
      × (sv'.last_uid ≡ id)
      × Agrees t sv'

  -- Where the array holds the users of the map and a place is free, a user who connects gets one id
  -- in both servers, and the array that this leads to holds the users of the map that it leads to.
  pub add_user-Agrees :
      (sock id : ℕ) (pid pid' : ℤ) (s t : Shared) (sv : Server) (l : Log)
      → Agrees s sv
      → add_user ip port pid s ≡ some (t, id)
      → (sv' : Server) × (l' : Log) × (Users.add_user ip port sock pid' sv l ≡ running sv' l')
        × (sv'.last_uid ≡ id)
        × Agrees t sv'
  unfolding add_user min_key Users.add_user Users.min_key
  add_user-Agrees sock id pid pid' s t sv l a e =
      let m = min_key_from 30 1 s.users in
      let found = min_key_from-Found 30 1 s.users in
      let free = min_key_from-IsSmallestFree 1 sv.users a.ids_ascend in
      elim (Bool-cases (ltb m max_conn)) [
        | inl fits ↦
            let bound = ltb→lt m max_conn fits in
            let same = same_id s sv m (Users.min_key_from 1 sv.users) a found (omega arith) free in
            let result = sym (if_true (ltb m max_conn) _ _ fits) ∙ e in
            subst (Follows sock pid' sv l) result (
              _,
              _,
              refl,
              same,
              subst
                  (λ n.
                    Agrees (with_placed m pid s)
                      (place_user n (connected_user ip port sock pid') sv))
                  (sym same) (place_user-Agrees sock m pid pid' s sv found.above (omega arith) a),
            )
        | inr full ↦
            subst (Follows sock pid' sv l) (sym (if_false (ltb m max_conn) _ _ full) ∙ e) tt
      ]
