-- ===== src/Server/Users/Ids.antt =====
-- The ids that users are given.
use nycu_np.Prelude.{length}
use nycu_np.Prelude.{◌++◌, to_string}
use nycu_np.Prelude.{
  ℕ, suc, ◌+◌, ◌≤◌, ◌<◌, if◌then◌else◌, ltb, ◌==◌, List, [], ◌∷◌, none, some, Bytes, codes, ℤ, ◌≡◌,
  ◌≢◌, refl, arith, Bool-cases, inl, inr,
}
use nycu_np.Prelude.OrderedMap.{
  lookup, IsSorted, insert-IsSorted, lookup_below, lookup-insert, IsSorted-mono,
}
use nycu_np.Server.State.{UserInfo, Server, find_user, get_serving_user_id}
use nycu_np.Server.Users.{min_key_from, min_key, connected_user, place_user, add_user}
use nycu_np.Shell.Kernel.{Log, running, cout}

-- `id` is the smallest free id from `lo` on.
pub record IsSmallestFree (lo id : ℕ) (users : List (ℕ × UserInfo)) : Type 0 where
  pub at_least : lo ≤ id
  pub is_free : lookup id users ≡ none
  pub taken_below : (j : ℕ) → lo ≤ j → j < id → lookup j users ≢ none

still_taken :
    (u : UserInfo) (rest : List (ℕ × UserInfo)) (id j : ℕ)
    → id ≤ j
    → (id + 1 ≤ j → lookup j rest ≢ none)
    → lookup j ((id, u) ∷ rest) ≢ none
still_taken u rest id j a later = elim (Bool-cases (id == j)) [
  | inl same ↦ rw same (λ e. cc)
  | inr other ↦ rw other (later (ground arith))
]

pub min_key_from-IsSmallestFree :
    (lo : ℕ) (users : List (ℕ × UserInfo))
    → IsSorted lo users
    → IsSmallestFree lo (min_key_from lo users) users
unfolding min_key_from
min_key_from-IsSmallestFree lo [] s = record {
  at_least = omega arith;
  is_free = refl;
  taken_below = λ j a b. absurd (omega arith);
}
min_key_from-IsSmallestFree lo ((id, u) ∷ rest) s = elim (Bool-cases (ltb lo id)) [
  | inl above ↦ rw above (record {
    at_least = omega arith;
    is_free = ground (arith, lookup_below (suc id) lo rest s.1);
    taken_below = λ j a b. absurd (omega arith);
  })
  | inr here ↦
      let same : id ≡ lo = ground (arith, s.0) in
      let ih =
        min_key_from-IsSmallestFree (lo + 1) rest
          (IsSorted-mono rest (lo + 1) (suc id) (omega arith) s.1) in
      rw here (record {
        at_least = omega (arith, ih.at_least);
        is_free = ground (arith, ih.is_free, ih.at_least);
        taken_below =
            λ j a b. still_taken u rest id j (omega arith) (λ c. ih.taken_below j (omega arith) b);
      })
]

min_key_from-le : (lo : ℕ) (users : List (ℕ × UserInfo)) → min_key_from lo users ≤ lo + length users
unfolding min_key_from
min_key_from-le lo [] = omega arith
min_key_from-le lo ((id, u) ∷ rest) = ground (arith, min_key_from-le (lo + 1) rest)

-- The tables agree: the users' ids start at 1 and ascend, the socket of each user leads to the id
-- of that user, and every socket in the table belongs to the user of its id.
pub record IsConsistent (sv : Server) : Type 0 where
  pub ids_ascend : IsSorted 1 sv.users
  pub socks_ascend : IsSorted 0 sv.sock_id_table
  pub sock_leads :
      (id : ℕ) (u : UserInfo) → find_user sv id ≡ some u → lookup u.sock sv.sock_id_table ≡ some id
  pub user_there :
      (sock id : ℕ)
      → lookup sock sv.sock_id_table ≡ some id
      → (u : UserInfo) × (find_user sv id ≡ some u) × (u.sock ≡ sock)

pub place_user-IsConsistent :
    (id : ℕ) (user : UserInfo) (sv : Server)
    → IsConsistent sv
    → IsSmallestFree 1 id sv.users
    → lookup user.sock sv.sock_id_table ≡ none
    → IsConsistent (place_user id user sv)
place_user-IsConsistent id user sv v free fresh = record {
  ids_ascend = insert-IsSorted 1 id user sv.users free.at_least v.ids_ascend;
  socks_ascend = insert-IsSorted 0 user.sock id sv.sock_id_table (omega arith) v.socks_ascend;
  sock_leads = λ j w e. ground (
    arith,
    lookup-insert id j user sv.users,
    lookup-insert user.sock w.sock id sv.sock_id_table,
    v.sock_leads j w,
  );
  user_there = λ s j e. there s j (rw lookup-insert at e);
}
  where
    there :
        (s j : ℕ)
        → (if user.sock == s then some id else lookup s sv.sock_id_table) ≡ some j
        → (u : UserInfo) × (find_user (place_user id user sv) j ≡ some u) × (u.sock ≡ s)
    there s j e = elim (Bool-cases (user.sock == s)) [
      | inl same ↦ (user, ground (arith, lookup-insert id j user sv.users), ground arith)
      | inr other ↦
          let (u, found, at) = v.user_there s j (ground arith) in
          (u, ground (arith, lookup-insert id j user sv.users, free.is_free), at)
    ]

-- What adding a user does.
pub record Added (sv : Server) (sock : ℕ) (sv' : Server) : Type 0 where
  pub user : UserInfo
  pub smallest : IsSmallestFree 1 sv'.last_uid sv.users
  pub is_there : find_user sv' sv'.last_uid ≡ some user
  pub unnamed : user.name ≡ codes "(no name)"
  pub by_sock : get_serving_user_id sv' sock ≡ sv'.last_uid
  pub others : (j : ℕ) → j ≢ sv'.last_uid → find_user sv' j ≡ find_user sv j
  pub consistent : IsConsistent sv'

place_user-Added :
    (id : ℕ) (user : UserInfo) (sv : Server)
    → IsConsistent sv
    → IsSmallestFree 1 id sv.users
    → lookup user.sock sv.sock_id_table ≡ none
    → user.name ≡ codes "(no name)"
    → Added sv user.sock (place_user id user sv)
unfolding get_serving_user_id
place_user-Added id user sv v free fresh name = record {
  user = user;
  smallest = free;
  is_there = ground (arith, lookup-insert id id user sv.users);
  unnamed = name;
  by_sock = ground (arith, lookup-insert user.sock user.sock id sv.sock_id_table);
  others = λ j ne. ground (arith, lookup-insert id j user sv.users);
  consistent = place_user-IsConsistent id user sv v free fresh;
}

-- What the server prints of a new user.
abbrev pub announced : Bytes → ℕ → ℕ → Log → Log
announced ip port id l =
    cout (codes "add user " ++ to_string id ++ codes "\n")
    ∷ cout (
        codes "accept new connection from ip "
        ++ ip
        ++ codes ", port "
        ++ to_string port
        ++ codes "\n")
    ∷ l

-- Where the tables are consistent, a user who connects on a socket that is not in use is given
-- the smallest id that is free, from 1 on; the user is found under that id and by the socket, with
-- the name "(no name)"; no other user changes, and the tables stay consistent. The server prints
-- the connection and the id.
pub add_user-Added :
    (ip : Bytes) (port sock : ℕ) (pid : ℤ) (sv : Server) (l : Log)
    → IsConsistent sv
    → lookup sock sv.sock_id_table ≡ none
    → (sv' : Server) × (add_user ip port sock pid sv l
        ≡ running sv' (announced ip port sv'.last_uid l))
      × Added sv sock sv'
unfolding add_user
add_user-Added ip port sock pid sv l v fresh = (
  _,
  refl,
  place_user-Added (min_key sv.users) (connected_user ip port sock pid) sv v
      (unfold min_key in min_key_from-IsSmallestFree 1 sv.users v.ids_ascend) fresh refl,
)

-- Whatever the tables hold, the id that a new user is given is at most one more than the number of
-- users who are there.
add_user_bound :
    (ip : Bytes) (port sock : ℕ) (pid : ℤ) (sv : Server) (l : Log)
    → (sv' : Server) × (l' : Log) × (add_user ip port sock pid sv l ≡ running sv' l')
      × (sv'.last_uid ≤ length sv.users + 1)
unfolding add_user min_key
add_user_bound ip port sock pid sv l = (_, _, refl, omega (arith, min_key_from-le 1 sv.users))
