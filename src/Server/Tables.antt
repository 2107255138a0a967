-- ===== src/Server/Tables.antt =====
-- What holds of the tables between two requests, and the changes of one user that keep it.
use nycu_np.Prelude.{ℕ, ◌==◌, true, some, ◌≡◌, arith, Bool-cases, inl, inr}
use nycu_np.Prelude.OrderedMap.{insert-IsSorted, lookup-insert, lookup_below}
use nycu_np.Server.State.{UserInfo, Server, find_user, put_user}
use nycu_np.Server.Users.Ids.{IsConsistent}

-- The tables agree, and every user in them is connected.
pub record IsServing (sv : Server) : Type 0 where
  pub consistent : IsConsistent sv
  pub all_connected : (i : ℕ) (u : UserInfo) → find_user sv i ≡ some u → u.is_connected ≡ true

-- A record with the socket and the connection of another.
pub record IsSameUser (u w : UserInfo) : Type 0 where
  pub sock : w.sock ≡ u.sock
  pub is_connected : w.is_connected ≡ u.is_connected

module _ (id : ℕ) (u w : UserInfo) (sv : Server) (there : find_user sv id ≡ some u) where
  pub put_user-IsConsistent : w.sock ≡ u.sock → IsConsistent sv → IsConsistent (put_user id w sv)
  put_user-IsConsistent same v = record {
    ids_ascend =
        insert-IsSorted 1 id w sv.users (ground (arith, lookup_below 1 id sv.users v.ids_ascend))
          v.ids_ascend;
    socks_ascend = v.socks_ascend;
    sock_leads =
        λ j x e. ground (arith, lookup-insert id j w sv.users, v.sock_leads id u, v.sock_leads j x);
    user_there = λ s j e. still s j (v.user_there s j e);
  }
    where
      still :
          (s j : ℕ)
          → (x : UserInfo) × (find_user sv j ≡ some x) × (x.sock ≡ s)
          → (x : UserInfo) × (find_user (put_user id w sv) j ≡ some x) × (x.sock ≡ s)
      still s j (x, found, on) = elim (Bool-cases (id == j)) [
        | inl here ↦ (w, ground (arith, lookup-insert id j w sv.users), ground arith)
        | inr other ↦ (x, ground (arith, lookup-insert id j w sv.users), on)
      ]

  pub put_user-IsServing : IsSameUser u w → IsServing sv → IsServing (put_user id w sv)
  put_user-IsServing same v = record {
    consistent = put_user-IsConsistent same.sock v.consistent;
    all_connected = λ i x e. ground (
      arith,
      lookup-insert id i w sv.users,
      v.all_connected i x,
      v.all_connected id u there,
      same.is_connected,
    );
  }
