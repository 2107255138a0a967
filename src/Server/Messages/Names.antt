-- ===== src/Server/Messages/Names.antt =====
-- No two users have the same name, but for those who have not chosen one.
use nycu_np.Prelude.{
  ℕ, true, false, ltb, List, [], ◌∷◌, Option, none, some, Bytes, codes, c_text, ℤ, ◌≡◌, ◌≢◌, refl,
  arith, Bool-cases, inl, inr, ◌⊎◌, equal_iff, length,
}
use nycu_np.Prelude.OrderedMap.{lookup, lookup-insert, lookup-erase, IsSorted}
use nycu_np.Server.Messages.{name, set_name, copy_name, name_exists}
use nycu_np.Server.State.{UserInfo, Server, find_user, put_user, name_msg, max_user_name_len}
use nycu_np.Server.Users.{place_user, erase_user, connected_user}
use nycu_np.Server.Users.Leave.{broadcast_message-SendsTo}
use nycu_np.Shell.Kernel.{Log}
use nycu_np.Shell.Run.Post.{Post}

-- Two users with one name are the same user, or neither has chosen a name; every user in the
-- table is connected.
pub record HasUniqueNames (sv : Server) : Type 0 where
  pub unique :
      (i j : ℕ) (u w : UserInfo)
      → find_user sv i ≡ some u
      → find_user sv j ≡ some w
      → u.name ≡ w.name
      → (i ≡ j) ⊎ (u.name ≡ codes "(no name)")
  pub all_connected : (i : ℕ) (u : UserInfo) → find_user sv i ≡ some u → u.is_connected ≡ true

-- A name that is not found belongs to no connected user.
name_exists_sound :
    (wanted : Bytes) (users : List (ℕ × UserInfo)) (j : ℕ) (w : UserInfo)
    → name_exists wanted users ≡ false
    → lookup j users ≡ some w
    → w.is_connected ≡ true
    → w.name ≢ wanted
unfolding name_exists
name_exists_sound wanted [] j w h e c same = cc
name_exists_sound wanted ((i, u) ∷ rest) j w h e c same =
    ground (arith, equal_iff u.name wanted, name_exists_sound wanted rest j w)

renamed-HasUniqueNames :
    (id : ℕ) (me : UserInfo) (wanted : Bytes) (sv : Server)
    → HasUniqueNames sv
    → find_user sv id ≡ some me
    → name_exists wanted sv.users ≡ false
    → HasUniqueNames (put_user id (record me { name = wanted }) sv)
renamed-HasUniqueNames id me wanted sv v there free = record {
  unique = λ i j u w e f same. ground (
    arith,
    lookup-insert id i (record me { name = wanted }) sv.users,
    lookup-insert id j (record me { name = wanted }) sv.users,
    v.unique i j u w,
    v.all_connected i u,
    v.all_connected j w,
    name_exists_sound wanted sv.users i u free,
    name_exists_sound wanted sv.users j w free,
  );
  all_connected = λ i u e. ground (
    arith,
    lookup-insert id i (record me { name = wanted }) sv.users,
    v.all_connected i u,
    v.all_connected id me there,
  );
}

set_name-HasUniqueNames :
    (id : ℕ) (wanted : Bytes) (sv : Server) (l : Log) (me : Option UserInfo)
    → HasUniqueNames sv
    → find_user sv id ≡ me
    → name_exists wanted sv.users ≡ false
    → c_text wanted ≡ wanted
    → Post (λ sv' l'. HasUniqueNames sv') (set_name id wanted sv l)
unfolding set_name copy_name
set_name-HasUniqueNames id wanted sv l none v there free whole = rw there tt
set_name-HasUniqueNames id wanted sv l (some me) v there free whole =
    elim (Bool-cases (ltb (length wanted) max_user_name_len)) [
      | inl fits ↦
          let renamed = put_user id (record me { name = wanted }) sv in
          let (l', told_all, sent) =
            broadcast_message-SendsTo renamed (name_msg me.ip me.port wanted) l in
          rw (there, whole, fits, told_all) (renamed-HasUniqueNames id me wanted sv v there free)
      | inr long ↦ rw (there, whole, long) tt
    ]

-- Asking for a name without a NUL, which is stored whole, keeps the names unique, whether or not it
-- is granted.
pub name-HasUniqueNames :
    (id : ℕ) (wanted : Bytes) (sv : Server) (l : Log)
    → HasUniqueNames sv
    → c_text wanted ≡ wanted
    → Post (λ sv' l'. HasUniqueNames sv') (name id wanted sv l)
name-HasUniqueNames id wanted sv l v whole = elim (Bool-cases (name_exists wanted sv.users)) [
  | inl taken ↦ unfold name in rw taken v
  | inr free ↦
      unfold name in
      rw free (set_name-HasUniqueNames id wanted sv l (find_user sv id) v refl free whole)
]

-- A new user, and one that leaves, keep the names unique.
pub place_user-HasUniqueNames :
    (id : ℕ) (ip : Bytes) (port sock : ℕ) (pid : ℤ) (sv : Server)
    → HasUniqueNames sv
    → HasUniqueNames (place_user id (connected_user ip port sock pid) sv)
place_user-HasUniqueNames id ip port sock pid sv v =
    let user = connected_user ip port sock pid in
    record {
      unique = λ i j u w e f same. ground (
        arith,
        lookup-insert id i user sv.users,
        lookup-insert id j user sv.users,
        v.unique i j u w,
      );
      all_connected =
          λ i u e. ground (arith, lookup-insert id i user sv.users, v.all_connected i u);
    }

pub erase_user-HasUniqueNames :
    (id sock : ℕ) (sv : Server)
    → IsSorted 1 sv.users
    → HasUniqueNames sv
    → HasUniqueNames (erase_user id sock sv)
erase_user-HasUniqueNames id sock sv s v = record {
  unique = λ i j u w e f same.
      ground
        (arith, lookup-erase 1 id i sv.users s, lookup-erase 1 id j sv.users s, v.unique i j u w);
  all_connected = λ i u e. ground (arith, lookup-erase 1 id i sv.users s, v.all_connected i u);
}
