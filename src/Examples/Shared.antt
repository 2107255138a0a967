-- ===== src/Examples/Shared.antt =====
-- What is proved of the server of processes, at a memory without users.
use nycu_np.Prelude.{
  ℕ, ◌≤◌, true, false, List, [], ◌∷◌, ◌++◌, Option, none, some, Bytes, codes, pos, ◌≡◌, refl, ◌⊎◌,
  arith, ap, subst,
}
use nycu_np.Server.Shared.Mail.{
  Step, sends, prints, empties, messages_to, Sublist, concat, run, run-Sublist,
}
use nycu_np.Server.Shared.Slots.{IsPlaced}
use nycu_np.Server.Shared.Welcome.Greeting.{Spares, IsGreeted, start_client-IsGreeted}
use nycu_np.Server.Shared.Welcome.{start_client}
use nycu_np.Server.Shared.Agree.{add_user-Agrees}
use nycu_np.Server.Shared.Who.{IsShownAs, Agrees, who-Agrees}
use nycu_np.Server.Shared.{SharedUser, Shared, cleared, put, add_user, min_key, kill, who}
use nycu_np.Server.State.{UserInfo, Server, find_user}
use nycu_np.Server.Users
use nycu_np.Server.Users.{connected_user}
use nycu_np.Server.Messages
use nycu_np.Shell.Kernel.{Log, cout, emit, running}

abbrev nobody : Shared
nobody = record {
  users = λ i. cleared;
  signalled = λ i. false;
  handling = λ i. false;
  shown = λ i. [];
}

-- The first message is lost.
abbrev steps : List Step
steps =
    sends 1 (codes "a")
    ∷ sends 1 (codes "b")
    ∷ prints 1
    ∷ sends 1 (codes "d")
    ∷ empties 1
    ∷ sends 2 (codes "c")
    ∷ []

run-Sublist_example :
    (kept : List Bytes) × Sublist kept ([] ∷ messages_to 1 steps)
    × ((run steps nobody).shown 1 ≡ [] ++ concat kept)
run-Sublist_example = run-Sublist 1 steps nobody

-- Somebody is there when a client connects.
abbrev ann_there : Shared
ann_there = record nobody {
  users = put 1 (record cleared { name = codes "ann"; is_connected = true }) nobody.users;
}

-- The other processes show what ann has been sent, at each point.
abbrev ann_reads : ℕ → Shared → Shared
ann_reads k s = kill 1 s

ann_reads-Spares : Spares 2 ann_reads
unfolding kill
ann_reads-Spares = record { user = λ k s. refl; shows = λ k s. refl }

abbrev id_or_zero : Option (Shared × ℕ) → ℕ
id_or_zero none = 0
id_or_zero (some (s, id)) = id

leaves_the_new :
    (id : ℕ) (added : Shared)
    → add_user (codes "10.0.0.1") 5000 (pos 7) ann_there ≡ some (added, id)
    → Spares id ann_reads
unfolding add_user min_key
leaves_the_new id added adds = subst (λ i. Spares i ann_reads) (ap id_or_zero adds) ann_reads-Spares

start_client-IsGreeted_example :
    ((id : ℕ) × (added greeted : Shared) × (add_user (codes "10.0.0.1") 5000 (pos 7) ann_there
        ≡ some (added, id))
      × (start_client ann_reads (codes "10.0.0.1") 5000 (pos 7) ann_there ≡ some (greeted, id))
      × IsPlaced ann_there added id
      × IsGreeted ann_reads (codes "10.0.0.1") 5000 id added greeted)
    ⊎ (((j : ℕ) → 1 ≤ j → j ≤ 30 → (ann_there.users j).is_connected ≡ true)
        × (start_client ann_reads (codes "10.0.0.1") 5000 (pos 7) ann_there ≡ none))
start_client-IsGreeted_example =
    start_client-IsGreeted ann_reads (codes "10.0.0.1") 5000 (pos 7) ann_there leaves_the_new

-- The memory that says what the tables of a server say.
abbrev place_of : Option UserInfo → SharedUser
place_of none = cleared
place_of (some w) = record cleared { port = w.port; ip = w.ip; name = w.name; is_connected = true }

abbrev of_server : Server → Shared
of_server sv = record nobody { users = λ j. place_of (find_user sv j) }

place_of-IsShownAs : (entry : Option UserInfo) → IsShownAs (place_of entry) entry
place_of-IsShownAs none = refl
place_of-IsShownAs (some w) = (refl, refl, refl, refl)

abbrev alice : UserInfo
alice = connected_user (codes "10.0.0.1") 5000 7 (pos 30)

abbrev bob : UserInfo
bob = connected_user (codes "10.0.0.2") 5001 8 (pos 31)

abbrev with_both : Server
with_both = record {
  users = (1, alice) ∷ (3, bob) ∷ [];
  env_table = λ id var. [];
  sock_id_table = (7, 1) ∷ (8, 3) ∷ [];
  server_in = pos 3;
  server_out = pos 4;
  server_err = pos 5;
  last_uid = 0;
}

agreed : Agrees (of_server with_both) with_both
agreed = record {
  ids_ascend = (omega arith, (omega arith, tt));
  none_above = λ j h. ground arith;
  shown = λ j h k. place_of-IsShownAs (find_user with_both j);
}

who-Agrees_example : Messages.who 3 with_both [] ≡ emit (cout (who 3 (of_server with_both))) []
who-Agrees_example = who-Agrees 3 (of_server with_both) with_both [] agreed

-- Carol gets the second place, between the other two.
abbrev with_carol : Shared
with_carol = record (of_server with_both) {
  users =
      put 2
        (record cleared {
          ip = codes "10.0.0.3";
          name = codes "(no name)";
          port = 5002;
          pid = pos 40;
          is_connected = true;
        })
        (of_server with_both).users;
}

add_user-Agrees_example :
    (sv' : Server) × (l' : Log) × (Users.add_user (codes "10.0.0.3") 5002 9 (pos 32) with_both []
      ≡ running sv' l')
    × (sv'.last_uid ≡ 2)
    × Agrees with_carol sv'
unfolding add_user min_key
add_user-Agrees_example =
    add_user-Agrees (codes "10.0.0.3") 5002 9 2 (pos 40) (pos 32) (of_server with_both) with_carol
      with_both [] agreed refl
