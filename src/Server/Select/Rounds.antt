-- ===== src/Server/Select/Rounds.antt =====
-- The tables and the set of watched descriptors, over any number of rounds.
use nycu_np.Server.Select.Table.{HasInserted, serve-table, remove_user-table}
use nycu_np.Prelude.{
  ℕ, zero, suc, ◌+◌, ◌≤◌, ◌<◌, ◌==◌, Bool, true, false, if◌then◌else◌, ltb, leb, List, [], ◌∷◌,
  Option, none, some, ℤ, Option-cases, ◌≡◌, ◌⊎◌, inl, inr, refl, arith, Bool-cases,
}
use nycu_np.Prelude.OrderedMap.{lookup, insert, erase, lookup-insert, lookup-erase}
use nycu_np.Server.Select.{
  FdSet, with_fd, Loop, Client, Sockets, watch, accept_client, leave_or_stay, serve_client,
  serve_fd, visit, round, rounds, start, fd_setsize,
}
use nycu_np.Server.Session.Reach.{IsNew, IsNew-IsServing, serve-IsServing, remove_user-IsServing}
use nycu_np.Server.Session.Invariant.{IsServing-Keeps, run_shell_loop-Serving}
use nycu_np.Server.Session.SameTable.{run_shell_loop-Same}
use nycu_np.Server.Session.{connects, serve, run_shell_loop}
use nycu_np.Server.State.{Server}
use nycu_np.Server.Tables.{IsServing}
use nycu_np.Server.Users.{remove_user}
use nycu_np.Shell.Kernel.{Kernel, Log}
use nycu_np.Shell.Run.Post.{Post, Post-bind, Post-both}

-- `accept` answers with a descriptor that is not open.
abbrev pub AcceptsFresh : Sockets → Type 0
AcceptsFresh net =
    (set : FdSet) (l : Log) (c : Client) → net.accepted set l ≡ some c → set c.sock ≡ false

-- The tables are in order, and the watched descriptors are the listening socket and those of the
-- users, none of them above the bound of the loop.
pub record InStep (server_sock : ℕ) (s : Loop) : Type 0 where
  pub serving : IsServing s.server
  pub listening : s.master_socks server_sock ≡ true
  pub watched :
      (sock id : ℕ) → lookup sock s.server.sock_id_table ≡ some id → s.master_socks sock ≡ true
  pub clients :
      (fd : ℕ)
      → s.master_socks fd ≡ true
      → (fd ≡ server_sock) ⊎ ((id : ℕ) × (lookup fd s.server.sock_id_table ≡ some id))
  pub bounded : (fd : ℕ) → s.master_socks fd ≡ true → fd ≤ s.max_socks
  pub has_room : s.max_socks < fd_setsize

-- A lookup in the table behind a connection, and behind a user who leaves.
looked_up :
    (fd sock id : ℕ) (sv sv' : Server)
    → sv'.sock_id_table ≡ insert sock id sv.sock_id_table
    → lookup fd sv'.sock_id_table ≡ (if sock == fd then some id else lookup fd sv.sock_id_table)
looked_up fd sock id sv sv' table = rw table (lookup-insert sock fd id sv.sock_id_table)

module _ (k : Kernel) (uninit : ℤ) (net : Sockets) where
  abbrev Steps : Loop → Log → Type 0
  Steps s l = InStep net.server_sock s

  watch-InStep :
      (c : Client) (s : Loop) (sv : Server) (id : ℕ)
      → ltb c.sock fd_setsize ≡ true
      → InStep net.server_sock s
      → IsServing sv
      → sv.sock_id_table ≡ insert c.sock id s.server.sock_id_table
      → InStep net.server_sock (record (watch k uninit net c s) { server = sv })
  unfolding watch
  watch-InStep c s sv id fits v serving table = record {
    serving = serving;
    listening = ground (arith, v.listening);
    watched =
        λ sock j e. ground (arith, looked_up sock c.sock id s.server sv table, v.watched sock j);
    clients = λ fd on. elim (Bool-cases (fd == c.sock)) [
      | inl same ↦ inr (id, ground (arith, looked_up fd c.sock id s.server sv table))
      | inr other ↦ elim (v.clients fd (ground arith)) [
        | inl e ↦ inl e
        | inr (j, e) ↦ inr (j, ground (arith, looked_up fd c.sock id s.server sv table))
      ]
    ];
    bounded = λ fd on. ground (arith, v.bounded fd);
    has_room = ground (arith, v.has_room);
  }

  -- A descriptor that is not watched has no user.
  unused :
      (sock : ℕ) (s : Loop)
      → InStep net.server_sock s
      → s.master_socks sock ≡ false
      → lookup sock s.server.sock_id_table ≡ none
  unused sock s v off = elim (Option-cases (lookup sock s.server.sock_id_table)) [
    | inl e ↦ e
    | inr (id, e) ↦ ground (arith, v.watched sock id)
  ]

  accept_client-InStep :
      (o : Option Client) (s : Loop) (l : Log)
      → ((c : Client) → o ≡ some c → s.master_socks c.sock ≡ false)
      → InStep net.server_sock s
      → Post Steps (accept_client k uninit net o s l)
  unfolding accept_client watch
  accept_client-InStep none s l free v = tt
  accept_client-InStep (some c) s l free v = elim (Bool-cases (ltb c.sock fd_setsize)) [
    | inl fits ↦ rw fits (
        Post-bind (λ sv l'. IsServing sv × HasInserted c.sock s.server sv l') Steps _ _
          (Post-both _ _ (serve k uninit (connects c.ip c.port c.sock) s.server l)
            (serve-IsServing k uninit (connects c.ip c.port c.sock) s.server l
              (unused c.sock s v (free c refl)) v.serving)
            (serve-table k uninit c.ip c.port c.sock s.server l))
          λ sv l₁ (serving, (id, table)). watch-InStep c s sv id fits v serving table)
    | inr large ↦ rw large tt
  ]

  -- A step that leaves the set and the table of sockets as they are.
  same-InStep :
      (s : Loop) (sv : Server)
      → InStep net.server_sock s
      → IsServing sv
      → sv.sock_id_table ≡ s.server.sock_id_table
      → InStep net.server_sock (record s { server = sv })
  same-InStep s sv v serving same = record {
    serving = serving;
    listening = v.listening;
    watched = λ sock id e. v.watched sock id cc;
    clients = λ fd on. rw same (v.clients fd on);
    bounded = v.bounded;
    has_room = v.has_room;
  }

  unwatch-InStep :
      (fd : ℕ) (s : Loop) (sv : Server)
      → (fd == net.server_sock) ≡ false
      → InStep net.server_sock s
      → IsServing sv
      → sv.sock_id_table ≡ erase fd s.server.sock_id_table
      → InStep net.server_sock
          (record s { server = sv; master_socks = with_fd fd false s.master_socks })
  unwatch-InStep fd s sv other v serving table = record {
    serving = serving;
    listening = ground (arith, v.listening);
    watched = λ sock id e. ground (arith, gone sock, v.watched sock id);
    clients = λ i on. elim (v.clients i (ground arith)) [
      | inl e ↦ inl e
      | inr (id, e) ↦ inr (id, ground (arith, gone i))
    ];
    bounded = λ i on. ground (arith, v.bounded i);
    has_room = v.has_room;
  }
    where
      gone :
          (sock : ℕ)
          → lookup sock sv.sock_id_table
            ≡ (if fd == sock then none else lookup sock s.server.sock_id_table)
      gone sock =
          rw table (lookup-erase 0 fd sock s.server.sock_id_table v.serving.consistent.socks_ascend)

  leave_or_stay-InStep :
      (fd : ℕ) (s : Loop) (r : Server × Bool) (l : Log)
      → (fd == net.server_sock) ≡ false
      → InStep net.server_sock s
      → IsServing r.0 × (r.0.sock_id_table ≡ s.server.sock_id_table)
      → Post Steps (leave_or_stay k uninit net fd s r l)
  unfolding leave_or_stay
  leave_or_stay-InStep fd s (sv, true) l other v (serving, same) = same-InStep s sv v serving same
  leave_or_stay-InStep fd s (sv, false) l other v (serving, same) =
      Post-bind (λ sv' l'. IsServing sv' × (sv'.sock_id_table ≡ erase fd sv.sock_id_table)) Steps _
        _
        (Post-both _ _ (remove_user fd sv l) (remove_user-IsServing fd sv l serving)
          (remove_user-table fd sv l))
        λ left l₁ (w, table). unwatch-InStep fd s left other v w (rw table (rw same refl))

  serve_client-InStep :
      (fd : ℕ) (s : Loop) (l : Log)
      → (fd == net.server_sock) ≡ false
      → InStep net.server_sock s
      → Post Steps (serve_client k uninit net fd s l)
  unfolding serve_client
  serve_client-InStep fd s l other v =
      let text = net.line fd l in
      Post-bind (λ r l'. IsServing r.0 × (r.0.sock_id_table ≡ s.server.sock_id_table)) Steps _ _
        (Post-both _ _ (run_shell_loop k uninit fd text s.server l)
          (run_shell_loop-Serving IsServing IsServing-Keeps k uninit fd text s.server l v.serving)
          (run_shell_loop-Same s.server.sock_id_table k uninit fd text s.server l refl))
        λ r l₁ h. leave_or_stay-InStep fd s r l₁ other v h

  module _ (fresh : AcceptsFresh net) where
    serve_fd-InStep :
        (fd : ℕ) (s : Loop) (l : Log)
        → InStep net.server_sock s
        → Post Steps (serve_fd k uninit net fd s l)
    unfolding serve_fd
    serve_fd-InStep fd s l v = elim (Bool-cases (fd == net.server_sock)) [
      | inl here ↦ rw here (
          accept_client-InStep (net.accepted s.master_socks l) s l
            (λ c e. fresh s.master_socks l c e) v)
      | inr other ↦ rw other (serve_client-InStep fd s l other v)
    ]

    visit-InStep :
        (fuel fd : ℕ) (ready : FdSet) (s : Loop) (l : Log)
        → InStep net.server_sock s
        → Post Steps (visit k uninit net fuel fd ready s l)
    unfolding visit
    visit-InStep zero fd ready s l v = v
    visit-InStep (suc fuel) fd ready s l v = elim (Bool-cases (leb fd s.max_socks)) [
      | inl below ↦ elim (Bool-cases (ready fd)) [
        | inl on ↦ rw below (
            rw on (
              Post-bind Steps Steps (serve_fd k uninit net fd s l) _ (serve_fd-InStep fd s l v)
                λ s' l₁ w. visit-InStep fuel (fd + 1) ready s' l₁ w))
        | inr off ↦ rw below (rw off (visit-InStep fuel (fd + 1) ready s l v))
      ]
      | inr above ↦ rw above v
    ]

    round-InStep :
        (ready : Option FdSet) (s : Loop) (l : Log)
        → InStep net.server_sock s
        → Post Steps (round k uninit net ready s l)
    unfolding round
    round-InStep none s l v = v
    round-InStep (some ready) s l v = visit-InStep fd_setsize 0 ready s l v

    -- Over any number of rounds, whatever `select` reports ready and whatever the clients send, where
    -- the descriptor of a new connection is one that is not watched, a loop that goes on keeps what
    -- holds of its variables before the first round: the tables of users and sockets agree, the
    -- listening socket is watched, the other watched descriptors are those of the users and no
    -- others, and none is above the bound of the loop over the descriptors, which is below the size
    -- of the set.
    pub rounds-InStep :
        (reports : List (Option FdSet)) (s : Loop) (l : Log)
        → InStep net.server_sock s
        → Post (λ s' l'. InStep net.server_sock s') (rounds k uninit net reports s l)
    unfolding rounds
    rounds-InStep [] s l v = v
    rounds-InStep (ready ∷ more) s l v =
        Post-bind Steps Steps (round k uninit net ready s l) _ (round-InStep ready s l v)
          λ s' l₁ w. rounds-InStep more s' l₁ w

-- The variables before the loop.
pub start-InStep :
    (server_sock : ℕ) (sv : Server)
    → server_sock < fd_setsize
    → IsNew sv
    → InStep server_sock (start server_sock sv)
start-InStep server_sock sv small (nobody, unused) = record {
  serving = IsNew-IsServing sv (nobody, unused);
  listening = ground arith;
  watched = λ sock id e. absurd (empty_lookup sock id (rw unused at e));
  clients = λ fd on. inl (ground arith);
  bounded = λ fd on. ground arith;
  has_room = small;
}
  where
    empty_lookup : (sock id : ℕ) → lookup sock [] ≡ some id → ⊥
    empty_lookup sock id e = cc
