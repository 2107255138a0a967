-- ===== src/Server/Simple/Alone.antt =====
-- Whom the process of one client knows.
use nycu_np.Prelude.{
  ℕ, zero, suc, Bool, true, false, if◌then◌else◌, List, [], ◌∷◌, none, some, Bytes, ℤ, ◌≡◌,
  Option-cases, codes, pos, inl, inr, refl, arith, Bool-cases,
}
use nycu_np.Prelude.OrderedMap.{lookup, erase}
use nycu_np.Server.Select.Table.{remove_user-table}
use nycu_np.Server.Select.{Client}
use nycu_np.Server.Session.Invariant.{IsServing-Keeps, run_shell_loop-Serving}
use nycu_np.Server.Session.Reach.{IsNew, IsNew-IsServing, add_user-IsServing, remove_user-IsServing}
use nycu_np.Server.Session.SameTable.{run_shell_loop-Same}
use nycu_np.Server.Session.{run_shell_loop}
use nycu_np.Server.Simple.{Listener, survive, turns, leave, session}
use nycu_np.Server.State.{UserInfo, Server, find_user}
use nycu_np.Server.Tables.{IsServing}
use nycu_np.Server.Users.{add_user, remove_user, min_key, min_key_from}
use nycu_np.Shell.Kernel.{Kernel, Log, Proc, send, pure}
use nycu_np.Shell.Run.Post.{Post, Post-bind, Post-both}

-- While the client is there, the tables are in order, and it is the only user, with the id 1;
-- behind it, there is nobody.
pub record IsOnly (sock : ℕ) (sv : Server) : Type 0 where
  pub serving : IsServing sv
  pub there : (u : UserInfo) × (find_user sv 1 ≡ some u)
  pub only : (id : ℕ) (u : UserInfo) → find_user sv id ≡ some u → (id ≡ 1) × (u.sock ≡ sock)

abbrev pub IsAlone : ℕ → Server × Bool → Type 0
IsAlone sock (sv, true) = IsOnly sock sv
IsAlone sock (sv, false) = IsNew sv

-- What the turns keep.
abbrev IsIn : ℕ → Server → Type 0
IsIn sock sv = IsServing sv × (sv.sock_id_table ≡ (sock, 1) ∷ [])

one_entry : (sock i id : ℕ) → lookup i ((sock, 1) ∷ []) ≡ some id → (id ≡ 1) × (i ≡ sock)
one_entry sock i id e = (ground arith, ground arith)

IsIn-IsOnly : (sock : ℕ) (sv : Server) → IsIn sock sv → IsOnly sock sv
IsIn-IsOnly sock sv (v, table) = record {
  serving = v;
  there =
      let (u, found, at_sock) = v.consistent.user_there sock 1 (rw table (ground arith)) in
      (u, found);
  only = λ id u e. one_entry sock u.sock id (rw table at (v.consistent.sock_leads id u e));
}

nobody : (users : List (ℕ × UserInfo)) → ((id : ℕ) → lookup id users ≡ none) → users ≡ []
nobody [] h = refl
nobody ((i, u) ∷ more) h = ground (arith, h i)

erase_only : (sock id : ℕ) → erase {V = ℕ} sock ((sock, id) ∷ []) ≡ []
erase_only sock id = ground arith

left-IsNew : (sv : Server) → IsServing sv → sv.sock_id_table ≡ [] → IsNew sv
left-IsNew sv v table = (nobody sv.users unknown, table)
  where
    nowhere : (sock id : ℕ) → lookup sock [] ≡ some id → ⊥
    nowhere sock id e = cc

    unknown : (id : ℕ) → lookup id sv.users ≡ none
    unknown id = elim (Option-cases (lookup id sv.users)) [
      | inl e ↦ e
      | inr (u, e) ↦ absurd (nowhere u.sock id (rw table at (v.consistent.sock_leads id u e)))
    ]

module _ (k : Kernel) (uninit : ℤ) (net : Listener) where
  abbrev Turned : ℕ → Server × Bool → Log → Type 0
  Turned sock r l = IsIn sock r.0

  abbrev Ends : ℕ → Server × Bool → Log → Type 0
  Ends sock r l = IsAlone sock r

  survive-Post :
      (Q : Server × Bool → Log → Type 0) (p : Proc (Server × Bool)) (l : Log)
      → Post Q (p l)
      → Post Q (survive k uninit net p l)
  survive-Post Q p l h = elim (Bool-cases (net.is_killed l)) [
    | inl killed ↦ rw killed tt
    | inr alive ↦ rw alive h
  ]

  -- What follows one turn.
  turn-IsIn :
      (n sock : ℕ)
      → ((sv : Server) (l : Log)
          → IsIn sock sv
          → Post (Turned sock) (turns k uninit net n sock sv l))
      → (r : Server × Bool) (l : Log) → IsIn sock r.0
      → Post (Turned sock) (
          (if r.1
              then (if net.is_on l then turns k uninit net n sock r.0 else pure (r.0, false))
              else pure (r.0, false))
            l)
  turn-IsIn n sock next (sv, false) l w = w
  turn-IsIn n sock next (sv, true) l w = elim (Bool-cases (net.is_on l)) [
    | inl on ↦ rw on (next sv l w)
    | inr off ↦ rw off w
  ]

  turns-IsIn :
      (n sock : ℕ) (sv : Server) (l : Log)
      → IsIn sock sv
      → Post (Turned sock) (turns k uninit net n sock sv l)
  unfolding turns
  turns-IsIn zero sock sv l v = v
  turns-IsIn (suc n) sock sv l (v, table) =
      let text = net.line l in
      Post-bind (Turned sock) (Turned sock) _ _
        (Post-both _ _ (run_shell_loop k uninit sock text sv l)
          (run_shell_loop-Serving IsServing IsServing-Keeps k uninit sock text sv l v)
          (run_shell_loop-Same ((sock, 1) ∷ []) k uninit sock text sv l table))
        (λ r l' w.
          survive-Post (Turned sock)
            (if r.1
              then (if net.is_on l' then turns k uninit net n sock r.0 else pure (r.0, false))
              else pure (r.0, false))
            l' (turn-IsIn n sock (λ sv' l₁ w'. turns-IsIn n sock sv' l₁ w') r l' w))

  leave-IsAlone :
      (sock : ℕ) (r : Server × Bool) (l : Log)
      → IsIn sock r.0
      → Post (Ends sock) (leave k uninit net sock r l)
  unfolding leave
  leave-IsAlone sock (sv, true) l h = IsIn-IsOnly sock sv h
  leave-IsAlone sock (sv, false) l (v, table) =
      Post-bind (λ left l'. IsServing left × (left.sock_id_table ≡ erase sock sv.sock_id_table))
        (Ends sock) _ _
        (Post-both _ _ (remove_user sock sv l) (remove_user-IsServing sock sv l v)
          (remove_user-table sock sv l))
        λ left l₁ (w, e). left-IsNew left w (rw e (rw table (erase_only sock 1)))

  -- The first user gets the id 1.
  add_user-first :
      (ip : Bytes) (port sock : ℕ) (pid : ℤ) (sv : Server) (l : Log)
      → IsNew sv
      → Post (λ sv' l'. sv'.sock_id_table ≡ (sock, 1) ∷ []) (add_user ip port sock pid sv l)
  unfolding add_user min_key min_key_from
  add_user-first ip port sock pid sv l (none_yet, unused) = rw (none_yet, unused) refl

  -- The process of a client, started where nobody is connected: whatever the client sends, where the
  -- process goes on: while the client is there, it is the only user, with the id 1, and the tables are
  -- in order; once it has left, or the server is stopped, they are empty again.
  pub session-IsAlone :
      (n : ℕ) (c : Client) (sv : Server) (l : Log)
      → IsNew sv
      → Post (λ r l'. IsAlone c.sock r) (session k uninit net n c sv l)
  unfolding session
  session-IsAlone n c sv l new =
      Post-bind (λ sv' l'. IsIn c.sock sv') (Ends c.sock) _ _
        (Post-both _ _ (add_user c.ip c.port c.sock _ sv _)
          (add_user-IsServing c.ip c.port c.sock _ sv _ (rw new.1 refl) (IsNew-IsServing sv new))
          (add_user-first c.ip c.port c.sock _ sv _ new))
        λ sv' l₁ h.
          let said = send (pos c.sock) (codes "% ") ∷ l₁ in
          Post-bind (Turned c.sock) (Ends c.sock)
            (survive k uninit net (turns k uninit net n c.sock sv') said) _
            (survive-Post (Turned c.sock) (turns k uninit net n c.sock sv') said
              (turns-IsIn n c.sock sv' said h))
            (λ r l₂ w. leave-IsAlone c.sock r l₂ w)
