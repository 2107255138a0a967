-- ===== src/Server/Select/Ascending.antt =====
-- One round of the loop: which descriptors it serves, and in what order.
use nycu_np.Prelude.{
  ℕ, zero, suc, ◌+◌, ◌≤◌, ◌<◌, ◌==◌, Bool, true, false, if◌then◌else◌, ltb, leb, List, [], ◌∷◌,
  Option, none, some, ℤ, ◌≡◌, inl, inr, refl, arith, Bool-cases,
}
use nycu_np.Server.Select.{
  FdSet, Loop, Client, Sockets, watch, accept_client, leave_or_stay, serve_client, serve_fd, visit,
  round, fd_setsize,
}
use nycu_np.Server.Session.{connects, serve, run_shell_loop}
use nycu_np.Server.State.{Server}
use nycu_np.Server.Users.{remove_user}
use nycu_np.Shell.Kernel.{
  Kernel, Log, Outcome, running, exited, fault, Proc, bind_outcome, pure, ◌>>=◌,
}
use nycu_np.Shell.Run.Post.{Post, Post-seq}

-- The ready descriptors among the `n` from `fd` on, in ascending order.
unfoldable pub ready_from : ℕ → ℕ → FdSet → List ℕ
ready_from zero fd ready = []
ready_from (suc n) fd ready =
    let rest = ready_from n (fd + 1) ready in if ready fd then fd ∷ rest else rest

-- Two continuations that agree on what the first step can give.
bind-agree :
    {A B : Type 0} (P : A → Log → Type 0) (m : Outcome A) (f g : A → Proc B)
    → Post P m
    → ((a : A) (l : Log) → P a l → f a l ≡ g a l)
    → bind_outcome m f ≡ bind_outcome m g
bind-agree P (running a l) f g h agree = agree a l h
bind-agree P (exited l) f g h agree = refl
bind-agree P fault f g h agree = refl

module _ (k : Kernel) (uninit : ℤ) (net : Sockets) where
  -- Each descriptor of a list in turn.
  pub serve_each : List ℕ → Loop → Proc Loop
  serve_each [] s = pure s
  serve_each (fd ∷ fds) s = do s' ← serve_fd k uninit net fd s; serve_each fds s'

  abbrev Grows : ℕ → Loop → Log → Type 0
  Grows bound s l = bound ≤ s.max_socks

  -- The bound of the loop never falls.
  accept_client-Grows :
      (bound : ℕ) (o : Option Client) (s : Loop) (l : Log)
      → bound ≤ s.max_socks
      → Post (Grows bound) (accept_client k uninit net o s l)
  unfolding accept_client watch
  accept_client-Grows bound none s l h = tt
  accept_client-Grows bound (some c) s l h = elim (Bool-cases (ltb c.sock fd_setsize)) [
    | inl fits ↦ rw fits (
        Post-seq (Grows bound) (serve k uninit (connects c.ip c.port c.sock) s.server l) _
          λ sv l'. ground arith)
    | inr large ↦ rw large tt
  ]

  leave_or_stay-Grows :
      (bound fd : ℕ) (s : Loop) (r : Server × Bool) (l : Log)
      → bound ≤ s.max_socks
      → Post (Grows bound) (leave_or_stay k uninit net fd s r l)
  unfolding leave_or_stay
  leave_or_stay-Grows bound fd s (sv, true) l h = h
  leave_or_stay-Grows bound fd s (sv, false) l h =
      Post-seq (Grows bound) (remove_user fd sv l) _ λ left l'. h

  serve_fd-Grows :
      (bound fd : ℕ) (s : Loop) (l : Log)
      → bound ≤ s.max_socks
      → Post (Grows bound) (serve_fd k uninit net fd s l)
  unfolding serve_fd serve_client
  serve_fd-Grows bound fd s l h = elim (Bool-cases (fd == net.server_sock)) [
    | inl here ↦ rw here (accept_client-Grows bound (net.accepted s.master_socks l) s l h)
    | inr other ↦ rw other (
        Post-seq (Grows bound) (run_shell_loop k uninit fd (net.line fd l) s.server l) _
          λ r l'. leave_or_stay-Grows bound fd s r l' h)
  ]

  module _ (bound : ℕ) (ready : FdSet) (below : (fd : ℕ) → ready fd ≡ true → fd ≤ bound) where
    visit-idle :
        (fuel fd : ℕ) (s : Loop) (l : Log)
        → bound < fd
        → visit k uninit net fuel fd ready s l ≡ running s l
    unfolding visit
    visit-idle zero fd s l past = refl
    visit-idle (suc fuel) fd s l past = elim (Bool-cases (ready fd)) [
      | inl on ↦ ground (arith, below fd)
      | inr off ↦ elim (Bool-cases (leb fd s.max_socks)) [
        | inl low ↦ rw low (rw off (visit-idle fuel (fd + 1) s l (ground arith)))
        | inr high ↦ rw high refl
      ]
    ]

    visit-ascending :
        (n fuel fd : ℕ) (s : Loop) (l : Log)
        → n ≤ fuel
        → fd + n ≡ bound + 1
        → bound ≤ s.max_socks
        → visit k uninit net fuel fd ready s l ≡ serve_each (ready_from n fd ready) s l
    unfolding visit serve_each ready_from
    visit-ascending zero fuel fd s l enough at_end h = visit-idle fuel fd s l (ground arith)
    visit-ascending (suc n) zero fd s l enough at_end h = ground arith
    visit-ascending (suc n) (suc fuel) fd s l enough at_end h =
        let low : leb fd s.max_socks ≡ true = ground arith in
        rw low (elim (Bool-cases (ready fd)) [
          | inl on ↦ rw on (
              bind-agree (Grows bound) (serve_fd k uninit net fd s l) _ _
                (serve_fd-Grows bound fd s l h)
                λ s' l' w. visit-ascending n fuel (fd + 1) s' l' (ground arith) (ground arith) w)
          | inr off ↦ rw off (visit-ascending n fuel (fd + 1) s l (ground arith) (ground arith) h)
        ])

  -- A round serves every descriptor that `select` reports ready once, in ascending order, whatever
  -- the descriptors served before it change, where those reported are at most the bound of the loop
  -- when the round begins and that bound is below the size of the set.
  pub round-ascending :
      (ready : FdSet) (s : Loop) (l : Log)
      → ((fd : ℕ) → ready fd ≡ true → fd ≤ s.max_socks)
      → s.max_socks < fd_setsize
      → round k uninit net (some ready) s l ≡ serve_each (ready_from (s.max_socks + 1) 0 ready) s l
  unfolding round
  round-ascending ready s l below small =
      visit-ascending s.max_socks ready below (s.max_socks + 1) fd_setsize 0 s l (ground arith)
        (ground arith) (ground arith)
