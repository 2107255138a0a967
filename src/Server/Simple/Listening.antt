-- ===== src/Server/Simple/Listening.antt =====
-- The process of the simple server that listens.
use nycu_np.Prelude.{
  ℕ, zero, suc, Bool, false, List, [], ◌∷◌, Option, none, some, ℤ, pos, ◌≡◌, refl, Bool-cases, inl,
  inr,
}
use nycu_np.Server.Select.{Client}
use nycu_np.Server.Simple.{Listener, serve_client, serve_next, accepts}
use nycu_np.Server.State.{Server}
use nycu_np.Shell.Kernel.{Kernel, Log, Proc, close, fork_session}
use nycu_np.Shell.Run.Post.{Runs, Runs-mono}
use nycu_np.Shell.Run.{is_zero}

-- A process is forked for each client, and the client's descriptor is closed.
abbrev pub handed_over : List Client → Log → Log
handed_over [] l = l
handed_over (c ∷ cs) l = handed_over cs (close (pos c.sock) ∷ fork_session ∷ l)

module _ (k : Kernel) (uninit : ℤ) (net : Listener)
    (listens : (l : Log) → is_zero (net.fork_pid l) ≡ false) where
  abbrev HandsOver : Log → Bool → Log → Type 0
  HandsOver l on l' = (cs : List Client) × (l' ≡ handed_over cs l)

  serve_next-HandsOver :
      (n : ℕ) (c : Option Client) (sv : Server) (rest : Proc Bool) (l : Log)
      → ((l₁ : Log) → Runs (HandsOver l₁) (rest l₁))
      → Runs (HandsOver l) (serve_next k uninit net n c sv rest l)
  unfolding serve_next serve_client
  serve_next-HandsOver n none sv rest l h = ([], refl)
  serve_next-HandsOver n (some c) sv rest l h = rw (listens (fork_session ∷ l)) (
      Runs-mono (HandsOver (close (pos c.sock) ∷ fork_session ∷ l)) (HandsOver l) (rest _) (h _)
        λ on l' (cs, e). (c ∷ cs, e))

  -- The process to which `fork` never answers 0, however many clients connect and whatever the tables
  -- hold, goes on or returns, and has done nothing but fork for each of the clients and then close
  -- the descriptor of that client.
  accepts-HandsOver :
      (m n : ℕ) (sv : Server) (l : Log) → Runs (HandsOver l) (accepts k uninit net m n sv l)
  unfolding accepts
  accepts-HandsOver zero n sv l = ([], refl)
  accepts-HandsOver (suc m) n sv l = elim (Bool-cases (net.is_on l)) [
    | inl on ↦ rw on (
        serve_next-HandsOver n (net.accepted l) sv (accepts k uninit net m n sv) l
          (accepts-HandsOver m n sv))
    | inr off ↦ rw off ([], refl)
  ]
