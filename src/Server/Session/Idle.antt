-- ===== src/Server/Session/Idle.antt =====
-- A line without words, which is also what `getline` leaves at the end of the input.
use nycu_np.Prelude.{
  ℕ, Option, Bool, true, false, if◌then◌else◌, [], some, codes, ℤ, pos, ◌&&◌, ◌≡◌, inl, inr, refl,
  arith, Bool-cases,
}
use nycu_np.Prelude.OrderedMap.{lookup, lookup-insert}
use nycu_np.Server.Session.{
  Session, parsed, run_parsed, run_shell, after_shell, store_shell, run_shell_loop,
}
use nycu_np.Server.State.{UserInfo, Server, find_user, get_serving_user_id, deref}
use nycu_np.Server.Users.{send_raw_message}
use nycu_np.Shell.Kernel.{◌>>◌, pure, Kernel, Log, bind_outcome}
use nycu_np.Shell.Parse.{parse_command}
use nycu_np.Shell.Run.{Shell, prompt, run_lines, is_zero}
use nycu_np.Shell.Run.Post.{Runs, Runs-bind}
use nycu_np.Shell.Stream.{read_word}

-- The client is a user whose shell has not seen `exit`.
abbrev pub IsWaiting : ℕ → Server → Type 0
IsWaiting fd sv =
    (id : ℕ) × (u : UserInfo) × (lookup fd sv.sock_id_table ≡ some id)
    × (find_user sv id ≡ some u)
    × (u.shell.is_running ≡ true)

prompt-Runs : (fd : ℤ) (sh : Shell) (l : Log) → Runs (λ done l'. Unit {0}) (prompt fd sh l)
unfolding prompt
prompt-Runs fd sh l = elim (Bool-cases (sh.is_running && is_zero fd)) [
  | inl on ↦ rw on tt
  | inr off ↦ rw off tt
]

module _ (k : Kernel) (uninit : ℤ) where
  run_shell-idle :
      (fd id : ℕ) (s : Session) (l : Log) → Runs (λ s' l'. s' ≡ s) (run_shell k uninit fd id [] s l)
  unfolding run_shell parse_command read_word run_lines parsed run_parsed
  run_shell-idle fd id s l =
      Runs-bind (λ done l'. Unit {0}) (λ s' l'. s' ≡ s) (prompt (pos fd) s.shell l) _
        (prompt-Runs (pos fd) s.shell l) (λ done l' h. refl)

  abbrev pub Stays : ℕ → Server × Bool → Log → Type 0
  Stays fd r l = (r.1 ≡ true) × IsWaiting fd r.0

  deref-Runs :
      {A : Type 0} (o : Option A) (a : A) (l : Log) → o ≡ some a → Runs (λ b l'. b ≡ a) (deref o l)
  deref-Runs o a l e = rw e refl

  answers :
      (fd : ℕ) (running : Bool) (sv : Server) (l : Log)
      → running ≡ true
      → IsWaiting fd sv
      → Runs (Stays fd) (
          (if running
              then (do send_raw_message fd (codes "% "); pure (sv, true))
              else pure (sv, false))
            l)
  answers fd true sv l on w = (refl, w)
  answers fd false sv l on w = absurd cc

  after_shell-Stays :
      (fd id : ℕ) (u : UserInfo) (s : Session) (l : Log)
      → lookup fd s.server.sock_id_table ≡ some id
      → find_user s.server id ≡ some u
      → s.shell.is_running ≡ true
      → Runs (Stays fd) (after_shell fd id s l)
  unfolding after_shell
  after_shell-Stays fd id u s l leads there on =
      Runs-bind (λ b l'. b ≡ u) (Stays fd) (deref (find_user s.server id) _) _
        (deref-Runs (find_user s.server id) u _ there)
        λ b l' e. answers fd s.shell.is_running (store_shell id s b) l' on (
          id,
          record b { shell = s.shell },
          leads,
          ground (arith, lookup-insert id id (record b { shell = s.shell }) s.server.users),
          on,
        )

  id_of_sock :
      (fd id : ℕ) (sv : Server)
      → lookup fd sv.sock_id_table ≡ some id
      → get_serving_user_id sv fd ≡ id
  unfolding get_serving_user_id
  id_of_sock fd id sv leads = rw leads refl

  run_as-idle :
      (fd id : ℕ) (sv : Server) (u v : UserInfo) (l : Log)
      → lookup fd sv.sock_id_table ≡ some id
      → find_user sv id ≡ some u
      → u.shell.is_running ≡ true
      → v ≡ u
      → Runs (Stays fd) (
          bind_outcome
            (run_shell k uninit fd id [] (record { server = sv; shell = v.shell }) l)
            (after_shell fd id))
  run_as-idle fd id sv u v l leads there on same =
      Runs-bind (λ s l'. s ≡ record { server = sv; shell = v.shell }) (Stays fd) _ _
        (run_shell-idle fd id (record { server = sv; shell = v.shell }) l)
        λ s l' e. after_shell-Stays fd id u s l' (rw e leads) (rw e there) (rw e (rw same on))

  -- The client of an empty line stays, and the prompt is sent to it again.
  pub run_shell_loop-idle :
      (fd : ℕ) (sv : Server) (l : Log)
      → IsWaiting fd sv
      → Runs (Stays fd) (run_shell_loop k uninit fd [] sv l)
  unfolding run_shell_loop
  run_shell_loop-idle fd sv l (id, u, leads, there, on) = rw (id_of_sock fd id sv leads) (
      Runs-bind (λ v l'. v ≡ u) (Stays fd) (deref (find_user sv id) _) _
        (deref-Runs (find_user sv id) u _ there)
        λ v l' e. run_as-idle fd id sv u v l' leads there on e)
