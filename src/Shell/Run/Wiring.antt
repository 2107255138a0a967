-- ===== src/Shell/Run/Wiring.antt =====
-- How the programs of a line are connected.
use nycu_np.Prelude.{
  ℕ, Bool, List, [], ◌∷◌, ◌++◌, Option, none, some, Bytes, ℤ, is_positive, ◌≡◌, refl, sym, ◌∙◌, ap,
  arith, Bool-cases, inl, inr, subst,
}
use nycu_np.Shell.Command.{
  Command, exe_command, pipe_command, file_command, numbered_pipe_command, user_pipe_command,
  NumberedPipes, NpCommandLine, pipe_error, create_pipe, numbered_pipe, to_size_t,
}
use nycu_np.Shell.Kernel.{Kernel, Log, Pipe, Child, running, fork, pipe2, bind_outcome}
use nycu_np.Shell.Pipes.Close.{closes, close_pipe-closes}
use nycu_np.Shell.Pipes.{create, use_fds, is_empty}
use nycu_np.Shell.Ring.{get}
use nycu_np.Shell.Run.Post.{Post, Post-bind, Post-mono}
use nycu_np.Shell.Run.{
  Shell, UserPipes, open_next, start_program, fork_program, run_commands, is_zero,
}

-- The children that a process has forked, the newest first.
abbrev pub children : Log → List Child
children [] = []
children (fork c ∷ l) = c ∷ children l
children (_ ∷ l) = children l

abbrev pub argv_of : Child → List Bytes
argv_of c = c.argv

children-closes : (p : Pipe) (l : Log) → children (closes p ++ l) ≡ children l
children-closes p l = ground arith

-- The server's part forks nothing.
pub record IsForkFree {H : Type 0} (users : UserPipes H) : Type 0 where
  pub write_forks :
      (id uid : ℤ) (p : Pipe) (text : Bytes) (other : ℤ) (h : H) (l : Log)
      → Post (λ r l'. children l' ≡ children l) (users.write_user_pipe id uid p text other h l)

use_fds-children :
    (fds : Option (ℕ × ℕ)) (l : Log) → Post (λ p l'. children l' ≡ children l) (use_fds fds l)
use_fds-children none l = tt
use_fds-children (some (i, o)) l = refl

pub create-children : (k : Kernel) (l : Log) → Post (λ p l'. children l' ≡ children l) (create k l)
unfolding create
create-children k l = use_fds-children (k.pipe_fds (pipe2 ∷ l)) (pipe2 ∷ l)

numbered_pipe-children :
    (k : Kernel) (n : ℕ) (ring : NumberedPipes) (found : Pipe) (l : Log)
    → Post (λ r l'. children l' ≡ children l) (numbered_pipe k n ring found l)
unfolding numbered_pipe
numbered_pipe-children k n ring found l = elim (Bool-cases (is_empty found)) [
  | inl fresh ↦
      rw fresh
        (Post-bind (λ p l'. children l' ≡ children l) _ _ _ (create-children k l) (λ p l' e. e))
  | inr used ↦ rw used refl
]

create_pipe-children :
    (k : Kernel) (c : Command) (ring : NumberedPipes) (p : Pipe) (l : Log)
    → Post (λ r l'. children l' ≡ children l) (create_pipe k c ring p l)
create_pipe-children k (exe_command argv) ring p l = unfold create_pipe in refl
create_pipe-children k pipe_command ring p l =
    unfold create_pipe in
    Post-bind (λ p l'. children l' ≡ children l) _ _ _ (create-children k l) (λ p l' e. e)
create_pipe-children k (file_command name) ring p l = unfold create_pipe in refl
create_pipe-children k (numbered_pipe_command n err) ring p l =
    unfold create_pipe in numbered_pipe-children k (to_size_t n) ring (get ring (to_size_t n)) l
create_pipe-children k user_pipe_command ring p l =
    unfold create_pipe in
    Post-bind (λ p l'. children l' ≡ children l) _ _ _ (create-children k l) (λ p l' e. e)

-- The programs of a line, in order.
abbrev pub programs : List Command → List (List Bytes)
programs [] = []
programs (exe_command argv ∷ rest) = argv ∷ programs rest
programs (_ ∷ rest) = programs rest

-- Children that run these programs in order: the first reads from `from`, each further one reads
-- from what the one before it writes to, and the last writes to `to`.
abbrev pub Chain : Pipe → List (List Bytes) → List Child → Pipe → Type 0
Chain from [] [] to = from ≡ to
Chain from (argv ∷ argvs) (c ∷ cs) to =
    (c.prev_pipe ≡ from) × (c.argv ≡ argv) × Chain c.curr_pipe argvs cs to
Chain from _ _ to = ⊥

abbrev pub reverse_onto : List Child → List Child → List Child
reverse_onto [] older = older
reverse_onto (c ∷ cs) older = reverse_onto cs (c ∷ older)

module _ {H : Type 0} (k : Kernel) (users : UserPipes H) (id : ℤ) (text : Bytes)
    (line : NpCommandLine) (free : IsForkFree users) where
  -- Only the pipe to write to changes.
  abbrev Opened : Shell → Log → H × Shell × Bool → Log → Type 0
  Opened sh l r l' = (children l' ≡ children l) × (r.1.prev_pipe ≡ sh.prev_pipe)

  open_created :
      (c : Command) (h : H) (sh : Shell) (l : Log)
      → Post (Opened sh l) (
          bind_outcome (create_pipe k c sh.number_pipe_list sh.curr_pipe l) (λ r l'.
            running (h, record sh { number_pipe_list = r.0; curr_pipe = r.1 }, pipe_error c) l'))
  open_created c h sh l =
      Post-bind (λ r l'. children l' ≡ children l) (Opened sh l) _ _
        (create_pipe-children k c _ _ l) (λ r l' e. (e, refl))

  open_next-Opened :
      (rest : List Command) (h : H) (sh : Shell) (l : Log)
      → Post (Opened sh l) (open_next k users id text line rest h sh l)
  unfolding open_next
  open_next-Opened [] h sh l = (refl, refl)
  open_next-Opened (exe_command argv ∷ rest) h sh l = tt
  open_next-Opened (pipe_command ∷ rest) h sh l = open_created pipe_command h sh l
  open_next-Opened (file_command name ∷ rest) h sh l = open_created (file_command name) h sh l
  open_next-Opened (numbered_pipe_command n e ∷ rest) h sh l =
      open_created (numbered_pipe_command n e) h sh l
  open_next-Opened (user_pipe_command ∷ rest) h sh l =
      elim (Bool-cases (is_positive line.write_uid)) [
        | inl asked ↦ rw asked (
            Post-bind (λ r l'. children l' ≡ children l) (Opened sh l) _ _
              (free.write_forks id line.write_uid sh.curr_pipe text line.read_uid h l)
              (λ r l' e. (e, refl)))
        | inr other ↦ rw other (refl, refl)
      ]

  abbrev child_of : List Bytes → H × Shell × Bool → Child
  child_of argv r = record {
    prev_pipe = r.1.prev_pipe;
    curr_pipe = r.1.curr_pipe;
    pipe_err = r.2;
    argv = argv;
  }

  abbrev Started : List Bytes → Shell → Log → H × Shell → Log → Type 0
  Started argv sh l r l' =
      (c : Child) × (children l' ≡ c ∷ children l)
      × (c.prev_pipe ≡ sh.curr_pipe)
      × (c.argv ≡ argv)
      × (c.curr_pipe ≡ r.1.curr_pipe)

  start_program-Started :
      (argv : List Bytes) (rest : List Command) (h : H) (sh : Shell) (l : Log)
      → Post (Started argv sh l) (start_program k users id text line argv rest h sh l)
  unfolding start_program
  start_program-Started argv rest h sh l = rw (close_pipe-closes sh.prev_pipe l) (
      Post-bind (Opened opening before) (Started argv sh l)
        (open_next k users id text line rest h opening before) _
        (open_next-Opened rest h opening before) forked)
    where
      opening : Shell
      opening = record sh { prev_pipe = sh.curr_pipe }

      before : Log
      before = closes sh.prev_pipe ++ l

      forked :
          (r : H × Shell × Bool) (l' : Log)
          → Opened opening before r l'
          → Post (Started argv sh l) (fork_program k argv r l')
      forked r l' o = elim (Bool-cases (is_zero r.1.older_pid)) [
        | inl none_yet ↦ rw none_yet (
          child_of argv r,
          ap (◌∷◌ (child_of argv r)) (o.0 ∙ children-closes sh.prev_pipe l),
          o.1,
          refl,
          refl,
        )
        | inr waited ↦ rw waited (
          child_of argv r,
          ap (◌∷◌ (child_of argv r)) (o.0 ∙ children-closes sh.prev_pipe l),
          o.1,
          refl,
          refl,
        )
      ]

  abbrev pub Wired : List Command → Shell → Log → H × Shell → Log → Type 0
  Wired cmds sh l r l' =
      (cs : List Child) × (children l' ≡ reverse_onto cs (children l))
      × Chain sh.curr_pipe (programs cmds) cs r.1.curr_pipe

  -- On every run of the commands that goes on to its end, the children stand in a chain.
  pub run_commands-Chain :
      (cmds : List Command) (h : H) (sh : Shell) (l : Log)
      → Post (Wired cmds sh l) (run_commands k users id text line cmds h sh l)
  unfolding run_commands
  run_commands-Chain [] h sh l = ([], refl, refl)
  run_commands-Chain (exe_command argv ∷ rest) h sh l =
      Post-bind (Started argv sh l) (Wired (exe_command argv ∷ rest) sh l)
        (start_program k users id text line argv rest h sh l) _
        (start_program-Started argv rest h sh l)
        λ r l' (c, forked, reads, runs, writes).
          Post-mono (Wired rest r.1 l') (Wired (exe_command argv ∷ rest) sh l)
            (run_commands k users id text line rest r.0 r.1 l') (run_commands-Chain rest r.0 r.1 l')
            λ r' l'' (cs, later, chain). (
              c ∷ cs,
              later ∙ ap (reverse_onto cs) forked,
              (
                reads,
                runs,
                subst (λ p. Chain p (programs rest) cs r'.1.curr_pipe) (sym writes) chain,
              ),
            )
  run_commands-Chain (pipe_command ∷ rest) h sh l = run_commands-Chain rest h sh l
  run_commands-Chain (file_command name ∷ rest) h sh l = run_commands-Chain rest h sh l
  run_commands-Chain (numbered_pipe_command n e ∷ rest) h sh l = run_commands-Chain rest h sh l
  run_commands-Chain (user_pipe_command ∷ rest) h sh l = run_commands-Chain rest h sh l
