-- ===== src/Shell/Run/Runs.antt =====
-- Where the system grants what the shell asks for, a line is run to its end.
use nycu_np.Prelude.{
  ℕ, Bool, List, [], ◌∷◌, some, Bytes, ℤ, is_positive, ◌≡◌, refl, Bool-cases, inl, inr, subst,
}
use nycu_np.Shell.Command.{
  Command, exe_command, pipe_command, file_command, numbered_pipe_command, user_pipe_command,
  NumberedPipes, NpCommandLine, create_pipe, numbered_pipe, to_size_t,
}
use nycu_np.Shell.Kernel.{Kernel, Log, Pipe, Proc, Outcome, running, pipe2, bind_outcome}
use nycu_np.Shell.Parse.Shape.{IsPipeline}
use nycu_np.Shell.Pipes.Close.{close_pipe-closes}
use nycu_np.Shell.Pipes.{create, is_empty, open_as}
use nycu_np.Shell.Ring.{get}
use nycu_np.Shell.Run.Post.{Post}
use nycu_np.Shell.Run.Wiring.{Wired, IsForkFree, run_commands-Chain}
use nycu_np.Shell.Run.{
  Shell, UserPipes, open_next, start_program, wait_for, fork_program, run_commands, is_zero,
}

-- The process goes on, with a result of which something holds.
abbrev pub Returns : {A : Type 0} → (A → Type 0) → Outcome A → Type 0
Returns {A = A} Q m = (a : A) × (l : Log) × (m ≡ running a l) × Q a

pub Returns-bind :
    {A B : Type 0} (Q : A → Type 0) (R : B → Type 0) (m : Outcome A) (f : A → Proc B)
    → Returns Q m
    → ((a : A) (l : Log) → Q a → Returns R (f a l))
    → Returns R (bind_outcome m f)
Returns-bind Q R m f (a, l, e, h) next = rw e (next a l h)

abbrev pub Any : {A : Type 0} → A → Type 0
Any a = Unit {0}

-- `pipe2` always succeeds, and the server's part in the pipe to the user that the line names goes on
-- wherever `P` holds of the server, and keeps it.
pub record IsGranted {H : Type 0} (k : Kernel) (users : UserPipes H) (P : H → Type 0) (id uid : ℤ)
    : Type 0 where
  pub pipes : (l : Log) → (i : ℕ) × (o : ℕ) × (k.pipe_fds l ≡ some (i, o))
  pub writes :
      (p : Pipe) (text : Bytes) (other : ℤ) (h : H) (l : Log)
      → P h
      → Returns (λ r. P r.0) (users.write_user_pipe id uid p text other h l)

-- `pipe2` goes on where it succeeds.
pub create-Returns :
    (k : Kernel)
    → ((l : Log) → (i : ℕ) × (o : ℕ) × (k.pipe_fds l ≡ some (i, o)))
    → (l : Log) → Returns Any (create k l)
unfolding create
create-Returns k pipes l = let (i, o, e) = pipes (pipe2 ∷ l) in rw e (_, _, refl, tt)

module _ {H : Type 0} (k : Kernel) (users : UserPipes H) (P : H → Type 0) (id : ℤ) (text : Bytes)
    (line : NpCommandLine) (granted : IsGranted k users P id line.write_uid) where
  create_pipe-Returns :
      (c : Command) (ring : NumberedPipes) (p : Pipe) (l : Log)
      → Returns Any (create_pipe k c ring p l)
  create_pipe-Returns (exe_command argv) ring p l = unfold create_pipe in (_, _, refl, tt)
  create_pipe-Returns pipe_command ring p l =
      unfold create_pipe in
      Returns-bind Any Any _ _ (create-Returns k granted.pipes l) (λ q l' h. (_, _, refl, tt))
  create_pipe-Returns (file_command name) ring p l = unfold create_pipe open_as in (_, _, refl, tt)
  create_pipe-Returns (numbered_pipe_command n err) ring p l =
      unfold create_pipe numbered_pipe in
      elim (Bool-cases (is_empty (get ring (to_size_t n)))) [
        | inl fresh ↦ rw fresh (
            Returns-bind Any Any _ _ (create-Returns k granted.pipes l)
              (λ q l' h. (_, _, refl, tt)))
        | inr used ↦ rw used (_, _, refl, tt)
      ]
  create_pipe-Returns user_pipe_command ring p l =
      unfold create_pipe in
      Returns-bind Any Any _ _ (create-Returns k granted.pipes l) (λ q l' h. (_, _, refl, tt))

  abbrev Opened : H × Shell × Bool → Type 0
  Opened r = P r.0

  abbrev Ran : H × Shell → Type 0
  Ran r = P r.0

  open_next-Returns :
      (argv : List Bytes) (rest : List Command) (h : H) (sh : Shell) (l : Log)
      → IsPipeline (exe_command argv ∷ rest)
      → P h
      → Returns Opened (open_next k users id text line rest h sh l)
  unfolding open_next
  open_next-Returns argv [] h sh l ok v = (_, _, refl, v)
  open_next-Returns argv (exe_command next ∷ rest) h sh l ok v = absurd ok.0
  open_next-Returns argv (pipe_command ∷ rest) h sh l ok v =
      Returns-bind Any Opened _ _ (create_pipe-Returns pipe_command _ _ l)
        (λ q l' t. (_, _, refl, v))
  open_next-Returns argv (file_command name ∷ rest) h sh l ok v =
      Returns-bind Any Opened _ _ (create_pipe-Returns (file_command name) _ _ l)
        (λ q l' t. (_, _, refl, v))
  open_next-Returns argv (numbered_pipe_command n e ∷ rest) h sh l ok v =
      Returns-bind Any Opened _ _ (create_pipe-Returns (numbered_pipe_command n e) _ _ l)
        (λ q l' t. (_, _, refl, v))
  open_next-Returns argv (user_pipe_command ∷ rest) h sh l ok v =
      elim (Bool-cases (is_positive line.write_uid)) [
        | inl asked ↦ rw asked (
            Returns-bind (λ (r : H × Pipe). P r.0) Opened _ _
              (granted.writes sh.curr_pipe text line.read_uid h l v) (λ q l' w. (_, _, refl, w)))
        | inr other ↦ rw other (_, _, refl, v)
      ]

  fork_program-Returns :
      (argv : List Bytes) (r : H × Shell × Bool) (l : Log)
      → P r.0
      → Returns Ran (fork_program k argv r l)
  unfolding fork_program wait_for
  fork_program-Returns argv r l v = elim (Bool-cases (is_zero r.1.older_pid)) [
    | inl none_yet ↦ rw none_yet (_, _, refl, v)
    | inr waited ↦ rw waited (_, _, refl, v)
  ]

  start_program-Returns :
      (argv : List Bytes) (rest : List Command) (h : H) (sh : Shell) (l : Log)
      → IsPipeline (exe_command argv ∷ rest)
      → P h
      → Returns Ran (start_program k users id text line argv rest h sh l)
  unfolding start_program
  start_program-Returns argv rest h sh l ok v = rw (close_pipe-closes sh.prev_pipe l) (
      Returns-bind Opened Ran _ _ (open_next-Returns argv rest h _ _ ok v)
        (fork_program-Returns argv))

  run_commands-Returns :
      (cmds : List Command) (h : H) (sh : Shell) (l : Log)
      → IsPipeline cmds
      → P h
      → Returns Ran (run_commands k users id text line cmds h sh l)
  unfolding run_commands
  run_commands-Returns [] h sh l ok v = (_, _, refl, v)
  run_commands-Returns (exe_command argv ∷ []) h sh l ok v =
      Returns-bind Ran Ran _ _ (start_program-Returns argv [] h sh l ok v)
        (λ r l' w. (_, _, refl, w))
  run_commands-Returns (exe_command argv ∷ exe_command next ∷ rest) h sh l ok v = absurd ok.0
  run_commands-Returns (exe_command argv ∷ pipe_command ∷ rest) h sh l ok v =
      Returns-bind Ran Ran _ _ (start_program-Returns argv (pipe_command ∷ rest) h sh l ok v)
        (λ r l' w. run_commands-Returns rest r.0 r.1 l' ok.1 w)
  run_commands-Returns (exe_command argv ∷ file_command name ∷ rest) h sh l ok v =
      Returns-bind Ran Ran _ _ (start_program-Returns argv (file_command name ∷ rest) h sh l ok v)
        (λ r l' w. run_commands-Returns rest r.0 r.1 l' ok.1 w)
  run_commands-Returns (exe_command argv ∷ user_pipe_command ∷ rest) h sh l ok v =
      Returns-bind Ran Ran _ _ (start_program-Returns argv (user_pipe_command ∷ rest) h sh l ok v)
        (λ r l' w. run_commands-Returns rest r.0 r.1 l' ok.1 w)
  run_commands-Returns (exe_command argv ∷ numbered_pipe_command n e ∷ []) h sh l ok v =
      Returns-bind Ran Ran _ _
        (start_program-Returns argv (numbered_pipe_command n e ∷ []) h sh l ok v)
        (λ r l' w. (_, _, refl, w))
  run_commands-Returns (exe_command argv ∷ numbered_pipe_command n e ∷ c ∷ rest) h sh l ok v = cc
  run_commands-Returns (pipe_command ∷ rest) h sh l ok v = absurd ok
  run_commands-Returns (file_command name ∷ rest) h sh l ok v = absurd ok
  run_commands-Returns (numbered_pipe_command n e ∷ rest) h sh l ok v = absurd ok
  run_commands-Returns (user_pipe_command ∷ rest) h sh l ok v = absurd ok

  -- The commands of a line of the parser's shape are run to their end, where `pipe2` succeeds, the
  -- server's part in the pipe to the user that the line names goes on wherever `P` holds and keeps
  -- it, that part forks nothing, and `P` holds of the server: the children that are forked are the
  -- line's programs in order, the first reads from the pipe at hand, each further one reads from the
  -- very pipe that the one before it writes to, and the last one writes to the pipe that is at hand at
  -- the end; and `P` holds of the server behind it.
  pub run_commands-Wired :
      (free : IsForkFree users) (cmds : List Command) (h : H) (sh : Shell) (l : Log)
      → IsPipeline cmds
      → P h
      → (r : H × Shell) × (l' : Log) × (run_commands k users id text line cmds h sh l
          ≡ running r l')
        × Wired k users id text line free cmds sh l r l'
        × P r.0
  run_commands-Wired free cmds h sh l ok v =
      let (r, l', e, w) = run_commands-Returns cmds h sh l ok v in
      (
        r,
        l',
        e,
        subst (Post (Wired k users id text line free cmds sh l)) e
            (run_commands-Chain k users id text line free cmds h sh l),
        w,
      )
