-- ===== src/Npshell/Run/Agree.antt =====
-- The shells of the two projects, on lines that ask for no user.
use nycu_np.Npshell.Command.{
  Command, exe_command, pipe_command, file_command, numbered_pipe_command, NpCommandLine,
  create_pipe, numbered_pipe, pipe_error,
}
use nycu_np.Npshell.Promote.{promote, promote_line}
use nycu_np.Npshell.Run as First
use nycu_np.Prelude.{
  Bool, false, List, [], ◌∷◌, map, Bytes, ℤ, ◌≡◌, refl, ap, sym, ◌∙◌, Bool-cases, inl, inr,
}
use nycu_np.Shell.Command as Served
use nycu_np.Shell.Kernel.{Kernel, Log, Pipe, Proc, Outcome, running, exited, fault, bind_outcome}
use nycu_np.Shell.Pipes.{create, close_pipe}
use nycu_np.Shell.Ring.{next, front}
use nycu_np.Shell.Run as Second

bind_cong :
    {A B : Type 0} (m : Outcome A) (f g : A → Proc B)
    → ((a : A) (l : Log) → f a l ≡ g a l)
    → bind_outcome m f ≡ bind_outcome m g
bind_cong (running a l) f g same = same a l
bind_cong (exited l) f g same = refl
bind_cong fault f g same = refl

bind_assoc :
    {A B C : Type 0} (m : Outcome A) (f : A → Proc B) (g : B → Proc C)
    → bind_outcome (bind_outcome m f) g ≡ bind_outcome m (λ a l. bind_outcome (f a l) g)
bind_assoc (running a l) f g = refl
bind_assoc (exited l) f g = refl
bind_assoc fault f g = refl

-- The outcome of the first shell beside a server that does nothing.
abbrev pub beside : {H : Type 0} → H → Outcome Second.Shell → Outcome (H × Second.Shell)
beside h m = bind_outcome m λ sh l. running (h, sh) l

abbrev with_error :
    {H : Type 0} → H → Outcome (Second.Shell × Bool) → Outcome (H × Second.Shell × Bool)
with_error h m = bind_outcome m λ r l. running (h, r.0, r.1) l

-- Two shells that go on alike after they have come to the same state.
beside-bind :
    {H : Type 0} (h : H) (m : Outcome Second.Shell) (f : Second.Shell → Proc Second.Shell)
    (g : H × Second.Shell → Proc (H × Second.Shell))
    → ((sh : Second.Shell) (l : Log) → g (h, sh) l ≡ beside h (f sh l))
    → bind_outcome (beside h m) g ≡ beside h (bind_outcome m f)
beside-bind h (running sh l) f g same = same sh l
beside-bind h (exited l) f g same = refl
beside-bind h fault f g same = refl

create_pipe-promote :
    (k : Kernel) (c : Command) (ring : Served.NumberedPipes) (p : Pipe)
    → Served.create_pipe k (promote c) ring p ≡ create_pipe k c ring p
unfolding create_pipe Served.create_pipe numbered_pipe Served.numbered_pipe
create_pipe-promote k (exe_command argv) ring p = refl
create_pipe-promote k pipe_command ring p = refl
create_pipe-promote k (file_command name) ring p = refl
create_pipe-promote k (numbered_pipe_command n e) ring p = refl

ends_numbered-promote :
    (cs : List Command) → Second.ends_numbered (map promote cs) ≡ First.ends_numbered cs
ends_numbered-promote [] = refl
ends_numbered-promote (exe_command argv ∷ rest) = ends_numbered-promote rest
ends_numbered-promote (pipe_command ∷ rest) = ends_numbered-promote rest
ends_numbered-promote (file_command name ∷ rest) = ends_numbered-promote rest
ends_numbered-promote (numbered_pipe_command n e ∷ []) = refl
ends_numbered-promote (numbered_pipe_command n e ∷ c ∷ rest) = ends_numbered-promote (c ∷ rest)

module _ {H : Type 0} (k : Kernel) (users : Second.UserPipes H) (id : ℤ) (text : Bytes) where
  -- What becomes of a pipe that the next command has asked for.
  opened :
      (c : Command) (h : H) (sh : Second.Shell) (error : Bool) (l : Log)
      → bind_outcome
          (Served.create_pipe k (promote c) sh.number_pipe_list sh.curr_pipe l)
          (λ x l'. running (h, record sh { number_pipe_list = x.0; curr_pipe = x.1 }, error) l')
        ≡ with_error h (
            bind_outcome
              (create_pipe k c sh.number_pipe_list sh.curr_pipe l)
              λ x l'. running (record sh { number_pipe_list = x.0; curr_pipe = x.1 }, error) l')
  opened c h sh error l =
      rw (create_pipe-promote k c sh.number_pipe_list sh.curr_pipe)
        (sym (bind_assoc (create_pipe k c sh.number_pipe_list sh.curr_pipe l) _ _))

  module _ (line : NpCommandLine) where
    open_next-promote :
        (rest : List Command) (h : H) (sh : Second.Shell) (l : Log)
        → Second.open_next k users id text (promote_line line) (map promote rest) h sh l
          ≡ with_error h (First.open_next k rest sh l)
    unfolding First.open_next Second.open_next pipe_error Served.pipe_error
    open_next-promote [] h sh l = refl
    open_next-promote (exe_command argv ∷ rest) h sh l = refl
    open_next-promote (pipe_command ∷ rest) h sh l = opened pipe_command h sh false l
    open_next-promote (file_command name ∷ rest) h sh l = opened (file_command name) h sh false l
    open_next-promote (numbered_pipe_command n e ∷ rest) h sh l =
        opened (numbered_pipe_command n e) h sh e l

    fork_program-promote :
        (argv : List Bytes) (h : H) (sh : Second.Shell) (error : Bool) (l : Log)
        → Second.fork_program k argv (h, sh, error) l
          ≡ beside h (First.fork_program k argv (sh, error) l)
    unfolding First.fork_program Second.fork_program Second.wait_for
    fork_program-promote argv h sh error l = elim (Bool-cases (Second.is_zero sh.older_pid)) [
      | inl zero_pid ↦ rw zero_pid refl
      | inr other ↦ rw other refl
    ]

    start_program-promote :
        (argv : List Bytes) (rest : List Command) (h : H) (sh : Second.Shell) (l : Log)
        → Second.start_program k users id text (promote_line line) argv (map promote rest) h sh l
          ≡ beside h (First.start_program k argv rest sh l)
    unfolding First.start_program Second.start_program
    start_program-promote argv rest h sh l =
        bind_cong (close_pipe sh.prev_pipe l) _ _ (λ closed l'.
          let sh' = record sh { prev_pipe = sh.curr_pipe } in
          ap (λ m. bind_outcome m (Second.fork_program k argv)) (open_next-promote rest h sh' l')
          ∙ bind_assoc (First.open_next k rest sh' l') _ _
          ∙ bind_cong (First.open_next k rest sh' l') _ _
              (λ r l''. fork_program-promote argv h r.0 r.1 l'')
          ∙ sym (bind_assoc (First.open_next k rest sh' l') _ _))
        ∙ sym (bind_assoc (close_pipe sh.prev_pipe l) _ _)

    run_commands-promote :
        (cs : List Command) (h : H) (sh : Second.Shell) (l : Log)
        → Second.run_commands k users id text (promote_line line) (map promote cs) h sh l
          ≡ beside h (First.run_commands k cs sh l)
    unfolding First.run_commands Second.run_commands
    run_commands-promote [] h sh l = refl
    run_commands-promote (exe_command argv ∷ rest) h sh l =
        ap
          (λ m. bind_outcome m (λ r.
            Second.run_commands k users id text (promote_line line) (map promote rest) r.0 r.1))
          (start_program-promote argv rest h sh l)
        ∙ beside-bind h (First.start_program k argv rest sh l) (First.run_commands k rest) _
            (λ sh' l'. run_commands-promote rest h sh' l')
    run_commands-promote (pipe_command ∷ rest) h sh l = run_commands-promote rest h sh l
    run_commands-promote (file_command name ∷ rest) h sh l = run_commands-promote rest h sh l
    run_commands-promote (numbered_pipe_command n e ∷ rest) h sh l =
        run_commands-promote rest h sh l

    end_line-promote :
        (sh : Second.Shell)
        → Second.end_line k users id text (promote_line line) sh ≡ First.end_line line sh
    unfolding First.end_line Second.end_line
    end_line-promote sh = rw (ends_numbered-promote line.np_commands) refl

    -- What the second shell does behind the commands of a line.
    abbrev end_second : H × Second.Shell → Proc (H × Second.Shell)
    end_second r l = bind_outcome (close_pipe r.1.prev_pipe l) λ closed l'.
        beside r.0 (
          Second.end_line k users id text (promote_line line) (record r.1 { prev_pipe = closed })
            l')

    abbrev end_first : Second.Shell → Proc Second.Shell
    end_first sh l =
        bind_outcome (close_pipe sh.prev_pipe l)
          λ closed. First.end_line line (record sh { prev_pipe = closed })

    end_second-first :
        (h : H) (sh : Second.Shell) (l : Log) → end_second (h, sh) l ≡ beside h (end_first sh l)
    end_second-first h sh l =
        bind_cong (close_pipe sh.prev_pipe l) _ _ (λ closed l'.
          ap (λ p. beside h (p l')) (end_line-promote (record sh { prev_pipe = closed })))
        ∙ sym (bind_assoc (close_pipe sh.prev_pipe l) _ _)

    run_line-promote :
        (h : H) (sh : Second.Shell) (l : Log)
        → Second.run_line k users id text (promote_line line) h sh l
          ≡ beside h (First.run_line k line sh l)
    unfolding First.run_line Second.run_line Second.read_users
    run_line-promote h sh l =
        bind_cong (create k l) _ _ (λ eol l₁.
          let ring = next sh.number_pipe_list in
          let sh₀ = record sh { eol = eol; number_pipe_list = ring; curr_pipe = front ring } in
          ap (λ m. bind_outcome m end_second) (run_commands-promote line.np_commands h sh₀ l₁)
          ∙ beside-bind h (First.run_commands k line.np_commands sh₀ l₁) end_first end_second
              (end_second-first h))
        ∙ sym (bind_assoc (create k l) _ _)

  -- Lines of project 1 are run by both shells alike, whatever the server's part does about users:
  -- the same system calls in the same order, to the same state of the shell, and the server as it
  -- was.
  pub run_lines-promote :
      (lines : List NpCommandLine) (h : H) (sh : Second.Shell) (l : Log)
      → Second.run_lines k users id text (map promote_line lines) h sh l
        ≡ beside h (First.run_lines k lines sh l)
  unfolding First.run_lines Second.run_lines
  run_lines-promote [] h sh l = refl
  run_lines-promote (line ∷ lines) h sh l =
      ap
        (λ m.
          bind_outcome m (λ r. Second.run_lines k users id text (map promote_line lines) r.0 r.1))
        (run_line-promote line h sh l)
      ∙ beside-bind h (First.run_line k line sh l) (First.run_lines k lines) _
          (λ sh' l'. run_lines-promote lines h sh' l')
