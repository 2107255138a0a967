-- ===== src/Shell/Parse/Shape.antt =====
-- The shape of the lines that the parser emits, on which the shell's cast to `PipeCommand&` and
-- its handling of numbered pipes rest.
use mathlib.Core.Option
use nycu_np.Prelude.{
  ℕ, zero, suc, List, [], ◌∷◌, ◌++◌, Option, none, some, Bytes, ℤ, ◌≡◌, refl, arith, some-injective,
  ap, All, All-append, append_assoc, subst, sym, ◌∙◌, append-nil, length,
}
use nycu_np.Shell.Command.{
  Command, exe_command, pipe_command, file_command, numbered_pipe_command, user_pipe_command,
  NpCommandLine,
}
use nycu_np.Shell.Parse.Cases.{interpret-cases}
use nycu_np.Shell.Parse.Total.{parse_loop_total}
use nycu_np.Shell.Parse.{
  Builtins, Parsing, add_pair, interpret, parse_loop, parse_next, add_last, emitted, start, finish,
  parse_command, parse_printenv, parse_setenv, parse_tell, parse_yell, parse_name, parse_file,
  parse_numbered, parse_write, parse_read,
}
use nycu_np.Shell.Stream.{Stream, read_word}

-- A command that the shell may cast to `PipeCommand&`, and that is no numbered pipe.
abbrev pub IsInnerPipe : Command → Type 0
IsInnerPipe pipe_command = Unit {0}
IsInnerPipe (file_command name) = Unit {0}
IsInnerPipe user_pipe_command = Unit {0}
IsInnerPipe _ = ⊥

-- Programs, each with the pipe that it writes to.
abbrev pub IsOpen : List Command → Type 0
IsOpen [] = Unit {0}
IsOpen (exe_command argv ∷ c ∷ rest) = IsInnerPipe c × IsOpen rest
IsOpen _ = ⊥

-- Programs, each but the last with the pipe that it writes to behind it; a numbered pipe ends the
-- line.
abbrev pub IsPipeline : List Command → Type 0
IsPipeline [] = Unit {0}
IsPipeline (exe_command argv ∷ []) = Unit {0}
IsPipeline (exe_command argv ∷ numbered_pipe_command n err ∷ rest) = rest ≡ []
IsPipeline (exe_command argv ∷ c ∷ rest) = IsInnerPipe c × IsPipeline rest
IsPipeline _ = ⊥

-- A line that the shell can run: `back()` of its commands is there.
pub record IsRunnable (line : NpCommandLine) : Type 0 where
  pub pipeline : IsPipeline line.np_commands
  pub has_command : line.np_commands ≡ [] → ⊥

IsOpen-pair :
    (cs : List Command) (argv : List Bytes) (c : Command)
    → IsInnerPipe c
    → IsOpen cs
    → IsOpen ((cs ++ exe_command argv ∷ []) ++ c ∷ [])
IsOpen-pair [] argv c h k = (h, tt)
IsOpen-pair (exe_command a ∷ d ∷ rest) argv c h k = (k.0, IsOpen-pair rest argv c h k.1)
IsOpen-pair (exe_command a ∷ []) argv c h k = absurd k
IsOpen-pair (pipe_command ∷ rest) argv c h k = absurd k
IsOpen-pair (file_command name ∷ rest) argv c h k = absurd k
IsOpen-pair (numbered_pipe_command n e ∷ rest) argv c h k = absurd k
IsOpen-pair (user_pipe_command ∷ rest) argv c h k = absurd k

-- An open line is a pipeline, and stays one with a program or a numbered pipe at its end.
IsPipeline-append : (cs ds : List Command) → IsOpen cs → IsPipeline ds → IsPipeline (cs ++ ds)
IsPipeline-append [] ds h k = k
IsPipeline-append (exe_command a ∷ pipe_command ∷ rest) ds h k =
    (h.0, IsPipeline-append rest ds h.1 k)
IsPipeline-append (exe_command a ∷ file_command name ∷ rest) ds h k =
    (h.0, IsPipeline-append rest ds h.1 k)
IsPipeline-append (exe_command a ∷ user_pipe_command ∷ rest) ds h k =
    (h.0, IsPipeline-append rest ds h.1 k)
IsPipeline-append (exe_command a ∷ numbered_pipe_command n e ∷ rest) ds h k = absurd h.0
IsPipeline-append (exe_command a ∷ exe_command a' ∷ rest) ds h k = absurd h.0
IsPipeline-append (exe_command a ∷ []) ds h k = absurd h
IsPipeline-append (pipe_command ∷ rest) ds h k = absurd h
IsPipeline-append (file_command name ∷ rest) ds h k = absurd h
IsPipeline-append (numbered_pipe_command n e ∷ rest) ds h k = absurd h
IsPipeline-append (user_pipe_command ∷ rest) ds h k = absurd h

append-ne-nil : (cs : List Command) (c : Command) → cs ++ c ∷ [] ≡ [] → ⊥
append-ne-nil [] c e = cc
append-ne-nil (d ∷ cs) c e = cc

-- What the loop keeps: the line at hand is open, and every line emitted can be run.
record Inv {H : Type 0} (s : Parsing H) : Type 0 where
  line_open : IsOpen s.line.np_commands
  ret_runnable : All IsRunnable s.ret

module _ {H : Type 0} (b : Builtins H) (uninit : ℤ) where
  add_pair-Inv : (c : Command) (s : Parsing H) → IsInnerPipe c → Inv s → Inv (add_pair b uninit c s)
  unfolding add_pair
  add_pair-Inv c s h v = record {
    line_open = IsOpen-pair s.line.np_commands s.argv c h v.line_open;
    ret_runnable = v.ret_runnable;
  }

  parse_numbered-Inv : (word : Bytes) (s : Parsing H) → Inv s → Inv (parse_numbered b uninit word s)
  unfolding parse_numbered
  parse_numbered-Inv word s v = record {
    line_open = tt;
    ret_runnable = All-append IsRunnable s.ret _ v.ret_runnable (
      record {
        pipeline = rw append_assoc (IsPipeline-append s.line.np_commands _ v.line_open refl);
        has_command = append-ne-nil _ _;
      },
      tt,
    );
  }

  interpret-Inv : (word : Bytes) (s : Parsing H) → Inv s → Inv (interpret b uninit word s)
  unfolding parse_printenv parse_setenv parse_tell parse_yell parse_name parse_file parse_write
      parse_read
  interpret-Inv word s v =
      interpret-cases b uninit Inv word s (same refl refl) (same refl refl) (same refl refl)
        (same refl refl) (same refl refl) (same refl refl) (same refl refl)
        (add_pair-Inv pipe_command s tt v) (add_pair-Inv _ _ tt (same refl refl))
        (parse_numbered-Inv word s v) (add_pair-Inv _ _ tt (same refl refl)) (same refl refl)
        (same refl refl)
    where
      same : {t : Parsing H} → t.line.np_commands ≡ s.line.np_commands → t.ret ≡ s.ret → Inv t
      same e f = record { line_open = rw e v.line_open; ret_runnable = rw f v.ret_runnable }

  parse_loop-Inv :
      (fuel : ℕ) (s t : Parsing H) → Inv s → parse_loop b uninit fuel s ≡ some t → Inv t
  unfolding parse_loop
  parse_loop-Inv zero s t v e = cc
  parse_loop-Inv (suc fuel) s t v e = step (read_word s.iss) e (λ u. parse_loop-Inv fuel u t)
    where
      step :
          (r : Stream × Option Bytes)
          → parse_next b uninit (parse_loop b uninit fuel) s r ≡ some t
          → ((u : Parsing H) → Inv u → parse_loop b uninit fuel u ≡ some t → Inv t)
          → Inv t
      step (iss, none) ended go =
          subst Inv (some-injective ended)
            (record { line_open = v.line_open; ret_runnable = v.ret_runnable })
      step (iss, some word) next go =
          go _
            (interpret-Inv word _
              (record { line_open = v.line_open; ret_runnable = v.ret_runnable }))
            next

  -- The words that are left make a command at the end of the line.
  add_last-IsPipeline :
      (argv : List Bytes) (s : Parsing H)
      → Inv s
      → IsPipeline (add_last b uninit argv s).line.np_commands
  unfolding add_last
  add_last-IsPipeline [] s v =
      subst IsPipeline (append-nil s.line.np_commands)
        (IsPipeline-append s.line.np_commands [] v.line_open tt)
  add_last-IsPipeline (w ∷ ws) s v = IsPipeline-append s.line.np_commands _ v.line_open tt

  add_last-ret : (argv : List Bytes) (s : Parsing H) → (add_last b uninit argv s).ret ≡ s.ret
  unfolding add_last
  add_last-ret [] s = refl
  add_last-ret (w ∷ ws) s = refl

  emitted-IsRunnable :
      (cs : List Command) (s : Parsing H)
      → s.line.np_commands ≡ cs
      → IsPipeline cs
      → All IsRunnable s.ret
      → All IsRunnable (emitted b uninit cs s)
  unfolding emitted
  emitted-IsRunnable [] s e p r = r
  emitted-IsRunnable (c ∷ cs) s e p r =
      All-append IsRunnable s.ret _ r (record { pipeline = rw e p; has_command = λ f. cc }, tt)

  finish-IsRunnable : (s : Parsing H) → Inv s → All IsRunnable (finish b uninit s).0
  unfolding finish
  finish-IsRunnable s v =
      let t = add_last b uninit s.argv s in
      emitted-IsRunnable t.line.np_commands t refl (add_last-IsPipeline s.argv s v)
        (rw (add_last-ret s.argv s) v.ret_runnable)

  -- Every line that the parser emits has a command, and in it each program but the last stands in
  -- front of a command that is a `PipeCommand`, so that the shell's cast of the next command
  -- succeeds; a numbered pipe stands at the end of its line only.
  pub parse_command-IsRunnable :
      (command : Bytes) (host : H) (lines : List NpCommandLine) (host' : H)
      → parse_command b uninit command host ≡ some (lines, host')
      → All IsRunnable lines
  unfolding parse_command start
  parse_command-IsRunnable command host lines host' e =
      let (t, ended) =
        parse_loop_total b uninit (suc (length command)) (start b uninit command host)
          (omega arith) in
      let ended' : finish b uninit t ≡ (lines, host') =
        some-injective (sym (ap (Option.map (finish b uninit)) ended) ∙ e) in
      subst (λ r. All IsRunnable r.0) ended'
        (finish-IsRunnable t (
          parse_loop-Inv (suc (length command)) (start b uninit command host) t
            (record { line_open = tt; ret_runnable = tt }) ended))
