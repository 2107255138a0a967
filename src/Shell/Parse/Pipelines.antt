-- ===== src/Shell/Parse/Pipelines.antt =====
-- Programs with their arguments, joined by pipes: the parser reads back what was written.
use mathlib.Core.Option
use nycu_np.Prelude.{
  suc, List, [], ◌∷◌, ◌++◌, map, some, Bytes, ℤ, ◌≡◌, refl, ◌≢◌, arith, All, append_assoc, sym, ap,
  ◌∙◌, append-nil, length,
}
use nycu_np.Shell.Command.{
  Command, exe_command, pipe_command, NpCommandLine, empty_line, add_command,
}
use nycu_np.Shell.Parse.{
  Builtins, Parsing, add_pair, add_last, emitted, start, finish, parse_command,
}
use nycu_np.Shell.Stream.{Stream}
use nycu_np.Shell.Parse.Pieces.{
  IsPlain, Piece, arg, bar, text, IsPlainPiece, fresh, at_end, feed, parse_loop-text,
}

-- A program and its arguments, and those behind it.
abbrev pub pieces : List Bytes → List (List Bytes) → List Piece
pieces argv [] = map arg argv
pieces argv (next ∷ rest) = map arg argv ++ bar ∷ pieces next rest

abbrev pub commands : List Bytes → List (List Bytes) → List Command
commands argv [] = exe_command argv ∷ []
commands argv (next ∷ rest) = exe_command argv ∷ pipe_command ∷ commands next rest

-- Every program is there and every word of it is plain.
abbrev pub IsProgram : List Bytes → Type 0
IsProgram argv = (argv ≢ []) × All IsPlain argv

pieces-plain :
    (argv : List Bytes) (rest : List (List Bytes))
    → All IsPlain argv
    → All IsProgram rest
    → All IsPlainPiece (pieces argv rest)
pieces-plain argv [] h k = args argv h
  where
    args : (ws : List Bytes) → All IsPlain ws → All IsPlainPiece (map arg ws)
    args [] h = tt
    args (w ∷ ws) h = (h.0, args ws h.1)
pieces-plain [] (next ∷ rest) h k = (tt, pieces-plain next rest k.0.1 k.1)
pieces-plain (w ∷ argv) (next ∷ rest) h k = (h.0, pieces-plain argv (next ∷ rest) h.1 k)

module _ {H : Type 0} (b : Builtins H) (uninit : ℤ) where
  feed-args :
      (ws : List Bytes) (ps : List Piece) (s : Parsing H)
      → feed b uninit (map arg ws ++ ps) s ≡ feed b uninit ps (record s { argv = s.argv ++ ws })
  feed-args [] ps s = rw append-nil
  feed-args (w ∷ ws) ps s = feed-args ws ps (record s { argv = s.argv ++ w ∷ [] }) ∙ rw append_assoc

  emitted-append :
      (cs : List Command) (c : Command) (s : Parsing H)
      → emitted b uninit (cs ++ c ∷ []) s ≡ s.ret ++ s.line ∷ []
  unfolding emitted
  emitted-append [] c s = refl
  emitted-append (d ∷ cs) c s = refl

  -- The parser with these commands on the line, and no word yet.
  abbrev with_commands : Stream → List Command → H → Parsing H
  with_commands iss cs host = record {
    iss = iss;
    argv = [];
    line = record empty_line { np_commands = cs };
    ret = [];
    host = host;
  }

  finish-args :
      (iss : Stream) (argv : List Bytes) (cs : List Command) (host : H)
      → argv ≢ []
      → finish b uninit (record (with_commands iss cs host) { argv = argv })
        ≡ (record empty_line { np_commands = cs ++ exe_command argv ∷ [] } ∷ [], host)
  unfolding finish add_last
  finish-args iss [] cs host ne = absurd (ne refl)
  finish-args iss (w ∷ ws) cs host ne =
      ap (λ lines. (lines, host)) (emitted-append cs (exe_command (w ∷ ws)) _)

  finish-feed :
      (from iss : Stream) (argv : List Bytes) (rest : List (List Bytes)) (cs : List Command)
      (host : H)
      → argv ≢ []
      → All IsProgram rest
      → finish b uninit
          (record (feed b uninit (pieces argv rest) (with_commands from cs host)) { iss = iss })
        ≡ (record empty_line { np_commands = cs ++ commands argv rest } ∷ [], host)
  unfolding add_pair add_command
  finish-feed from iss argv [] cs host ne h =
      ap (λ ps. finish_at (feed b uninit ps (with_commands from cs host)))
        (sym (append-nil (map arg argv)))
      ∙ ap finish_at (feed-args argv [] (with_commands from cs host))
      ∙ finish-args iss argv cs host ne
    where
      finish_at : Parsing H → List NpCommandLine × H
      finish_at t = finish b uninit (record t { iss = iss })
  finish-feed from iss argv (next ∷ rest) cs host ne h =
      ap finish_at (feed-args argv (bar ∷ pieces next rest) (with_commands from cs host))
      ∙ finish-feed from iss next rest ((cs ++ exe_command argv ∷ []) ++ pipe_command ∷ []) host
          h.0.0 h.1
      ∙ ap (λ (l : List Command). (record empty_line { np_commands = l } ∷ [], host))
          (rw (append_assoc, append_assoc))
    where
      finish_at : Parsing H → List NpCommandLine × H
      finish_at t = finish b uninit (record t { iss = iss })

  -- A program and its arguments, and any number of further programs behind a `|` each, every one
  -- with a word at least and all words plain, are read as the one line that holds them in order
  -- with a pipe between; the shell and the server are left as they are.
  pub parse_command-text :
      (argv : List Bytes) (rest : List (List Bytes)) (host : H)
      → IsProgram argv
      → All IsProgram rest
      → parse_command b uninit (text (pieces argv rest)) host
        ≡ some (record empty_line { np_commands = commands argv rest } ∷ [], host)
  unfolding parse_command start
  parse_command-text argv rest host h k =
      let ps = pieces argv rest in
      ap (Option.map (finish b uninit)) (
        parse_loop-text b uninit ps (suc (length (text ps)))
          (with_commands (fresh (text ps)) [] host) (pieces-plain argv rest h.1 k) (omega arith))
      ∙ ap some (finish-feed (fresh (text ps)) at_end argv rest [] host h.0 k)
