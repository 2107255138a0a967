-- ===== src/Shell/Parse.antt =====
-- `CmdHandler::parseCommand` of 312552017_np_project2/shell/cmdHandler.cpp.
pub mod Cases
pub mod Total
pub mod Shape
pub mod Pieces
pub mod Pipelines
pub mod Host
use mathlib.Core.Option
use nycu_np.Prelude.{
  ℕ, zero, suc, ◌+◌, Bool, true, false, ◌||◌, if◌then◌else◌, ◌==◌, List, [], ◌∷◌, ◌++◌, Option,
  none, some, Bytes, codes, equal, length, ℤ,
}
use nycu_np.Shell.Command.{
  Command, exe_command, pipe_command, file_command, numbered_pipe_command, user_pipe_command,
  NpCommandLine, empty_line, add_command, moved_from,
}
use nycu_np.Shell.Stream.{Stream, read_word, or_empty, read_int, read_line_ws, atoi}

-- What the parser does at once on the shell's own state and on the server, of type `H`: the
-- words that are no programs.
pub record Builtins (H : Type 0) : Type 0 where
  pub exit : H → H
  pub printenv : Bytes → H → H
  pub setenv : Bytes → Bytes → H → H
  pub who : H → H
  pub tell : ℤ → Bytes → H → H
  pub yell : Bytes → H → H
  pub name : Bytes → H → H

-- The local variables of the function.
pub record Parsing (H : Type 0) : Type 0 where
  pub iss : Stream
  pub argv : List Bytes
  pub line : NpCommandLine
  pub ret : List NpCommandLine
  pub host : H

abbrev pub first_is : ℕ → Bytes → Bool
first_is c [] = false
first_is c (b ∷ bs) = b == c

abbrev pub after_first : Bytes → Bytes
after_first [] = []
after_first (b ∷ bs) = bs

-- `uninit` is the value of `int uid;` before anything is read into it.

module _ {H : Type 0} (b : Builtins H) (uninit : ℤ) where
  -- `std::make_unique<ExeCommand>(argv)` moves the words out of `argv`.
  unfoldable pub add_pair : Command → Parsing H → Parsing H
  unfolding add_command
  add_pair c s = record s {
    argv = [];
    line = add_command c (add_command (exe_command s.argv) s.line);
  }

  unfoldable pub emplace_line : Parsing H → Parsing H
  unfolding moved_from
  emplace_line s = record s { ret = s.ret ++ s.line ∷ []; line = moved_from s.line }

  unfoldable pub parse_printenv : Parsing H → Parsing H
  parse_printenv s =
      let (iss, env) = read_word s.iss in
      record s { iss = iss; host = b.printenv (or_empty env) s.host }

  unfoldable pub parse_setenv : Parsing H → Parsing H
  parse_setenv s =
      let (iss, env) = read_word s.iss in
      let (iss', var) = read_word iss in
      record s { iss = iss'; host = b.setenv (or_empty env) (or_empty var) s.host }

  pub parse_tell : Parsing H → Parsing H
  parse_tell s =
      let (iss, uid) = read_int uninit s.iss in
      let (iss', message) = read_line_ws iss in
      record s { iss = iss'; host = b.tell uid message s.host }

  pub parse_yell : Parsing H → Parsing H
  parse_yell s =
      let (iss, message) = read_line_ws s.iss in
      record s { iss = iss; host = b.yell message s.host }

  pub parse_name : Parsing H → Parsing H
  parse_name s =
      let (iss, name) = read_line_ws s.iss in record s { iss = iss; host = b.name name s.host }

  unfoldable pub parse_file : Parsing H → Parsing H
  unfolding add_pair
  parse_file s =
      let (iss, file_name) = read_word s.iss in
      add_pair (file_command (or_empty file_name)) (record s { iss = iss })

  unfoldable pub parse_numbered : Bytes → Parsing H → Parsing H
  unfolding add_pair emplace_line atoi
  parse_numbered word s =
      let number = atoi (after_first word) in
      emplace_line (add_pair (numbered_pipe_command number (first_is b'!' word)) s)

  pub parse_write : Bytes → Parsing H → Parsing H
  unfolding add_pair atoi
  parse_write word s =
      add_pair user_pipe_command
        (record s { line = record s.line { write_uid = atoi (after_first word) } })

  pub parse_read : Bytes → Parsing H → Parsing H
  unfolding atoi
  parse_read word s = record s { line = record s.line { read_uid = atoi (after_first word) } }

  -- One round of the loop, on the word that was read.
  unfoldable pub interpret : Bytes → Parsing H → Parsing H
  interpret word s =
      if equal word (codes "exit")
      then record s { host = b.exit s.host }
      else if equal word (codes "printenv")
      then parse_printenv s
      else if equal word (codes "setenv")
      then parse_setenv s
      else if equal word (codes "who")
      then record s { host = b.who s.host }
      else if equal word (codes "tell")
      then parse_tell s
      else if equal word (codes "yell")
      then parse_yell s
      else if equal word (codes "name")
      then parse_name s
      else if equal word (codes "|")
      then add_pair pipe_command s
      else if equal word (codes ">")
      then parse_file s
      else if first_is b'|' word || first_is b'!' word
      then parse_numbered word s
      else if first_is b'>' word
      then parse_write word s
      else if first_is b'<' word
      then parse_read word s
      else record s { argv = s.argv ++ word ∷ [] }

  -- `while (iss >> singleCommand)`, on fuel; `none` is fuel that ran out.
  unfoldable pub parse_next :
      (Parsing H → Option (Parsing H)) → Parsing H → Stream × Option Bytes → Option (Parsing H)
  parse_next go s (iss, none) = some (record s { iss = iss })
  parse_next go s (iss, some word) = go (interpret word (record s { iss = iss }))

  unfoldable pub parse_loop : ℕ → Parsing H → Option (Parsing H)
  unfolding parse_next
  parse_loop zero s = none
  parse_loop (suc fuel) s = parse_next (parse_loop fuel) s (read_word s.iss)

  -- The words that are left make a command.
  unfoldable pub add_last : List Bytes → Parsing H → Parsing H
  unfolding add_command
  add_last [] s = s
  add_last (w ∷ ws) s = record s { argv = []; line = add_command (exe_command (w ∷ ws)) s.line }

  -- A line that has commands is emitted.
  unfoldable pub emitted : List Command → Parsing H → List NpCommandLine
  emitted [] s = s.ret
  emitted (c ∷ cs) s = s.ret ++ s.line ∷ []

  unfoldable pub finish : Parsing H → List NpCommandLine × H
  unfolding add_last emitted
  finish s = let t = add_last s.argv s in (emitted t.line.np_commands t, t.host)

  unfoldable pub start : Bytes → H → Parsing H
  start command host = record {
    iss = record { rest = command; failed = false };
    argv = [];
    line = empty_line;
    ret = [];
    host = host;
  }

  -- Each round reads a byte at least, so that fuel above the length is enough.
  unfoldable pub parse_command : Bytes → H → Option (List NpCommandLine × H)
  unfolding parse_loop finish start interpret equal parse_printenv parse_setenv parse_tell
      parse_yell parse_name parse_file parse_numbered parse_write parse_read
  parse_command command host =
      Option.map finish (parse_loop (suc (length command)) (start command host))
