-- ===== src/Shell/Parse/Host.antt =====
-- What the built-in commands keep true of the shell and the server, the parser keeps true.
use mathlib.Core.Option
use nycu_np.Prelude.{ℕ, zero, suc, List, Option, none, some, Bytes, ℤ, [], ◌∷◌, length}
use nycu_np.Shell.Command.{NpCommandLine}
use nycu_np.Shell.Parse.Cases.{interpret-cases}
use nycu_np.Shell.Parse.{
  Builtins, Parsing, add_pair, interpret, parse_loop, parse_next, start, finish, add_last,
  parse_command, parse_printenv, parse_setenv, parse_tell, parse_yell, parse_name, parse_file,
  parse_numbered, parse_write, parse_read, emplace_line,
}
use nycu_np.Shell.Stream.{Stream, read_word}

pub record IsClosed {H : Type 0} (b : Builtins H) (P : H → Type 0) : Type 0 where
  pub exit : (h : H) → P h → P (b.exit h)
  pub printenv : (env : Bytes) (h : H) → P h → P (b.printenv env h)
  pub setenv : (env var : Bytes) (h : H) → P h → P (b.setenv env var h)
  pub who : (h : H) → P h → P (b.who h)
  pub tell : (uid : ℤ) (message : Bytes) (h : H) → P h → P (b.tell uid message h)
  pub yell : (message : Bytes) (h : H) → P h → P (b.yell message h)
  pub name : (new_name : Bytes) (h : H) → P h → P (b.name new_name h)

-- A parser that has run out of fuel meets every condition.
abbrev pub HostHolds : {H : Type 0} → (H → Type 0) → Option (List NpCommandLine × H) → Type 0
HostHolds P none = Unit
HostHolds P (some (lines, host)) = P host

module _ {H : Type 0} (b : Builtins H) (uninit : ℤ) (P : H → Type 0) (closed : IsClosed b P) where
  abbrev LoopHolds : Option (Parsing H) → Type 0
  LoopHolds none = Unit
  LoopHolds (some s) = P s.host

  interpret_host : (word : Bytes) (s : Parsing H) → P s.host → P (interpret b uninit word s).host
  unfolding parse_printenv parse_setenv parse_tell parse_yell parse_name parse_file parse_numbered
      parse_write parse_read add_pair emplace_line
  interpret_host word s h =
      interpret-cases b uninit (λ t. P t.host) word s (closed.exit _ h) (closed.printenv _ _ h)
        (closed.setenv _ _ _ h) (closed.who _ h) (closed.tell _ _ _ h) (closed.yell _ _ h)
        (closed.name _ _ h) h h h h h h

  parse_loop_host : (fuel : ℕ) (s : Parsing H) → P s.host → LoopHolds (parse_loop b uninit fuel s)
  unfolding parse_loop
  parse_loop_host zero s h = tt
  parse_loop_host (suc fuel) s h = round (read_word s.iss) (parse_loop_host fuel)
    where
      round :
          (r : Stream × Option Bytes)
          → ((t : Parsing H) → P t.host → LoopHolds (parse_loop b uninit fuel t))
          → LoopHolds (parse_next b uninit (parse_loop b uninit fuel) s r)
      round (iss, none) go = h
      round (iss, some word) go = go _ (interpret_host word (record s { iss = iss }) h)

  finish_host : (s : Parsing H) → P s.host → P (finish b uninit s).1
  unfolding finish
  finish_host s h = last s.argv
    where
      last : (argv : List Bytes) → P (add_last b uninit argv s).host
      last [] = h
      last (w ∷ ws) = h

  finished : (r : Option (Parsing H)) → LoopHolds r → HostHolds P (Option.map (finish b uninit) r)
  finished none h = tt
  finished (some s) h = finish_host s h

  pub parse_command_host :
      (command : Bytes) (host : H) → P host → HostHolds P (parse_command b uninit command host)
  unfolding parse_command start
  parse_command_host command host h =
      finished (parse_loop b uninit (suc (length command)) (start b uninit command host))
        (parse_loop_host (suc (length command)) (start b uninit command host) h)
