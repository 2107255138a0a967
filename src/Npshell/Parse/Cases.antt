-- ===== src/Npshell/Parse/Cases.antt =====
-- The cases of one round of the parser's loop.
use nycu_np.Npshell.Command.{pipe_command}
use nycu_np.Npshell.Parse.{
  Builtins, Parsing, add_pair, interpret, parse_printenv, parse_setenv, parse_file, parse_numbered,
}
use nycu_np.Prelude.{Bytes, ◌++◌, ◌∷◌, []}
use nycu_np.Shell.Parse.Cases.{if_rule}

pub interpret-cases {ℓ} :
    {H : Type 0} (b : Builtins H) (P : Parsing H → Type ℓ) (word : Bytes) (s : Parsing H)
    → P (record s { host = b.exit s.host })
    → P (parse_printenv b s)
    → P (parse_setenv b s)
    → P (add_pair b pipe_command s)
    → P (parse_file b s)
    → P (parse_numbered b word s)
    → P (record s { argv = s.argv ++ word ∷ [] })
    → P (interpret b word s)
unfolding interpret
interpret-cases b P word s exit printenv setenv pipe file numbered program = if_rule P _ exit (
    if_rule P _ printenv
      (if_rule P _ setenv (if_rule P _ pipe (if_rule P _ file (if_rule P _ numbered program)))))
