-- ===== src/Http/NpShell/Dialogue.antt =====
-- The lines of the file, one for each prompt.
use nycu_np.Cgi.Application.Dialogue.{unread, unsent}
use nycu_np.Http.Boost.{Boost}
use nycu_np.Http.NpShell.{Action, write, NpShellApp, Completion, read_done, buffer_size}
use nycu_np.Prelude.{
  has, ◌≤◌, true, false, ◌||◌, ltb, ◌==◌, List, [], ◌∷◌, ◌++◌, Option, some, Bytes, All, length,
  ◌≡◌,
}

-- The commands that have been sent, the oldest first; an empty one sends nothing.
abbrev pub with_command : List Bytes → Bytes → List Bytes
with_command sent [] = sent
with_command sent (c ∷ text) = sent ++ (c ∷ text) ∷ []

abbrev pub commands : List Action → List Bytes
commands [] = []
commands (write text ∷ actions) = with_command (commands actions) text
commands (_ ∷ actions) = commands actions

-- A line that fits the array, with its line end and the NUL, and has no NUL of its own.
pub record IsShort (line : Bytes) : Type 0 where
  pub fits : length line ≤ 1022
  pub no_nul : All (λ c. (c == 0) ≡ false) line

-- A read that leaves a NUL in the array.
abbrev pub LeavesNul : Completion → Type 0
LeavesNul (read_done chunk) = (ltb (length chunk) buffer_size || has 0 chunk) ≡ true
LeavesNul _ = Unit

-- The commands that have been sent and those that are still to be sent.
abbrev all_commands : NpShellApp → List Bytes
all_commands app = commands app.actions ++ unsent app.np_server_input

-- A run that goes on, with the commands in their order.
abbrev pub KeepsOrder : NpShellApp → Option NpShellApp → Type 0
KeepsOrder app r =
    (app' : NpShellApp) × (r ≡ some app')
    × (commands app'.actions ++ unsent app'.np_server_input
        ≡ commands app.actions ++ unsent app.np_server_input)
    × All IsShort (unread app'.np_server_input)
