-- ===== src/Cgi/Application/Dialogue.antt =====
-- What is handed to the socket of the remote shell, in a dialogue of any length.
use nycu_np.Cgi.Application.{
  Application, Action, write, Pending, nothing, reading, writing, Completion, read_done,
  read_failed, write_done, write_failed, has_prompt, start_reading, send_command, show_output,
  handle_output, handle, complete, run,
}
use nycu_np.Prelude.{
  ℕ, ◌+◌, ◌≤◌, Bool, true, false, if◌then◌else◌, ◌==◌, List, [], ◌∷◌, ◌++◌, map, append_assoc,
  Bytes, codes, length, length-append, ◌≡◌, refl, sym, ap, ◌∙◌, arith, Bool-cases, inl, inr,
}
use nycu_np.Shell.Stream.{Stream, get_line, take_line, line_of, after_line}

-- The lines of a text; the last one may have no line end.
abbrev extend : ℕ → List Bytes → List Bytes
extend c [] = (c ∷ []) ∷ []
extend c (l ∷ ls) = (c ∷ l) ∷ ls

unfoldable pub lines : Bytes → List Bytes
lines [] = []
lines (c ∷ cs) = let rest = lines cs in if c == b'\n' then [] ∷ rest else extend c rest

pub lines-line_of :
    (c : ℕ) (cs : Bytes) → lines (c ∷ cs) ≡ line_of (c ∷ cs) ∷ lines (after_line (c ∷ cs))
unfolding lines line_of after_line
lines-line_of c [] = elim (Bool-cases (c == b'\n')) [
  | inl ends ↦ rw ends refl
  | inr other ↦ rw other refl
]
lines-line_of c (d ∷ ds) = elim (Bool-cases (c == b'\n')) [
  | inl ends ↦ rw ends refl
  | inr other ↦ rw other (ap (extend c) (lines-line_of d ds))
]

-- The lines that are left of the test case, and the commands that they make.
abbrev pub unread : Stream → List Bytes
unread s = if s.failed then [] else lines s.rest

abbrev pub unsent : Stream → List Bytes
unsent s = map (λ l. l ++ codes "\n") (unread s)

-- The commands that have been handed to `async_write_some`, the oldest first.
abbrev pub commands : List Action → List Bytes
commands [] = []
commands (write command ∷ actions) = commands actions ++ command ∷ []
commands (_ ∷ actions) = commands actions

-- The commands that have been handed over and those that are still to be.
abbrev pub all_commands : Application → List Bytes
all_commands app = commands app.actions ++ unsent app.cgi_input

send_command-all :
    (rest : Bytes) (failed : Bool) (app : Application)
    → all_commands (send_command (get_line (record { rest = rest; failed = failed })) app)
      ≡ commands app.actions ++ unsent (record { rest = rest; failed = failed })
unfolding send_command get_line take_line lines
send_command-all rest true app = refl
send_command-all [] false app = refl
send_command-all (c ∷ cs) false app =
    append_assoc (commands app.actions) _ _
    ∙ ap (λ ls. commands app.actions ++ map (λ l. l ++ codes "\n") ls) (sym (lines-line_of c cs))

handle_output-all :
    (chunk : Bytes) (app : Application) → all_commands (handle_output chunk app) ≡ all_commands app
unfolding handle_output start_reading show_output
handle_output-all chunk app = elim (Bool-cases (has_prompt chunk)) [
  | inl prompt ↦
      rw prompt (send_command-all app.cgi_input.rest app.cgi_input.failed (show_output chunk app))
  | inr other ↦ rw other refl
]

handle-all :
    (p : Pending) (c : Completion) (app : Application)
    → all_commands (handle p c app) ≡ all_commands app
unfolding handle start_reading
handle-all reading (read_done chunk) app = handle_output-all chunk app
handle-all reading read_failed app = refl
handle-all writing write_done app = refl
handle-all writing write_failed app = refl
handle-all _ _ app = refl

-- The outputs of the shell that have a prompt in them.
abbrev pub prompts : List Completion → ℕ
prompts [] = 0
prompts (read_done chunk ∷ cs) = (if has_prompt chunk then 1 else 0) + prompts cs
prompts (_ ∷ cs) = prompts cs

abbrev sent : Application → ℕ
sent app = length (commands app.actions)

send_command-le :
    (r : Stream × Bytes) (app : Application) → sent (send_command r app) ≤ sent app + 1
unfolding send_command
send_command-le (input, line) app = elim (Bool-cases input.failed) [
  | inl failed ↦ rw failed (omega arith)
  | inr other ↦
      rw other (omega (arith, length-append (commands app.actions) ((line ++ codes "\n") ∷ [])))
]

handle-le :
    (p : Pending) (c : Completion) (app : Application)
    → sent (handle p c app) ≤ sent app + prompts (c ∷ [])
unfolding handle handle_output start_reading show_output
handle-le reading (read_done chunk) app = elim (Bool-cases (has_prompt chunk)) [
  | inl prompt ↦ rw prompt (send_command-le (get_line app.cgi_input) (show_output chunk app))
  | inr other ↦ rw other (omega arith)
]
handle-le reading read_failed app = omega arith
handle-le reading write_done app = omega arith
handle-le reading write_failed app = omega arith
handle-le writing (read_done chunk) app = omega arith
handle-le writing read_failed app = omega arith
handle-le writing write_done app = omega arith
handle-le writing write_failed app = omega arith
handle-le nothing c app = omega arith

prompts_cons :
    (c : Completion) (cs : List Completion) → prompts (c ∷ cs) ≡ prompts (c ∷ []) + prompts cs
prompts_cons (read_done chunk) cs = omega arith
prompts_cons read_failed cs = omega arith
prompts_cons write_done cs = omega arith
prompts_cons write_failed cs = omega arith

run-le : (cs : List Completion) (app : Application) → sent (run cs app) ≤ sent app + prompts cs
unfolding run complete
run-le [] app = omega arith
run-le (c ∷ cs) app =
    omega (arith, run-le cs (complete c app), handle-le app.pending c app, prompts_cons c cs)

run-all : (cs : List Completion) (app : Application) → all_commands (run cs app) ≡ all_commands app
unfolding run complete
run-all [] app = refl
run-all (c ∷ cs) app = run-all cs (complete c app) ∙ handle-all app.pending c app

-- Whatever is reported, in whatever order, and however the reads cut the output: the commands that
-- have been handed to `async_write_some`, which may take a part of one only, followed by the lines
-- that are left of the test case, are always the same, so that the lines are handed over in order,
-- each once and with one line end, and none is passed over; and no more commands are handed over
-- than outputs with a prompt have come.
pub run-InOrder :
    (cs : List Completion) (app : Application)
    → (commands (run cs app).actions ++ unsent (run cs app).cgi_input
        ≡ commands app.actions ++ unsent app.cgi_input)
      × (length (commands (run cs app).actions) ≤ length (commands app.actions) + prompts cs)
run-InOrder cs app = (run-all cs app, run-le cs app)
