-- ===== src/Http/NpShell/Exit.antt =====
-- No command is sent behind one that ends the shell.
use nycu_np.Http.Boost.{Boost}
use nycu_np.Http.Escape.{cgi_output_command, cgi_output_shell}
use nycu_np.Http.NpShell.{
  Action, write, respond, Pending, nothing, reading, writing, NpShellApp, Completion, read_done,
  read_failed, write_done, write_failed, buffer_size, has_exit, show_output, handle_backend_req,
  next_command, handle_http_resp, answer, handle_output, handle_written, handle, and_then, run, act,
  start, np_shell_app,
}
use nycu_np.Prelude.{
  c_text, has, ℕ, Bool, true, false, ◌||◌, if◌then◌else◌, ltb, List, [], ◌∷◌, ◌++◌, Option, none,
  some, Bytes, codes, length, ◌≡◌, refl, ◌∙◌, subst, arith, Bool-cases, inl, inr,
}
use nycu_np.Shell.Stream.{Stream, get_line}

-- Whether a command with the word has been sent.
abbrev pub exit_sent : List Action → Bool
exit_sent [] = false
exit_sent (write text ∷ actions) = has_exit text || exit_sent actions
exit_sent (_ ∷ actions) = exit_sent actions

-- Each command was sent when none with the word had been.
abbrev pub NoneBehindExit : List Action → Type 0
NoneBehindExit [] = Unit {0}
NoneBehindExit (write text ∷ actions) = (exit_sent actions ≡ false) × NoneBehindExit actions
NoneBehindExit (_ ∷ actions) = NoneBehindExit actions

-- What a pending operation says of the commands so far.
abbrev Awaits : Pending → NpShellApp → Type 0
Awaits nothing app = Unit {0}
Awaits reading app = exit_sent app.actions ≡ false
Awaits writing app = exit_sent app.actions ≡ has_exit app.np_shell_command

pub record EndsAtExit (app : NpShellApp) : Type 0 where
  pub none_behind : NoneBehindExit app.actions
  pub awaits : Awaits app.pending app

abbrev WhereDefined : Option NpShellApp → Type 0
WhereDefined none = Unit {0}
WhereDefined (some app) = EndsAtExit app

-- A test that picks between two results.
if_rule :
    (b : Bool) (x y : Option NpShellApp)
    → WhereDefined x
    → WhereDefined y
    → WhereDefined (if b then x else y)
if_rule true x y h k = h
if_rule false x y h k = k

handle_backend_req-EndsAtExit :
    (cmd : Bytes) (app : NpShellApp)
    → NoneBehindExit app.actions
    → exit_sent app.actions ≡ false
    → WhereDefined (handle_backend_req cmd app)
unfolding handle_backend_req
handle_backend_req-EndsAtExit cmd app none_yet open_yet =
    if_rule (ltb (length (c_text cmd)) buffer_size) _ _
      (record { none_behind = (open_yet, none_yet); awaits = ground (arith, open_yet) }) tt

-- What is done behind a text for the client.
handed_over :
    (b : Boost) (text : Bytes) (app : NpShellApp) (f : NpShellApp → Option NpShellApp)
    → WhereDefined (f (act (respond text) app))
    → WhereDefined (and_then (handle_http_resp b text app) f)
unfolding handle_http_resp
handed_over b text app f h = elim (Bool-cases (b.writes_at_once text)) [
  | inl whole ↦ rw whole h
  | inr part ↦ rw part tt
]

next_command-EndsAtExit :
    (b : Boost) (r : Stream × Bytes) (app : NpShellApp)
    → NoneBehindExit app.actions
    → exit_sent app.actions ≡ false
    → WhereDefined (next_command b r app)
unfolding next_command
next_command-EndsAtExit b (input, line) app none_yet open_yet =
    if_rule input.failed _ _
      (handle_backend_req-EndsAtExit [] (record app { np_server_input = input }) none_yet open_yet)
      (handed_over b (cgi_output_command b (line ++ codes "\n") app.session_id)
        (record app { np_server_input = input }) (handle_backend_req (line ++ codes "\n"))
        (handle_backend_req-EndsAtExit (line ++ codes "\n")
          (act (respond (cgi_output_command b (line ++ codes "\n") app.session_id))
            (record app { np_server_input = input }))
          none_yet open_yet))

answer-EndsAtExit :
    (b : Boost) (output : Bytes) (app : NpShellApp)
    → NoneBehindExit app.actions
    → exit_sent app.actions ≡ false
    → WhereDefined (answer b output app)
unfolding answer
answer-EndsAtExit b output app none_yet open_yet =
    if_rule (has b'%' output) _ _
      (next_command-EndsAtExit b (get_line app.np_server_input) app none_yet open_yet)
      (record { none_behind = none_yet; awaits = open_yet })

handle-EndsAtExit :
    (b : Boost) (p : Pending) (c : Completion) (app : NpShellApp)
    → app.pending ≡ p
    → NoneBehindExit app.actions
    → Awaits p app
    → WhereDefined (handle b p c app)
unfolding handle handle_output handle_written show_output
handle-EndsAtExit b reading (read_done chunk) app at none_yet awaits =
    if_rule (ltb (length chunk) buffer_size || has 0 chunk) _ _
      (handed_over b (cgi_output_shell b (c_text chunk) app.session_id)
        (record app { np_shell_command = []; pending = nothing }) (answer b (c_text chunk))
        (answer-EndsAtExit b (c_text chunk)
          (act (respond (cgi_output_shell b (c_text chunk) app.session_id))
            (record app { np_shell_command = []; pending = nothing }))
          none_yet awaits))
      tt
handle-EndsAtExit b reading read_failed app at none_yet awaits = record {
  none_behind = none_yet;
  awaits = tt;
}
handle-EndsAtExit b reading write_done app at none_yet awaits = record {
  none_behind = none_yet;
  awaits = rw at awaits;
}
handle-EndsAtExit b reading write_failed app at none_yet awaits = record {
  none_behind = none_yet;
  awaits = rw at awaits;
}
handle-EndsAtExit b writing write_done app at none_yet awaits =
    elim (Bool-cases (has_exit app.np_shell_command)) [
      | inl ends ↦ rw ends (record { none_behind = none_yet; awaits = tt })
      | inr other ↦ rw other (record { none_behind = none_yet; awaits = awaits ∙ other })
    ]
handle-EndsAtExit b writing write_failed app at none_yet awaits = record {
  none_behind = none_yet;
  awaits = tt;
}
handle-EndsAtExit b writing (read_done chunk) app at none_yet awaits = record {
  none_behind = none_yet;
  awaits = rw at awaits;
}
handle-EndsAtExit b writing read_failed app at none_yet awaits = record {
  none_behind = none_yet;
  awaits = rw at awaits;
}
handle-EndsAtExit b nothing c app at none_yet awaits = record {
  none_behind = none_yet;
  awaits = rw at awaits;
}

onward :
    (r : Option NpShellApp) (f : NpShellApp → Option NpShellApp)
    → WhereDefined r
    → ((app : NpShellApp) → EndsAtExit app → WhereDefined (f app))
    → WhereDefined (and_then r f)
onward none f k go = tt
onward (some next) f k go = go next k

run-EndsAtExit :
    (b : Boost) (cs : List Completion) (app : NpShellApp)
    → EndsAtExit app
    → WhereDefined (run b cs app)
unfolding run
run-EndsAtExit b [] app h = h
run-EndsAtExit b (c ∷ cs) app h =
    onward (handle b app.pending c app) (run b cs)
      (handle-EndsAtExit b app.pending c app refl h.none_behind h.awaits)
      (λ next k. run-EndsAtExit b cs next k)

start-EndsAtExit :
    (resolved connected : Bool) (file : Option Bytes) (sid : ℕ)
    → EndsAtExit (start resolved connected (np_shell_app file sid))
unfolding start
start-EndsAtExit true true file sid = record { none_behind = tt; awaits = refl }
start-EndsAtExit true false file sid = record { none_behind = tt; awaits = tt }
start-EndsAtExit false connected file sid = record { none_behind = tt; awaits = tt }

-- In every state that any reports lead a new dialogue to, in any order, each command was sent when
-- no command with the word `exit` had been.
pub run-NoneBehindExit :
    (b : Boost) (file : Option Bytes) (sid : ℕ) (resolved connected : Bool) (cs : List Completion)
    (app : NpShellApp)
    → run b cs (start resolved connected (np_shell_app file sid)) ≡ some app
    → NoneBehindExit app.actions
run-NoneBehindExit b file sid resolved connected cs app leads =
    (subst WhereDefined leads (
      run-EndsAtExit b cs (start resolved connected (np_shell_app file sid))
        (start-EndsAtExit resolved connected file sid))).none_behind
