-- ===== src/Cgi/Application/Transcript/Steps.antt =====
-- The steps of a dialogue whose writes succeed, and the clauses of the transcript.
use nycu_np.Cgi.Application.{
  Application, Action, write, shutdown_send, output, nothing, Completion, read_done, write_done,
  has_prompt, start_reading, show_output, send_command, handle_output, handle, complete, run,
}
use nycu_np.Cgi.Escape.{ClientInfo, output_shell, output_command}
use nycu_np.Prelude.{
  ℕ, true, false, List, [], ◌∷◌, ◌++◌, Bytes, codes, ◌≡◌, refl, ap, ◌∙◌, if_true, if_false,
}
use nycu_np.Shell.Stream.{Stream, get_line}
use nycu_np.Cgi.Application.Transcript.{shown_output, shown_command, transcript, reports, waiting}

-- Nothing comes where nothing has been started.
pub run-idle : (cs : List Completion) (app : Application) → app.pending ≡ nothing → run cs app ≡ app
unfolding run complete handle
run-idle [] app idle = refl
run-idle (c ∷ cs) app idle = ap (λ p. run cs (handle p c app)) idle ∙ run-idle cs app idle

module _ (chunk : Bytes) (chunks : List Bytes) where
  module _ (info : ClientInfo) (input : Stream) (older : List Action) where
    -- The application behind the output.
    abbrev pub shown : Application
    shown = show_output chunk (waiting info input older)

    pub run_prompt :
        has_prompt chunk ≡ true
        → run (reports (chunk ∷ chunks)) (waiting info input older)
          ≡ run (write_done ∷ reports chunks) (send_command (get_line input) shown)
    unfolding run complete handle handle_output reports
    run_prompt prompt =
        ap (λ cs. run (read_done chunk ∷ cs) (waiting info input older))
          (if_true (has_prompt chunk) _ _ prompt)
        ∙ ap (run (write_done ∷ reports chunks)) (if_true (has_prompt chunk) _ _ prompt)

    pub run_more :
        has_prompt chunk ≡ false
        → run (reports (chunk ∷ chunks)) (waiting info input older)
          ≡ run (reports chunks) (start_reading shown)
    unfolding run complete handle handle_output reports
    run_more other =
        ap (λ cs. run (read_done chunk ∷ cs) (waiting info input older))
          (if_false (has_prompt chunk) _ _ other)
        ∙ ap (run (reports chunks)) (if_false (has_prompt chunk) _ _ other)

  module _ (id : ℕ) where
    pub transcript-more :
        (ls : List Bytes)
        → has_prompt chunk ≡ false
        → transcript id (chunk ∷ chunks) ls ≡ shown_output id chunk ∷ transcript id chunks ls
    unfolding transcript
    transcript-more [] other =
        ap (◌∷◌ (shown_output id chunk)) (if_false (has_prompt chunk) _ _ other)
    transcript-more (l ∷ ls) other =
        ap (◌∷◌ (shown_output id chunk)) (if_false (has_prompt chunk) _ _ other)

    pub transcript-end :
        has_prompt chunk ≡ true
        → transcript id (chunk ∷ chunks) [] ≡ shown_output id chunk ∷ shutdown_send ∷ []
    unfolding transcript
    transcript-end prompt = ap (◌∷◌ (shown_output id chunk)) (if_true (has_prompt chunk) _ _ prompt)

    pub transcript-answer :
        (l : Bytes) (ls : List Bytes)
        → has_prompt chunk ≡ true
        → transcript id (chunk ∷ chunks) (l ∷ ls)
          ≡ shown_output id chunk
            ∷ shown_command id (l ++ codes "\n")
            ∷ write (l ++ codes "\n")
            ∷ transcript id chunks ls
    unfolding transcript
    transcript-answer l ls prompt =
        ap (◌∷◌ (shown_output id chunk)) (if_true (has_prompt chunk) _ _ prompt)

pub same_output :
    (info : ClientInfo) (chunk : Bytes)
    → output (output_shell (record info { shell_output = chunk }))
      ≡ shown_output info.session_id chunk
unfolding output_shell
same_output info chunk = refl

pub same_command :
    (info : ClientInfo) (command : Bytes)
    → output (output_command (record info { user_command = command }))
      ≡ shown_command info.session_id command
unfolding output_command
same_command info command = refl

-- The end of the test case.
pub send_command-end :
    (r : Stream × Bytes) (app : Application)
    → r.0.failed ≡ true
    → ((send_command r app).pending ≡ nothing)
      × ((send_command r app).actions ≡ shutdown_send ∷ app.actions)
unfolding send_command
send_command-end r app ends = (
  ap (λ (a : Application). a.pending) (if_true r.0.failed _ _ ends),
  ap (λ (a : Application). a.actions) (if_true r.0.failed _ _ ends),
)

-- The application behind a command that has been sent.
abbrev pub behind : ClientInfo → Stream → Bytes → List Action → Application
behind info input command older =
    waiting (record info { user_command = command; shell_output = [] }) input
      (write command ∷ output (output_command (record info { user_command = command })) ∷ older)

pub send_command-answer :
    (cs : List Completion) (rest line : Bytes) (app : Application)
    → run (write_done ∷ cs) (send_command (record { rest = rest; failed = false }, line) app)
      ≡ run cs (
          behind app.client_info
            (record { rest = rest; failed = false })
            (line ++ codes "\n")
            app.actions)
unfolding run complete handle send_command start_reading
send_command-answer cs rest line app = refl
