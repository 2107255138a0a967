-- ===== src/Cgi/Application/Transcript/Follow.antt =====
-- The dialogue does what the transcript says.
use nycu_np.Cgi.Application.Dialogue.{lines, lines-line_of, unread}
use nycu_np.Cgi.Application.{
  Application, Action, write, shutdown_send, write_done, has_prompt, start_reading, show_output,
  send_command, run,
}
use nycu_np.Cgi.Escape.{ClientInfo}
use nycu_np.Prelude.{
  Bool, true, false, List, [], ◌∷◌, ◌++◌, Bytes, codes, ◌≡◌, refl, sym, ap, ap₂, ◌∙◌, Bool-cases,
  inl, inr,
}
use nycu_np.Shell.Stream.{Stream, get_line, take_line, line_of, after_line}
use nycu_np.Cgi.Application.Transcript.{
  shown_output, shown_command, transcript, reports, onto, waiting,
}
use nycu_np.Cgi.Application.Transcript.Steps.{
  shown, run-idle, run_prompt, run_more, transcript-more, transcript-end, transcript-answer,
  same_output, same_command, send_command-end, send_command-answer,
}

abbrev Follows : List Bytes → ClientInfo → Stream → List Action → Type 0
Follows chunks info input older =
    (run (reports chunks) (waiting info input older)).actions
    ≡ onto (transcript info.session_id chunks (unread input)) older

module _ (chunk : Bytes) (chunks : List Bytes) (info : ClientInfo) (older : List Action) where
  shown-actions :
      (input : Stream)
      → (shown chunk chunks info input older).actions ≡ shown_output info.session_id chunk ∷ older
  unfolding show_output
  shown-actions input = ap (λ a. a ∷ older) (same_output info chunk)

  ended :
      (input : Stream)
      → has_prompt chunk ≡ true
      → (get_line input).0.failed ≡ true
      → (run (reports (chunk ∷ chunks)) (waiting info input older)).actions
        ≡ shutdown_send ∷ shown_output info.session_id chunk ∷ older
  ended input prompt ends =
      let app = shown chunk chunks info input older in
      let (idle, done) = send_command-end (get_line input) app ends in
      ap (λ a. a.actions)
        (run_prompt chunk chunks info input older prompt
          ∙ run-idle (write_done ∷ reports chunks) (send_command (get_line input) app) idle)
      ∙ done
      ∙ ap (◌∷◌ shutdown_send) (shown-actions input)

  answered :
      (rest line : Bytes) (input : Stream)
      → has_prompt chunk ≡ true
      → get_line input ≡ (record { rest = rest; failed = false }, line)
      → ((info' : ClientInfo) (input' : Stream) (older' : List Action)
          → Follows chunks info' input' older')
      → (run (reports (chunk ∷ chunks)) (waiting info input older)).actions
        ≡ onto
            (transcript info.session_id chunks (unread (record { rest = rest; failed = false })))
            (write (line ++ codes "\n")
              ∷ shown_command info.session_id (line ++ codes "\n")
              ∷ shown_output info.session_id chunk
              ∷ older)
  unfolding show_output
  answered rest line input prompt read next =
      let app = shown chunk chunks info input older in
      ap (λ (a : Application). a.actions)
        (run_prompt chunk chunks info input older prompt
          ∙ ap (λ r. run (write_done ∷ reports chunks) (send_command r app)) read
          ∙ send_command-answer (reports chunks) rest line app)
      ∙ next _ _ _
      ∙ ap₂
          (λ c o.
            onto
              (transcript info.session_id chunks (unread (record { rest = rest; failed = false })))
              (write (line ++ codes "\n") ∷ c ∷ o))
          (same_command app.client_info (line ++ codes "\n")) (shown-actions input)

  prompted :
      (rest : Bytes) (failed : Bool)
      → has_prompt chunk ≡ true
      → ((info' : ClientInfo) (input' : Stream) (older' : List Action)
          → Follows chunks info' input' older')
      → Follows (chunk ∷ chunks) info (record { rest = rest; failed = failed }) older
  unfolding get_line take_line lines
  prompted rest true prompt next =
      ended (record { rest = rest; failed = true }) prompt refl
      ∙ ap (λ done. onto done older) (sym (transcript-end chunk chunks info.session_id prompt))
  prompted [] false prompt next =
      ended (record { rest = []; failed = false }) prompt refl
      ∙ ap (λ done. onto done older) (sym (transcript-end chunk chunks info.session_id prompt))
  prompted (c ∷ cs) false prompt next =
      answered (after_line (c ∷ cs)) (line_of (c ∷ cs)) (record { rest = c ∷ cs; failed = false })
        prompt refl next
      ∙ ap (λ done. onto done older)
          (sym (
            ap (transcript info.session_id (chunk ∷ chunks)) (lines-line_of c cs)
            ∙ transcript-answer chunk chunks info.session_id (line_of (c ∷ cs))
                (lines (after_line (c ∷ cs))) prompt))

-- A dialogue in which every output of the shell arrives and every command is sent, from any test
-- case and with any number of outputs, does exactly what the transcript says, in its order: every
-- output is shown; each that holds a prompt is answered by the next line of the test case, which
-- is shown and sent, or by the end of the connection where no line is left, behind which nothing
-- is done any more.
pub run-transcript :
    (chunks : List Bytes) (info : ClientInfo) (input : Stream) (older : List Action)
    → (run (reports chunks) (waiting info input older)).actions
      ≡ onto (transcript info.session_id chunks (unread input)) older
unfolding run reports transcript start_reading show_output
run-transcript [] info input older = refl
run-transcript (chunk ∷ chunks) info input older = elim (Bool-cases (has_prompt chunk)) [
  | inl prompt ↦
      prompted chunk chunks info older input.rest input.failed prompt (run-transcript chunks)
  | inr other ↦
      ap (λ app. app.actions) (run_more chunk chunks info input older other)
      ∙ run-transcript chunks _ input _
      ∙ ap (onto (transcript info.session_id chunks (unread input)))
          (shown-actions chunk chunks info older input)
      ∙ ap (λ done. onto done older)
          (sym (transcript-more chunk chunks info.session_id (unread input) other))
]
