-- ===== src/Cgi/Application/Transcript.antt =====
-- A dialogue whose writes all succeed, as a function of the outputs of the shell and the lines of
-- the test case.
pub mod Steps
pub mod Follow
use nycu_np.Cgi.Application.Dialogue.{lines, lines-line_of, unread}
use nycu_np.Cgi.Application.{
  Application, Action, write, shutdown_send, output, nothing, reading, Completion, read_done,
  write_done, has_prompt, start_reading, show_output, send_command, handle_output, handle, complete,
  run,
}
use nycu_np.Cgi.Escape.{ClientInfo, output_shell, output_command}
use nycu_np.Prelude.{
  ℕ, Bool, true, false, if◌then◌else◌, List, [], ◌∷◌, ◌++◌, Bytes, codes, ◌≡◌, refl, sym, ap, ap₂,
  ◌∙◌, Bool-cases, inl, inr, if_true, if_false,
}
use nycu_np.Shell.Stream.{Stream, get_line, take_line, line_of, after_line}

-- The script that puts an output, or a command, on the page of a session.
abbrev pub shown_output : ℕ → Bytes → Action
shown_output id chunk =
    output (output_shell (record { session_id = id; user_command = []; shell_output = chunk }))

abbrev pub shown_command : ℕ → Bytes → Action
shown_command id command =
    output (output_command (record { session_id = id; user_command = command; shell_output = [] }))

-- What is done for the outputs and the lines, the first action first: each output is shown, and
-- each that has a prompt is answered by the next line, which is shown and sent, or by the end of
-- the connection where no line is left, after which nothing is done.
pub transcript : ℕ → List Bytes → List Bytes → List Action
transcript id [] ls = []
transcript id (chunk ∷ chunks) [] =
    let more = transcript id chunks [] in
    shown_output id chunk ∷ (if has_prompt chunk then shutdown_send ∷ [] else more)
transcript id (chunk ∷ chunks) (l ∷ ls) =
    let command = l ++ codes "\n" in
    let answered = transcript id chunks ls in
    let more = transcript id chunks (l ∷ ls) in
    shown_output id chunk
    ∷ (if has_prompt chunk then shown_command id command ∷ write command ∷ answered else more)

-- What asio reports in such a dialogue.
pub reports : List Bytes → List Completion
reports [] = []
reports (chunk ∷ chunks) =
    let more = reports chunks in
    read_done chunk ∷ (if has_prompt chunk then write_done ∷ more else more)

-- The actions on top of the older ones.
abbrev pub onto : List Action → List Action → List Action
onto [] older = older
onto (a ∷ actions) older = onto actions (a ∷ older)

abbrev pub waiting : ClientInfo → Stream → List Action → Application
waiting info input actions = record {
  client_info = info;
  cgi_input = input;
  pending = reading;
  actions = actions;
}
