-- ===== src/Http/NpShell.antt =====
-- The class `NPShellApp` of cgi_server.cpp: the dialogue with a remote shell. What asio reports of
-- the shell's socket is an input of the model; the lines that it prints on the server's console are
-- left out.
pub mod Dialogue
pub mod Exit
use nycu_np.Http.Boost.{Boost}
use nycu_np.Http.Escape.{cgi_output_shell, cgi_output_command}
use nycu_np.Prelude.{
  c_text, has, ℕ, Bool, true, false, ◌||◌, if◌then◌else◌, ltb, ◌==◌, List, [], ◌∷◌, ◌++◌, Option,
  none, some, Bytes, codes, length, strip_prefix,
}
use nycu_np.Shell.Stream.{Stream, get_line}

-- What it does to the shell's socket, and the texts that it hands to the client's.
pub data Action : Type 0 where
  connect : Action
  write : Bytes → Action
  close : Action
  respond : Bytes → Action

-- The operation on the shell's socket that has been started and not reported yet.
pub data Pending : Type 0 where
  nothing reading writing : Pending

-- The actions are the newest first; `command` is the text of the array `npShellCommand`.
pub record NpShellApp : Type 0 where
  pub np_server_input : Stream
  pub session_id : ℕ
  pub np_shell_command : Bytes
  pub pending : Pending
  pub actions : List Action

pub data Completion : Type 0 where
  read_done : Bytes → Completion
  read_failed : Completion
  write_done : Completion
  write_failed : Completion

abbrev pub buffer_size : ℕ
buffer_size = 1024

abbrev pub act : Action → NpShellApp → NpShellApp
act a app = record app { actions = a ∷ app.actions }

abbrev pub and_then : Option NpShellApp → (NpShellApp → Option NpShellApp) → Option NpShellApp
and_then none f = none
and_then (some app) f = f app

abbrev is_some : Option Bytes → Bool
is_some none = false
is_some (some rest) = true

-- `curr_cmd.find("exit") != npos`.
unfoldable pub has_exit : Bytes → Bool
has_exit [] = false
has_exit (c ∷ cs) = is_some (strip_prefix (codes "exit") (c ∷ cs)) || has_exit cs

-- `handleBackendReq`: `none` is a write of `strcpy` out of the bounds of the array.
unfoldable pub handle_backend_req : Bytes → NpShellApp → Option NpShellApp
unfolding c_text
handle_backend_req cmd app =
    let text = c_text cmd in
    if ltb (length text) buffer_size
    then some (act (write text) (record app { np_shell_command = text; pending = writing }))
    else none

-- `handleHttpResp`: the text that it writes is a temporary of its caller, which is destroyed before
-- the write is reported, so that `none` is a write of a text that is gone.
unfoldable pub handle_http_resp : Boost → Bytes → NpShellApp → Option NpShellApp
handle_http_resp b text app = if b.writes_at_once text then some (act (respond text) app) else none

-- The next line of the file, or an empty command where there is none.
unfoldable pub next_command : Boost → Stream × Bytes → NpShellApp → Option NpShellApp
unfolding handle_backend_req handle_http_resp cgi_output_command
next_command b (input, line) app =
    let command = line ++ codes "\n" in
    if input.failed
    then handle_backend_req [] (record app { np_server_input = input })
    else and_then
        (handle_http_resp b (cgi_output_command b command app.session_id)
          (record app { np_server_input = input }))
        (handle_backend_req command)

-- The output is handed to the client, and both arrays are cleared.
unfoldable pub show_output : Boost → Bytes → NpShellApp → Option NpShellApp
unfolding cgi_output_shell handle_http_resp
show_output b output app =
    handle_http_resp b (cgi_output_shell b output app.session_id)
      (record app { np_shell_command = []; pending = nothing })

-- A prompt is answered by the next command; without one, more is read.
unfoldable pub answer : Boost → Bytes → NpShellApp → Option NpShellApp
unfolding next_command has get_line
answer b output app =
    if has b'%' output
    then next_command b (get_line app.np_server_input) app
    else some (record app { pending = reading })

-- The handler of a read into the array `npShellOutput`, which is all NUL before: `none` is a read
-- of its text past its end, too.
unfoldable pub handle_output : Boost → Bytes → NpShellApp → Option NpShellApp
unfolding answer show_output c_text has
handle_output b chunk app =
    let output = c_text chunk in
    let answered = and_then (show_output b output app) (answer b output) in
    if ltb (length chunk) buffer_size || has 0 chunk then answered else none

-- The handler of a write.
unfoldable pub handle_written : NpShellApp → NpShellApp
unfolding has_exit
handle_written app =
    if has_exit app.np_shell_command
    then act close (record app { pending = nothing })
    else record app { pending = reading }

-- The handler of what was started. A report that nothing was started for does not come.
unfoldable pub handle : Boost → Pending → Completion → NpShellApp → Option NpShellApp
unfolding handle_output handle_written
handle b reading (read_done chunk) app = handle_output b chunk app
handle b reading read_failed app = some (record app { pending = nothing })
handle b writing write_done app = some (handle_written app)
handle b writing write_failed app = some (record app { pending = nothing })
handle b _ _ app = some app

unfoldable pub run : Boost → List Completion → NpShellApp → Option NpShellApp
unfolding handle
run b [] app = some app
run b (c ∷ cs) app = and_then (handle b app.pending c app) (run b cs)

-- A file that cannot be opened is a stream that has failed.
abbrev pub opened : Option Bytes → Stream
opened none = record { rest = []; failed = true }
opened (some text) = record { rest = text; failed = false }

-- The constructor, with the text of the file of the test case.
abbrev pub np_shell_app : Option Bytes → ℕ → NpShellApp
np_shell_app file sid = record {
  np_server_input = opened file;
  session_id = sid;
  np_shell_command = [];
  pending = nothing;
  actions = [];
}

-- `start`, with what the resolver and the connection report: a failure of either is the end of it.
unfoldable pub start : Bool → Bool → NpShellApp → NpShellApp
start resolved connected app =
    let tried = act connect app in
    if resolved then (if connected then record tried { pending = reading } else tried) else app
