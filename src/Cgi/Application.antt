-- ===== src/Cgi/Application.antt =====
-- 312552017_np_project4/cgiserver/cgi_application.cpp: the connection through the proxy, and the
-- dialogue with a remote shell. What asio reports of a socket is a completion, an input of the
-- model.
pub mod Dialogue
pub mod Transcript
pub mod Proxy
use nycu_np.Cgi.Console.{ServerInfo}
use nycu_np.Cgi.Escape.{ClientInfo, output_shell, output_command}
use nycu_np.Prelude.{
  ℕ, Bool, true, false, ◌&&◌, ◌||◌, if◌then◌else◌, ◌==◌, List, [], ◌∷◌, ◌++◌, Option, none, some,
  Bytes, codes,
}
use nycu_np.Shell.Stream.{Stream, get_line}
use nycu_np.Socks.Handler.{Endpoint}
use nycu_np.Socks.Header.{Socks4Header, load, swap16, swap32, store, socks4_reply_granted}

-- What the application does to its socket and to its output. The `write` of a command is the text
-- that `async_write_some` is given, of which the socket may take a part.
pub data Action : Type 0 where
  connect_to : Endpoint → Action
  write : Bytes → Action
  read_reply : Action
  shutdown_send : Action
  output : Bytes → Action

-- The operation on the socket that has been started and not reported yet.
pub data Pending : Type 0 where
  nothing reading writing : Pending

-- The actions are the newest first.
pub record Application : Type 0 where
  pub client_info : ClientInfo
  pub cgi_input : Stream
  pub pending : Pending
  pub actions : List Action

-- What asio reports. A read until the delimiter reports all that the buffer holds then. The handler
-- of a write does not look at the number of bytes that the socket has taken.
pub data Completion : Type 0 where
  read_done : Bytes → Completion
  read_failed : Completion
  write_done : Completion
  write_failed : Completion

abbrev pub act : Action → Application → Application
act a app = record app { actions = a ∷ app.actions }

-- `shellOutput.find("% ") != npos`.
abbrev pub starts_with_prompt : Bytes → Bool
starts_with_prompt (c ∷ d ∷ rest) = c == b'%' && d == b' '
starts_with_prompt _ = false

unfoldable pub has_prompt : Bytes → Bool
has_prompt [] = false
has_prompt (c ∷ cs) = starts_with_prompt (c ∷ cs) || has_prompt cs

-- `handleShellInteraction`: the output of the shell is cleared and a read is started.
unfoldable pub start_reading : Application → Application
start_reading app = record app {
  client_info = record app.client_info { shell_output = [] };
  pending = reading;
}

-- The next line of the test case, or the end of it.
unfoldable pub send_command : Stream × Bytes → Application → Application
unfolding output_command
send_command (input, line) app =
    let command = line ++ codes "\n" in
    let info = record app.client_info { user_command = command } in
    if input.failed
    then act shutdown_send (record app {
      client_info = record app.client_info { user_command = line };
      cgi_input = input;
      pending = nothing;
    })
    else act (write command) (
        act (output (output_command info))
          (record app { client_info = info; cgi_input = input; pending = writing }))

-- The output of the shell, put on the page.
unfoldable pub show_output : Bytes → Application → Application
unfolding output_shell
show_output chunk app =
    let info = record app.client_info { shell_output = chunk } in
    act (output (output_shell info)) (record app { client_info = info; pending = nothing })

-- The handler of a read that succeeds.
unfoldable pub handle_output : Bytes → Application → Application
unfolding send_command start_reading has_prompt show_output get_line
handle_output chunk app =
    let shown = show_output chunk app in
    if has_prompt chunk then send_command (get_line app.cgi_input) shown else start_reading shown

-- The handler of what was started. A report that nothing was started for does not come.
unfoldable pub handle : Pending → Completion → Application → Application
unfolding handle_output start_reading
handle reading (read_done chunk) app = handle_output chunk app
handle reading read_failed app = record app { pending = nothing }
handle writing write_done app = start_reading app
handle writing write_failed app = record app { pending = nothing }
handle _ _ app = app

unfoldable pub complete : Completion → Application → Application
unfolding handle
complete c app = handle app.pending c app

unfoldable pub run : List Completion → Application → Application
unfolding complete
run [] app = app
run (c ∷ cs) app = run cs (complete c app)

-- `resolver.async_resolve` and `async_connect` of `run`; a failure of either ends the dialogue
-- before it starts.
unfoldable pub start_session : ℕ → Option Endpoint → Bool → Application → Application
unfolding start_reading
start_session session_id none connected app = record app {
  client_info = record app.client_info { session_id = session_id };
}
start_session session_id (some ep) connected app =
    let tried =
      act (connect_to ep)
        (record app { client_info = record app.client_info { session_id = session_id } }) in
    let started = start_reading tried in if connected then started else tried

-- The request of `connectProxy`: the header of a CONNECT to the endpoint, and a user id with its
-- NUL.
abbrev pub request_header : Endpoint → Socks4Header
request_header ep = record {
  version = 4;
  command = 1;
  dstport = swap16 ep.port;
  dstaddr = swap32 ep.address;
}

unfoldable pub socks4_request : Endpoint → Bytes
unfolding store swap16 swap32
socks4_request ep = store (request_header ep) ++ codes "MEOW" ++ 0 ∷ []

-- `hdr.command == SOCKS4_REPLY_GRANTED` of the array that the reply was read into, which has more
-- than eight bytes.
unfoldable pub is_granted : Option Socks4Header → Bool
is_granted none = false
is_granted (some hdr) = hdr.command == socks4_reply_granted

-- `connectProxy`: `none` is an exception of the resolver or of the connection to the proxy.
unfoldable pub connect_proxy :
    ℕ → Option Endpoint → Bool → Endpoint → Bytes → Application → Option Application
unfolding socks4_request is_granted load start_reading
connect_proxy session_id none connected proxy reply app = none
connect_proxy session_id (some ep) false proxy reply app = none
connect_proxy session_id (some ep) true proxy reply app =
    let asked = act read_reply (
      act (write (socks4_request ep)) (
        act (connect_to proxy)
          (record app { client_info = record app.client_info { session_id = session_id } }))) in
    let started = start_reading asked in some (if is_granted (load reply) then started else asked)
