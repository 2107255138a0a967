-- ===== src/Http/Session.antt =====
-- The class `Session` of cgi_server.cpp: a request, and the page and the dialogues that answer it.
-- The lines that it prints on the server's console are left out.
pub mod Route
use nycu_np.Cgi.Console.{ServerInfo, generate_http_np_shell_web_console}
use nycu_np.Cgi.Panel.{generate_panel}
use nycu_np.Http.Boost.{Boost}
use nycu_np.Http.NpShell.{buffer_size}
use nycu_np.Http.Query.{parse_query_string}
use nycu_np.Prelude.{
  c_text, has, ℕ, ◌+◌, Bool, true, false, ◌&&◌, ◌||◌, not, if◌then◌else◌, ltb, List, [], ◌∷◌, ◌++◌,
  Option, none, some, Bytes, codes, length, equal,
}

-- The path and the query of a request's target.
pub record Target : Type 0 where
  pub http_url_path : Bytes
  pub http_url_query : Bytes

-- `splitter[0]` and `splitter[1]`; where there is no question mark, the query is empty.
unfoldable pub target_of : List Bytes → Option Target
target_of [] = none
target_of (path ∷ []) = some (record { http_url_path = codes "." ++ path; http_url_query = [] })
target_of (path ∷ query ∷ rest) =
    some (record { http_url_path = codes "." ++ path; http_url_query = query })

-- `httpQuery[1]`.
unfoldable pub url_of : Boost → List Bytes → Option Target
unfolding target_of
url_of b (method ∷ url ∷ rest) = target_of (b.split false (codes "?") url)
url_of b _ = none

-- `request_header[0]`.
unfoldable pub header_of : Boost → List Bytes → Option Target
unfolding url_of
header_of b (line ∷ headers) = url_of b (b.split true (codes " ") line)
header_of b [] = none

-- `handleHttpRequest` up to the call of `routeAPI`: `none` is a read behind the end of a vector.
unfoldable pub handle_http_request : Boost → Bytes → Option Target
unfolding header_of
handle_http_request b request = header_of b (b.split true (codes "\r\n") request)

-- What a session does: it writes to the client, starts the dialogue of a panel, or closes.
pub data Call : Type 0 where
  write : Bytes → Call
  start_app : ℕ → ServerInfo → Call
  close : Call

-- What the session meets: whether the two writes succeed, the names in the directory of the test
-- cases, and the text of the console page, where it can be opened.
pub record Host : Type 0 where
  pub status_written : Bool
  pub page_written : Bool
  pub test_cases : List Bytes
  pub console_html : Option Bytes

abbrev pub http200 : Bytes
http200 = codes "HTTP/1.1 200 OK\r\n"

abbrev pub is_empty : Bytes → Bool
is_empty [] = true
is_empty (c ∷ text) = false

abbrev pub is_complete : ServerInfo → Bool
is_complete info =
    not (is_empty info.host) && not (is_empty info.port) && not (is_empty info.file_name)

-- The loop over the servers, from the panel `i` on.
unfoldable pub start_apps : ℕ → List ServerInfo → List Call
start_apps i [] = []
start_apps i (info ∷ infos) =
    let later = start_apps (i + 1) infos in
    if is_complete info then start_app i info ∷ later else later

-- A write of a text that is destroyed before the write is reported: `none` where the text is gone
-- before all of it is written.
abbrev pub write_local : Boost → Bytes → Option (List Call) → Option (List Call)
write_local b text none = none
write_local b text (some calls) = if b.writes_at_once text then some (write text ∷ calls) else none

-- The page of the console, and behind it the dialogues.
unfoldable pub console : Boost → Host → Option (List ServerInfo) → Option (List Call)
unfolding start_apps
console b h none = none
console b h (some infos) =
    write_local b (generate_http_np_shell_web_console h.console_html infos)
      (some (if h.page_written then start_apps 0 infos else []))

-- `routeAPI`: `none` is a query with tokens missing, or a text that is gone before it is written.
unfoldable pub route_api : Boost → Host → Target → Option (List Call)
unfolding console parse_query_string
route_api b h target =
    let panel = write_local b (generate_panel h.test_cases) (some []) in
    let answer =
      if equal target.http_url_path (codes "./panel.cgi")
      then panel
      else if equal target.http_url_path (codes "./console.cgi")
      then console b h (parse_query_string b target.http_url_query)
      else some (close ∷ []) in
    write_local b http200 (if h.status_written then answer else some [])

abbrev pub routed : Boost → Host → Option Target → Option (List Call)
routed b h none = none
routed b h (some target) = route_api b h target

-- `start`: a read of the request, into an array that is all NUL before; `none` for the read is a
-- failure, and `none` for the calls is undefined behaviour.
unfoldable pub start : Boost → Host → Option Bytes → Option (List Call)
unfolding route_api handle_http_request c_text has
start b h none = some []
start b h (some chunk) =
    let answer = routed b h (handle_http_request b (c_text chunk)) in
    if ltb (length chunk) buffer_size || has 0 chunk then answer else none
