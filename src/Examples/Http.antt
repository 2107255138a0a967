-- ===== src/Examples/Http.antt =====
-- What is proved of the HTTP server of project 3, at concrete texts, with functions that do what
-- Boost documents.
use nycu_np.Cgi.Console.{ServerInfo}
use nycu_np.Http.Boost.{Boost, substitute, is_any_of, IsApart, Replaces, Splits}
use nycu_np.Cgi.Query.Fields.{IsServer}
use nycu_np.Http.Escape.{cgi_html_escape}
use nycu_np.Http.Escape.Table.{each, entity, is_inert, cgi_html_escape-each}
use nycu_np.Http.Query.{parse_query_string}
use nycu_np.Http.Query.Form.{form_query, parse_query_string-form}
use nycu_np.Http.Query.Bounds.{Fits, parse_query_string-Fits}
use nycu_np.Http.NpShell.{
  NpShellApp, np_shell_app, Completion, read_done, write_done, run, start as start_app,
}
use nycu_np.Http.NpShell.Dialogue
use nycu_np.Http.NpShell.Exit.{NoneBehindExit, run-NoneBehindExit}
use nycu_np.Http.Session.{Host, start, handle_http_request}
use nycu_np.Http.Session.Route.{Request, handle_http_request-no_space}
use nycu_np.Prelude.{
  ℕ, Bool, true, false, ◌&&◌, if◌then◌else◌, List, [], ◌∷◌, ◌++◌, Option, none, some, Bytes, codes,
  All, ◌≡◌, refl, arith,
}

-- `replace_all` for a search text of one byte, the only use here.
replace_one : Bytes → Bytes → Bytes → Bytes
replace_one text (c ∷ []) by = substitute c by text
replace_one text _ by = text

on_first : ℕ → List Bytes → List Bytes
on_first c [] = (c ∷ []) ∷ []
on_first c (w ∷ ws) = (c ∷ w) ∷ ws

starts_with : Bytes → Bytes → Bool
starts_with set [] = false
starts_with set (c ∷ cs) = is_any_of set c

-- The parts between the separators; a separator in front of another one counts for nothing under
-- compression.
split_at : Bool → Bytes → Bytes → List Bytes
split_at on set [] = [] ∷ []
split_at on set (c ∷ cs) =
    let rest = split_at on set cs in
    if is_any_of set c
    then (if on && starts_with set cs then rest else [] ∷ rest)
    else on_first c rest

abbrev boost : Boost
boost = record { replace_all = replace_one; split = split_at; writes_at_once = λ text. true }

boost-Replaces : Replaces boost
unfolding replace_one
boost-Replaces c by text = refl

module _ (on : Bool) (set : Bytes) where
  last_part : (a : Bytes) → IsApart set a → split_at on set a ≡ a ∷ []
  unfolding split_at on_first
  last_part [] h = refl
  last_part (c ∷ a) h = rw (h.0, last_part a h.1) refl

  more_parts :
      (a : Bytes) (c : ℕ) (rest : Bytes)
      → IsApart set a
      → is_any_of set c ≡ true
      → (on && starts_with set rest) ≡ false
      → split_at on set (a ++ c ∷ rest) ≡ a ∷ split_at on set rest
  unfolding split_at on_first
  more_parts [] c rest h k l = rw (k, l) refl
  more_parts (d ∷ a) c rest h k l = rw (h.0, more_parts a c rest h.1 k l) refl

same_token :
    (set a : Bytes) (c d : ℕ) (rest : Bytes)
    → IsApart set a
    → is_any_of set c ≡ true
    → is_any_of set d ≡ true
    → split_at true set (a ++ c ∷ d ∷ rest) ≡ split_at true set (a ++ d ∷ rest)
unfolding split_at starts_with
same_token set [] c d rest h k l = rw (k, l) refl
same_token set (e ∷ a) c d rest h k l = rw (h.0, same_token set a c d rest h.1 k l) refl

boost-Splits : Splits boost
unfolding starts_with
boost-Splits = record {
  last_part = last_part;
  more_parts = λ set a c rest h k. more_parts false set a c rest h k refl;
  more_tokens = λ set a c d rest h k l. more_parts true set a c (d ∷ rest) h k l;
  same_token = same_token;
}

cgi_html_escape-each_example :
    (cgi_html_escape boost (codes "a<b & 'c'") ≡ each entity (codes "a<b & 'c'"))
    × All (λ c. is_inert c ≡ true) (cgi_html_escape boost (codes "a<b & 'c'"))
cgi_html_escape-each_example = cgi_html_escape-each boost (codes "a<b & 'c'") boost-Replaces

abbrev first : ServerInfo
first = record { host = codes "nplinux1"; port = codes "8888"; file_name = codes "t1.txt" }

abbrev second : ServerInfo
second = record { host = codes "nplinux2"; port = []; file_name = codes "t2.txt" }

first-IsServer : IsServer first
first-IsServer = record {
  host_field = ground arith;
  port_field = ground arith;
  file_field = ground arith;
}

second-IsServer : IsServer second
second-IsServer = record { host_field = ground arith; port_field = tt; file_field = ground arith }

parse_query_string-form_example :
    parse_query_string boost (form_query first (second ∷ [])) ≡ some (first ∷ second ∷ [])
parse_query_string-form_example =
    parse_query_string-form boost first (second ∷ []) boost-Splits (omega arith) first-IsServer
      (second-IsServer, tt)

parse_query_string-Fits_example :
    Fits
      (boost.split true (codes "&") (codes "h0=a&p0=1"))
      (parse_query_string boost (codes "h0=a&p0=1"))
parse_query_string-Fits_example = parse_query_string-Fits boost (codes "h0=a&p0=1")

-- Two lines; the second one ends the shell.
abbrev app : NpShellApp
app = np_shell_app (some (codes "ls\nexit\n")) 0

abbrev reports : List Completion
reports =
    read_done (codes "** Welcome **\n% ")
    ∷ write_done
    ∷ read_done (codes "bin\n% ")
    ∷ write_done
    ∷ []

abbrev or_app : Option NpShellApp → NpShellApp
or_app none = app
or_app (some a) = a

abbrev reached : NpShellApp
reached = or_app (run boost reports (start_app true true app))

run-NoneBehindExit_example : NoneBehindExit reached.actions
unfolding run start_app replace_one
run-NoneBehindExit_example =
    run-NoneBehindExit boost (some (codes "ls\nexit\n")) 0 true true reports reached refl

abbrev request : Request
request = record {
  method = codes "GET";
  path = codes "console.cgi";
  query = form_query first (second ∷ []);
  version_head = b'H';
  version = codes "TTP/1.1";
  header_head = b'H';
  headers = codes "ost: localhost\r\n\r\n";
}

abbrev host : Host
host = record {
  status_written = true;
  page_written = true;
  test_cases = codes "t1.txt" ∷ codes "t2.txt" ∷ [];
  console_html = none;
}

handle_http_request-no_space_example :
    handle_http_request boost (codes "GET\r\nHost: localhost") ≡ none
handle_http_request-no_space_example =
    handle_http_request-no_space boost (codes "GET") b'H' (codes "ost: localhost") boost-Splits
      (ground arith) refl
