-- ===== src/Examples/Cgi.antt =====
-- Some text, and what is proved of its escaping.
use nycu_np.Cgi.Application.Dialogue.{commands, unread, unsent, prompts, run-InOrder}
use nycu_np.Cgi.Application.Transcript.{waiting, reports, transcript, onto}
use nycu_np.Cgi.Application.Transcript.Follow.{run-transcript}
use nycu_np.Cgi.Application.{Completion, read_done, read_failed, write_done, run}
use nycu_np.Cgi.Escape.{ClientInfo}
use nycu_np.Cgi.Console.{ServerInfo}
use nycu_np.Cgi.Query.Fields.{IsField, IsServer}
use nycu_np.Cgi.Query.RoundTrip.{form_query, all_kept, parse_http_query_string-form}
use nycu_np.Cgi.Query.{parse_http_query_string}
use nycu_np.Cgi.Session as Queue
use nycu_np.Cgi.Session.{Session, Event, given, System, Request}
use nycu_np.Cgi.Session.Queue.{IsOrdered, run-IsOrdered}
use nycu_np.Prelude.{
  codes, pos, ◌+◌, ◌≤◌, ◌==◌, true, false, if◌then◌else◌, List, [], ◌∷◌, ◌++◌, some, Bytes, length,
  ◌≡◌, refl, ap, sym, ◌∙◌, arith, Bool, Bool-cases, inl, inr,
}
use nycu_np.Shell.Stream.{Stream}
use nycu_np.Cgi.Escape.Safe.{IsSafe, print_escape-IsSafe}
use nycu_np.Cgi.Escape.{print_escape}

print_escape-IsSafe_example : IsSafe (print_escape (codes "it's <b>"))
print_escape-IsSafe_example = print_escape-IsSafe (codes "it's <b>")

abbrev info : ClientInfo
info = record { session_id = 0; user_command = []; shell_output = [] }

-- A test case of two lines.
abbrev test_case : Stream
test_case = record { rest = codes "ls\nexit\n"; failed = false }

-- The second prompt comes with the end of the line before it.
abbrev chunks : List Bytes
chunks = codes "% " ∷ codes "a.txt\n" ∷ codes "b.txt\n% " ∷ []

abbrev events : List Completion
events = read_done (codes "% ") ∷ write_done ∷ read_done (codes "a.txt\n") ∷ read_failed ∷ []

run-InOrder_example :
    (commands (run events (waiting info test_case [])).actions
        ++ unsent (run events (waiting info test_case [])).cgi_input
      ≡ [] ++ unsent test_case)
    × (length (commands (run events (waiting info test_case [])).actions) ≤ 0 + prompts events)
run-InOrder_example = run-InOrder events (waiting info test_case [])

run-transcript_example :
    (run (reports chunks) (waiting info test_case [])).actions
    ≡ onto (transcript 0 chunks (unread test_case)) []
run-transcript_example = run-transcript chunks info test_case []

abbrev new_session : Session
new_session = record { html_content = []; pending = 0; handed = [] }

abbrev given_two : List Event
given_two = given (codes "a") ∷ given (codes "b") ∷ Queue.write_done ∷ []

run-IsOrdered_example : IsOrdered (codes "a" ∷ codes "b" ∷ []) (Queue.run given_two new_session)
run-IsOrdered_example =
    run-IsOrdered given_two new_session []
      (record { one_write = omega arith; none_left = λ e. refl; in_order = refl })

abbrev extend : Bytes → List Bytes → List Bytes
extend c [] = c ∷ []
extend c (part ∷ parts) = (c ++ part) ∷ parts

-- A function that splits at the question marks.
abbrev split : Bytes → List Bytes
split [] = [] ∷ []
split (c ∷ cs) = let rest = split cs in if c == b'?' then [] ∷ rest else extend (c ∷ []) rest

abbrev system : System
system = record { fork_pid = pos 0; opens = true; sends = true; executes = true }

abbrev request : Request
request = record {
  target = codes "/c?h";
  target_text = codes "/c?h";
  host_text = codes "nycu";
  method = codes "GET";
  version = 11;
  server_addr = codes "10.0.0.2";
  server_port = 80;
  remote_addr = codes "10.0.0.1";
  remote_port = 5000;
}

abbrev servers : List ServerInfo
servers =
    record { host = codes "nplinux1"; port = codes "7001"; file_name = codes "t1.txt" }
    ∷ record { host = []; port = []; file_name = [] }
    ∷ record { host = codes "nplinux2"; port = codes "7002"; file_name = codes "t2.txt" }
    ∷ []

abbrev proxy : ServerInfo
proxy = record { host = codes "nplinux3"; port = codes "1080"; file_name = [] }

-- No byte of the text is `&`.
abbrev all_other : Bytes → Bool
all_other [] = true
all_other (c ∷ text) = let rest = all_other text in if c == b'&' then false else rest

all_fields : (text : Bytes) → all_other text ≡ true → IsField text
all_fields [] h = tt
all_fields (c ∷ text) h = elim (Bool-cases (c == b'&')) [
  | inl mark ↦ let found = ap (λ b. if b then false else all_other text) (sym mark) ∙ h in absurd cc
  | inr other ↦
      (other, all_fields text (ap (λ b. if b then false else all_other text) (sym other) ∙ h))
]

is_server :
    (info : ServerInfo)
    → all_other info.host ≡ true
    → all_other info.port ≡ true
    → all_other info.file_name ≡ true
    → IsServer info
is_server info h p f = record {
  host_field = all_fields info.host h;
  port_field = all_fields info.port p;
  file_field = all_fields info.file_name f;
}

parse_http_query_string-form_example :
    parse_http_query_string (some (form_query 0 servers proxy))
    ≡ some (all_kept servers ++ proxy ∷ [])
parse_http_query_string-form_example =
    parse_http_query_string-form servers proxy (omega arith)
      (is_server _ refl refl refl, (is_server _ refl refl refl, (is_server _ refl refl refl, tt)))
      (is_server proxy refl refl refl) refl
