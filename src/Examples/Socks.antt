-- ===== src/Examples/Socks.antt =====
-- A rule and some headers, and what is proved at them.
use nycu_np.Cgi.Application.Proxy.{is_started, last_written, connect_proxy-permits}
use nycu_np.Cgi.Application.{Application, nothing, socks4_request, connect_proxy}
use nycu_np.Prelude.{[], ◌∷◌, ◌++◌, some, codes, ◌≡◌, refl, arith, is_alnum, is_digit, is_alpha}
use nycu_np.Prelude.{List, none, true, false, Bytes, All, is_space, ◌⊎◌}
use nycu_np.Socks.Firewall.Rules.{
  Rule, IsRule, conf_text, permits, is_destination_ip_address_allowed-permits,
}
use nycu_np.Socks.Firewall.{is_destination_ip_address_allowed}
use nycu_np.Socks.Handler.Gate.{logged, rejected, handle_read-permits}
use nycu_np.Socks.Handler.{
  Network, Endpoint, State, done, handle_read, handle_command, resolve_endpoint,
}
use nycu_np.Socks.Header.{Socks4Header, load, swap16, swap32}
use nycu_np.Socks.Pattern.Glob.{verdict, glob, verdict-glob}
use nycu_np.Socks.Regex.{regex_match}
use nycu_np.Socks.Relay.Duplex.{on, run-taken}
use nycu_np.Socks.Relay.{Side, incoming, outgoing, Report, relayed, read_failed, run, start_relay}

verdict-glob_example :
    verdict (codes "14.*.7") (codes "14.1.20.7") ≡ some (glob (codes "14.*.7") (codes "14.1.20.7"))
unfolding is_alnum is_digit is_alpha
verdict-glob_example =
    verdict-glob (codes "14.*.7") (codes "14.1.20.7")
      (refl, (refl, (refl, (refl, (refl, (refl, tt))))))

abbrev rule : Rule
rule = record { permit = codes "permit"; type = b'c'; pattern = codes "14.*" }

rules-IsRule : All IsRule (rule ∷ [])
unfolding is_space is_alnum is_digit is_alpha
rules-IsRule = (
  record {
    has_permit = λ e. cc;
    permit_word = (refl, (refl, (refl, (refl, (refl, (refl, tt))))));
    type_byte = refl;
    has_pattern = λ e. cc;
    pattern_bytes = (refl, (refl, (refl, (refl, tt))));
  },
  tt,
)

is_destination_ip_address_allowed-permits_example :
    is_destination_ip_address_allowed (some (codes "permit c 14.*\n")) (codes "14.1.20.7") true
    ≡ some (permits (rule ∷ []) (codes "14.1.20.7") true)
is_destination_ip_address_allowed-permits_example =
    is_destination_ip_address_allowed-permits (rule ∷ []) (codes "14.1.20.7") true rules-IsRule

-- A network where every connection succeeds and the acceptor gets the port 8080.
abbrev network : Network
network = record {
  address_text = λ address. codes "14.1.20.7";
  resolve = λ domain_name port. none;
  connects = λ ep. true;
  listens = true;
  accepts = true;
  acceptor_port = 8080;
  conf = some (conf_text (rule ∷ []));
  client_address = codes "10.0.0.1";
  client_port = 5000;
}

abbrev idle : State
idle = record { hdr = none; actions = [] }

abbrev request : Bytes
request = 4 ∷ 1 ∷ 0 ∷ 80 ∷ 14 ∷ 1 ∷ 20 ∷ 7 ∷ 0 ∷ []

abbrev request_header : Socks4Header
request_header = record { version = 4; command = 1; dstport = 20480; dstaddr = 118751502 }

abbrev destination : Endpoint
destination = record { address = 234951687; port = 80 }

handle_read-permits_example :
    ((permits (rule ∷ []) (codes "14.1.20.7") true ≡ true)
      × (handle_read network request idle
          ≡ handle_command network 1 destination (logged network request_header destination idle)))
    ⊎ ((permits (rule ∷ []) (codes "14.1.20.7") true ≡ false)
        × (handle_read network request idle
            ≡ done tt (rejected (logged network request_header destination idle))))
unfolding load resolve_endpoint regex_match swap16 swap32
handle_read-permits_example =
    handle_read-permits network request request_header destination (rule ∷ []) idle refl refl refl
      rules-IsRule

-- A client without test case, whose dialogue has not started.
abbrev client : Application
client = record {
  client_info = record { session_id = 0; user_command = []; shell_output = [] };
  cgi_input = record { rest = []; failed = true };
  pending = nothing;
  actions = [];
}

connect_proxy-permits_example :
    (s' : State) × (handle_read network (socks4_request destination ++ []) idle ≡ done tt s')
    × (is_started (
          connect_proxy 0
            (some destination)
            true
            destination
            (last_written s'.actions ++ [])
            client)
        ≡ permits (rule ∷ []) (codes "14.1.20.7") true)
unfolding regex_match
connect_proxy-permits_example =
    connect_proxy-permits network destination (rule ∷ []) [] [] idle 0 destination client
      (omega arith) (omega arith) refl refl rules-IsRule refl refl refl

-- The two directions in turn; the client's end comes first.
abbrev reports : List (Side × Report)
reports =
    (outgoing, relayed (codes "GET") 3)
    ∷ (incoming, relayed (codes "200") 3)
    ∷ (outgoing, read_failed)
    ∷ (incoming, relayed (codes "OK") 2)
    ∷ []

run-taken_example : (on incoming (run reports start_relay)).taken ≡ codes "200OK"
run-taken_example = run-taken incoming reports (refl, (refl, (tt, (refl, tt))))
