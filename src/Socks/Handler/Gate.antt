-- ===== src/Socks/Handler/Gate.antt =====
-- What a request leads to: the gate of the rules file, and the replies.
use nycu_np.Prelude.{
  ℕ, ◌/◌, ◌%◌, ◌^◌, ◌<◌, Bool, true, false, if◌then◌else◌, ◌==◌, List, [], ◌∷◌, ◌++◌, Option, none,
  some, Bytes, codes, to_string, All, ◌≡◌, refl, ap, ◌∙◌, Bool-cases, inl, inr, ◌⊎◌,
}
use nycu_np.Socks.Firewall.Rules.{
  Rule, IsRule, conf_text, permits, is_destination_ip_address_allowed-permits,
}
use nycu_np.Socks.Firewall.{is_destination_ip_address_allowed}
use nycu_np.Socks.Handler.{
  Network, Endpoint, State, Result, done, write_local, shutdown_local, print, connect_remote,
  relay_traffic, initialised, connect, listen_for_remote, accept_remote, reply, bind,
  handle_command, reject, decide, serve_request, handle_read, resolve_endpoint,
  log_connection_details,
}
use nycu_np.Socks.Header.Order.{store-port}
use nycu_np.Socks.Header.{Socks4Header, load, store, swap16, socks4_cmd_connect, socks4_cmd_bind}

-- The state behind the five lines that tell of the connection.
abbrev pub logged : Network → Socks4Header → Endpoint → State → State
logged net hdr ep s = record s {
  actions =
      print (
        codes "<Command>: "
        ++ (if hdr.command == socks4_cmd_connect then codes "CONNECT" else codes "BIND")
        ++ codes "\n")
      ∷ print (codes "<D_PORT>: " ++ to_string ep.port ++ codes "\n")
      ∷ print (codes "<D_IP>: " ++ net.address_text ep.address ++ codes "\n")
      ∷ print (codes "<S_PORT>: " ++ to_string net.client_port ++ codes "\n")
      ∷ print (codes "<S_IP>: " ++ net.client_address ++ codes "\n")
      ∷ s.actions;
}

-- The state behind a reject: a reply with code 91, and the end of the client's connection.
abbrev pub rejected : State → State
rejected s = record s {
  actions =
      shutdown_local
      ∷ write_local (0 ∷ 91 ∷ 0 ∷ 0 ∷ 0 ∷ 0 ∷ 0 ∷ 0 ∷ [])
      ∷ print (codes "<Reply>: Reject\n")
      ∷ s.actions;
}

-- A request whose destination is found is carried out exactly when the rules file, of lines as
-- rules are written, permits the destination: if it does, the handler goes on with the command,
-- and if it does not, it replies with a reject, ends the client's connection, and does nothing
-- else. Either way the details are printed first.
pub handle_read-permits :
    (net : Network) (buffer : Bytes) (hdr : Socks4Header) (ep : Endpoint) (rules : List Rule)
    (s : State)
    → load buffer ≡ some hdr
    → resolve_endpoint net buffer hdr s ≡ done ep s
    → net.conf ≡ some (conf_text rules)
    → All IsRule rules
    → ((permits rules (net.address_text ep.address) (hdr.command == socks4_cmd_connect) ≡ true)
        × (handle_read net buffer s ≡ handle_command net hdr.command ep (logged net hdr ep s)))
      ⊎ ((permits rules (net.address_text ep.address) (hdr.command == socks4_cmd_connect) ≡ false)
          × (handle_read net buffer s ≡ done tt (rejected (logged net hdr ep s))))
handle_read-permits net buffer hdr ep rules s loaded found file v =
    elim (Bool-cases
      (permits rules (net.address_text ep.address) (hdr.command == socks4_cmd_connect))) [
        | inl allowed ↦ inl (allowed, decided ∙ verdict true allowed ∙ unfold decide in refl)
        | inr refused ↦
            inr (refused, decided ∙ verdict false refused ∙ unfold decide reject store in refl)
      ]
  where
    answer : Option Bool
    answer =
        is_destination_ip_address_allowed net.conf (net.address_text ep.address)
          (hdr.command == socks4_cmd_connect)

    decided : handle_read net buffer s ≡ decide net hdr ep answer (logged net hdr ep s)
    decided = unfold handle_read serve_request log_connection_details in rw (loaded, found) refl

    verdict :
        (b : Bool)
        → permits rules (net.address_text ep.address) (hdr.command == socks4_cmd_connect) ≡ b
        → decide net hdr ep answer (logged net hdr ep s)
          ≡ decide net hdr ep (some b) (logged net hdr ep s)
    verdict b e =
        ap (λ a. decide net hdr ep a (logged net hdr ep s))
          (ap
              (λ c.
                is_destination_ip_address_allowed c (net.address_text ep.address)
                  (hdr.command == socks4_cmd_connect))
              file
            ∙ is_destination_ip_address_allowed-permits rules (net.address_text ep.address)
                (hdr.command == socks4_cmd_connect) v
            ∙ ap some e)

-- The eight bytes of a reply with code 90 and a port.
abbrev pub granted : ℕ → Bytes
granted port = 0 ∷ 90 ∷ port / 256 ∷ port % 256 ∷ 0 ∷ 0 ∷ 0 ∷ 0 ∷ []

-- A CONNECT that is permitted, in a process that has not replied yet: the handler connects; if
-- that succeeds, it replies that the request is granted, and if not, it replies nothing; the relay
-- is started in both cases.
pub handle_command-connect :
    (net : Network) (ep : Endpoint) (s : State)
    → s.hdr ≡ none
    → let tried = connect_remote ep ∷ print (codes "<Reply>: Accept\n") ∷ s.actions in
      (hdr : Option Socks4Header) × (handle_command net socks4_cmd_connect ep s
        ≡ done tt (record {
          hdr = hdr;
          actions =
              relay_traffic ∷ (if net.connects ep then write_local (granted 0) ∷ tried else tried);
        }))
handle_command-connect net ep s fresh = elim (Bool-cases (net.connects ep)) [
  | inl success ↦ (
    some (initialised 0 none),
    unfold handle_command connect reply in rw (success, fresh) (unfold store swap16 in refl),
  )
  | inr failure ↦ (none, unfold handle_command connect reply in rw (failure, fresh) refl)
]

-- A BIND that is permitted, in a process that has not replied yet, where the acceptor can listen
-- and accept: the handler listens, replies with the port that it listens on, accepts the remote
-- end, replies with the same bytes again, and starts the relay.
handle_command-bind :
    (net : Network) (ep : Endpoint) (s : State)
    → s.hdr ≡ none
    → net.listens ≡ true
    → net.accepts ≡ true
    → net.acceptor_port < 2 ^ 16
    → (hdr : Option Socks4Header) × (handle_command net socks4_cmd_bind ep s
        ≡ done tt (record {
          hdr = hdr;
          actions =
              relay_traffic
              ∷ write_local (granted net.acceptor_port)
              ∷ accept_remote
              ∷ write_local (granted net.acceptor_port)
              ∷ listen_for_remote
              ∷ print (codes "<Reply>: Accept\n")
              ∷ s.actions;
        }))
handle_command-bind net ep s fresh listens accepts port = (
  some (initialised net.acceptor_port none),
  unfold handle_command bind reply in
      rw (listens, fresh, accepts) (ap done_with (store-port 0 90 net.acceptor_port port)),
)
  where
    done_with : Bytes → Result (Unit {0})
    done_with b = done tt (record {
      hdr = some (initialised net.acceptor_port none);
      actions =
          relay_traffic
          ∷ write_local b
          ∷ accept_remote
          ∷ write_local b
          ∷ listen_for_remote
          ∷ print (codes "<Reply>: Accept\n")
          ∷ s.actions;
    })
