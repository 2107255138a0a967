-- ===== src/Socks/Handler.antt =====
-- `Socks4Handler` of socks4_handler.cpp: one request, from the bytes read to the start of the
-- relay. The network, through asio, is a parameter.
pub mod Gate
use nycu_np.Prelude.{
  ℕ, zero, suc, ◌+◌, Bool, true, false, if◌then◌else◌, ◌==◌, List, [], ◌∷◌, ◌++◌, Option, none,
  some, Bytes, codes, drop, length, to_string,
}
use nycu_np.Socks.Firewall.{is_destination_ip_address_allowed}
use nycu_np.Socks.Header.{
  Socks4Header, load, store, swap16, swap32, socks4_version, socks4_cmd_connect, socks4_cmd_bind,
  socks4_reply_granted, socks4_reply_rejected,
}
use nycu_np.Socks.Regex.{Part, one, opt, lit, range, regex_match}

pub record Endpoint : Type 0 where
  pub address : ℕ
  pub port : ℕ

-- What the handler does to its sockets. The acceptor is bound to a port of the system's choice.
pub data Action : Type 0 where
  write_local : Bytes → Action
  shutdown_local : Action
  connect_remote : Endpoint → Action
  listen_for_remote : Action
  accept_remote : Action
  relay_traffic : Action
  print : Bytes → Action

-- What the network and the system answer: the text of an address, the first endpoint of a name
-- and a port, whether a connection succeeds, whether the acceptor can listen and accept, its port,
-- and the rules file. `none` for a name is an exception.
pub record Network : Type 0 where
  pub address_text : ℕ → Bytes
  pub resolve : Bytes → Bytes → Option Endpoint
  pub connects : Endpoint → Bool
  pub listens : Bool
  pub accepts : Bool
  pub acceptor_port : ℕ
  pub conf : Option Bytes
  pub client_address : Bytes
  pub client_port : ℕ

-- `hdr` is the static variable of `reply`, which the process keeps from its first call on; the
-- actions are the newest first.
pub record State : Type 0 where
  pub hdr : Option Socks4Header
  pub actions : List Action

-- `beyond` is a rule that does not convert to a pattern that is modelled; `fault` is a string that
-- goes on past the end of the buffer.
pub data Result (A : Type 0) : Type 0 where
  done : A → State → Result A
  thrown : State → Result A
  beyond : Result A
  fault : Result A

abbrev pub Step : Type 0 → Type 0
Step A = State → Result A

abbrev pub then_do : {A B : Type 0} → Result A → (A → Step B) → Result B
then_do (done a s) f = f a s
then_do (thrown s) f = thrown s
then_do beyond f = beyond
then_do fault f = fault

infixl 5 ◌>>=◌ ◌>>◌
abbrev ◌>>=◌ : {A B : Type 0} → Step A → (A → Step B) → Step B
◌>>=◌ m f s = then_do (m s) f

abbrev ◌>>◌ : {B : Type 0} → Step (Unit {0}) → Step B → Step B
m >> k = m >>= λ _. k

abbrev pub act : Action → Step (Unit {0})
act a s = done tt (record s { actions = a ∷ s.actions })

abbrev pub throw_unless : Bool → Step (Unit {0})
throw_unless ok s = if ok then done tt s else thrown s

-- `static Socks4Header hdr{...}` is initialised by the first call.
abbrev pub initialised : ℕ → Option Socks4Header → Socks4Header
initialised port none = record {
  version = socks4_version;
  command = socks4_reply_granted;
  dstport = swap16 port;
  dstaddr = 0;
}
initialised port (some hdr) = hdr

unfoldable pub reply : ℕ → Step (Unit {0})
reply port s =
    let hdr = initialised port s.hdr in
    done tt (record { hdr = some hdr; actions = write_local (store hdr) ∷ s.actions })

unfoldable pub connect : Network → Endpoint → Step (Unit {0})
unfolding reply
connect net ep = do act (connect_remote ep); if net.connects ep then reply 0 else (λ s. done tt s)

unfoldable pub bind : Network → Step (Unit {0})
unfolding reply
bind net = do
  throw_unless net.listens
  act listen_for_remote
  reply net.acceptor_port
  throw_unless net.accepts
  act accept_remote
  reply net.acceptor_port

unfoldable pub handle_command : Network → ℕ → Endpoint → Step (Unit {0})
unfolding connect bind
handle_command net command ep = do
  act (print (codes "<Reply>: Accept\n"))
  if command == socks4_cmd_connect
      then (do connect net ep; act relay_traffic)
      else if command == socks4_cmd_bind
      then (do bind net; act relay_traffic)
      else (λ s. done tt s)

-- `std::string(const char*)` of the bytes from a place of the buffer on; `none` where they have no
-- NUL.
unfoldable pub c_string : Bytes → Option Bytes
c_string [] = none
c_string (c ∷ cs) = let rest = c_string cs in if c == 0 then some [] else before c rest
  where
    before : ℕ → Option Bytes → Option Bytes
    before c none = none
    before c (some s) = some (c ∷ s)

-- `0\.0\.0\.[1-9][0-9]{0,2}`.
abbrev pub socks4a : List Part
socks4a =
    one (lit b'0')
    ∷ one (lit b'.')
    ∷ one (lit b'0')
    ∷ one (lit b'.')
    ∷ one (lit b'0')
    ∷ one (lit b'.')
    ∷ one (range b'1' b'9')
    ∷ opt (range b'0' b'9')
    ∷ opt (range b'0' b'9')
    ∷ []

abbrev pub resolved : Option Endpoint → Step Endpoint
resolved none s = thrown s
resolved (some ep) s = done ep s

-- The name stands behind the header, the user id and its NUL.
resolve_name : Network → ℕ → Bytes → Option Bytes → Step Endpoint
unfolding c_string
resolve_name net port buffer none = λ s. fault
resolve_name net port buffer (some userid) =
    look_up (c_string (drop (8 + length userid + 1) buffer))
  where
    look_up : Option Bytes → Step Endpoint
    look_up none = λ s. fault
    look_up (some domain_name) = resolved (net.resolve domain_name (to_string port))

unfoldable pub resolve_endpoint : Network → Bytes → Socks4Header → Step Endpoint
unfolding resolve_name c_string regex_match swap16 swap32
resolve_endpoint net buffer hdr =
    let address = swap32 hdr.dstaddr in
    let port = swap16 hdr.dstport in
    if regex_match socks4a (net.address_text address)
    then resolve_name net port buffer (c_string (drop 8 buffer))
    else (λ s. done (record { address = address; port = port }) s)

log_connection_details : Network → Socks4Header → Endpoint → Step (Unit {0})
log_connection_details net hdr ep = do
  act (print (codes "<S_IP>: " ++ net.client_address ++ codes "\n"))
  act (print (codes "<S_PORT>: " ++ to_string net.client_port ++ codes "\n"))
  act (print (codes "<D_IP>: " ++ net.address_text ep.address ++ codes "\n"))
  act (print (codes "<D_PORT>: " ++ to_string ep.port ++ codes "\n"))
  act (
      print (
        codes "<Command>: "
        ++ (if hdr.command == socks4_cmd_connect then codes "CONNECT" else codes "BIND")
        ++ codes "\n"))

unfoldable pub reject : Step (Unit {0})
reject = do
  act (print (codes "<Reply>: Reject\n"))
  act (
      write_local
        (store (record { version = 0; command = socks4_reply_rejected; dstport = 0; dstaddr = 0 })))
  act shutdown_local

decide : Network → Socks4Header → Endpoint → Option Bool → Step (Unit {0})
unfolding handle_command reject
decide net hdr ep none = λ s. beyond
decide net hdr ep (some true) = handle_command net hdr.command ep
decide net hdr ep (some false) = reject

serve_request : Network → Bytes → Option Socks4Header → Step (Unit {0})
unfolding resolve_endpoint log_connection_details is_destination_ip_address_allowed decide
serve_request net buffer none = λ s. fault
serve_request net buffer (some hdr) = do
  ep ← resolve_endpoint net buffer hdr
  log_connection_details net hdr ep
  decide net hdr ep (
      is_destination_ip_address_allowed net.conf (net.address_text ep.address)
        (hdr.command == socks4_cmd_connect))

-- The buffer is the array after `read_some`: what is not overwritten is what was there before.
unfoldable pub handle_read : Network → Bytes → Step (Unit {0})
unfolding serve_request load
handle_read net buffer = serve_request net buffer (load buffer)
