-- ===== src/Cgi/Application/Proxy.antt =====
-- The application and the SOCKS 4 server at the two ends of one connection.
use nycu_np.Cgi.Application.{
  Application, nothing, reading, request_header, socks4_request, connect_proxy,
}
use nycu_np.Prelude.{
  ℕ, ◌<◌, ◌^◌, Bool, true, false, if◌then◌else◌, if_false, List, [], ◌∷◌, ◌++◌, All, Option, none,
  some, Bytes, codes, ◌≡◌, refl, sym, ap, ap₂, ◌∙◌, arith, inl, inr,
}
use nycu_np.Socks.Firewall.Rules.{Rule, IsRule, conf_text, permits}
use nycu_np.Socks.Handler.Gate.{
  logged, rejected, granted, handle_read-permits, handle_command-connect,
}
use nycu_np.Socks.Handler.{
  Network, Endpoint, State, Step, done, Action, write_local, connect_remote, print, socks4a,
  resolve_endpoint, handle_read,
}
use nycu_np.Socks.Header.Order.{load-store}
use nycu_np.Socks.Header.{Socks4Header, load, swap16, swap32}
use nycu_np.Socks.Regex.{regex_match}

swap16_lt : (n : ℕ) → swap16 n < 2 ^ 16
unfolding swap16
swap16_lt n = omega arith

swap32_lt : (n : ℕ) → swap32 n < 2 ^ 32
unfolding swap32
swap32_lt n = omega arith

swap16-swap16 : (n : ℕ) → n < 2 ^ 16 → swap16 (swap16 n) ≡ n
unfolding swap16
swap16-swap16 n h = omega arith

swap32-swap32 : (n : ℕ) → n < 2 ^ 32 → swap32 (swap32 n) ≡ n
unfolding swap32
swap32-swap32 n h = omega arith

load-socks4_request :
    (ep : Endpoint) (old : Bytes) → load (socks4_request ep ++ old) ≡ some (request_header ep)
unfolding socks4_request
load-socks4_request ep old =
    load-store (request_header ep) (codes "MEOW" ++ 0 ∷ old) (swap16_lt ep.port)
      (swap32_lt ep.address)

resolve_endpoint_plain :
    (net : Network) (buffer : Bytes) (hdr : Socks4Header) (s : State)
    → regex_match socks4a (net.address_text (swap32 hdr.dstaddr)) ≡ false
    → resolve_endpoint net buffer hdr s
      ≡ done (record { address = swap32 hdr.dstaddr; port = swap16 hdr.dstport }) s
unfolding resolve_endpoint
resolve_endpoint_plain net buffer hdr s plain =
    ap (λ (m : Step Endpoint). m s) (if_false _ _ _ plain)

-- The server finds the endpoint that the client has asked for.
resolve_endpoint-socks4_request :
    (net : Network) (ep : Endpoint) (old : Bytes) (s : State)
    → ep.port < 2 ^ 16
    → ep.address < 2 ^ 32
    → regex_match socks4a (net.address_text ep.address) ≡ false
    → resolve_endpoint net (socks4_request ep ++ old) (request_header ep) s ≡ done ep s
resolve_endpoint-socks4_request net ep old s p a plain =
    let back = swap32-swap32 ep.address a in
    resolve_endpoint_plain net _ (request_header ep) s
      (ap (λ n. regex_match socks4a (net.address_text n)) back ∙ plain)
    ∙ ap₂ (λ address port. done (record { address = address; port = port }) s) back
        (swap16-swap16 ep.port p)

-- What the server has written last to its client.
abbrev pub last_written : List Action → Bytes
last_written [] = []
last_written (write_local b ∷ actions) = b
last_written (_ ∷ actions) = last_written actions

-- Whether the dialogue has started.
abbrev pub is_started : Option Application → Bool
is_started none = false
is_started (some app) = elim app.pending [ reading ↦ true | _ ↦ false ]

module _ (session_id : ℕ) (ep proxy : Endpoint) (pad : Bytes) (app : Application) where
  started-granted :
      is_started (connect_proxy session_id (some ep) true proxy (granted 0 ++ pad) app) ≡ true
  unfolding connect_proxy
  started-granted = refl

  started-rejected :
      app.pending ≡ nothing
      → is_started
          (connect_proxy session_id (some ep) true proxy (0 ∷ 91 ∷ 0 ∷ 0 ∷ 0 ∷ 0 ∷ 0 ∷ 0 ∷ pad) app)
        ≡ false
  unfolding connect_proxy
  started-rejected idle = ap (λ p. elim p [ reading ↦ true | _ ↦ false ]) idle

-- The client is told what the rules of the server say: where the endpoint that the client has
-- resolved is a real port and address, its text is not that of a name to resolve, the server's
-- process is fresh, its rules file is of lines as rules are written, and its connection to the
-- endpoint succeeds, the server serves the client's request to its end, and the client that reads
-- its reply starts the dialogue exactly when the rules permit a CONNECT to the endpoint.
pub connect_proxy-permits :
    (net : Network) (ep : Endpoint) (rules : List Rule) (old pad : Bytes) (s : State)
    (session_id : ℕ) (proxy : Endpoint) (app : Application)
    → ep.port < 2 ^ 16
    → ep.address < 2 ^ 32
    → regex_match socks4a (net.address_text ep.address) ≡ false
    → net.conf ≡ some (conf_text rules)
    → All IsRule rules
    → net.connects ep ≡ true
    → s.hdr ≡ none
    → app.pending ≡ nothing
    → (s' : State) × (handle_read net (socks4_request ep ++ old) s ≡ done tt s')
      × (is_started
            (connect_proxy session_id (some ep) true proxy (last_written s'.actions ++ pad) app)
          ≡ permits rules (net.address_text ep.address) true)
connect_proxy-permits net ep rules old pad s session_id proxy app p a plain file v connects fresh
      idle =
    let hdr = request_header ep in
    let found = resolve_endpoint-socks4_request net ep old s p a plain in
    let told = λ (reply : Bytes).
      is_started (connect_proxy session_id (some ep) true proxy (reply ++ pad) app) in
    elim (handle_read-permits net (socks4_request ep ++ old) hdr ep rules s
      (load-socks4_request ep old) found file v) [
        | inl (allowed, served) ↦
            let before = logged net hdr ep s in
            let tried = connect_remote ep ∷ print (codes "<Reply>: Accept\n") ∷ before.actions in
            let (hdr', connected) = handle_command-connect net ep before fresh in
            (
              _,
              served ∙ connected,
              ap
                    (λ (c : Bool).
                      told (last_written (if c then write_local (granted 0) ∷ tried else tried)))
                    connects
                  ∙ started-granted session_id ep proxy pad app
                  ∙ sym allowed,
            )
        | inr (refused, served) ↦ (
          rejected (logged net hdr ep s),
          served,
          started-rejected session_id ep proxy pad app idle ∙ sym refused,
        )
      ]
