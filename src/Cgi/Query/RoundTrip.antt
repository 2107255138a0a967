-- ===== src/Cgi/Query/RoundTrip.antt =====
-- The query of the panel's form, read back.
use nycu_np.Cgi.Console.{ServerInfo}
use nycu_np.Cgi.Query.{
  run_of, behind_run, and_then, match_server, match_port, match_proxy, search, kept, next_server,
  servers_loop, with_proxy, parse_http_query_string,
}
use nycu_np.Prelude.{
  ℕ, zero, suc, ◌+◌, ◌≤◌, ◌<◌, Bool, true, false, if◌then◌else◌, ◌==◌, is_digit, List, [], ◌∷◌,
  ◌++◌, All, Option, none, some, Bytes, codes, length, length-append, strip_prefix, ◌≡◌, refl, sym,
  ap, ◌∙◌, arith,
}
use nycu_np.Cgi.Query.Fields.{
  IsField, IsServer, server_query, run_of-field, behind_run-field, run_of-last, behind_run-last,
  match_server-query, search-none, search-some, search-proxy, search-last, search-and,
}

-- The field of the form for the proxy.
abbrev pub proxy_query : ServerInfo → Bytes
proxy_query info = codes "sh=" ++ info.host ++ b'&' ∷ b's' ∷ b'p' ∷ b'=' ∷ info.port

-- The query of the form: the servers, numbered from `i` on, and the proxy.
abbrev pub form_query : ℕ → List ServerInfo → ServerInfo → Bytes
form_query i [] proxy = proxy_query proxy
form_query i (info ∷ infos) proxy = server_query (b'0' + i) info (form_query (i + 1) infos proxy)

-- The servers with any text.
abbrev pub all_kept : List ServerInfo → List ServerInfo
all_kept [] = []
all_kept (info ∷ infos) = kept info (all_kept infos)

search-proxy_query :
    (proxy : ServerInfo) → IsServer proxy → search match_server (proxy_query proxy) ≡ none
search-proxy_query proxy v =
    search-proxy (codes "sh=" ++ proxy.host) (b'p' ∷ b'=' ∷ proxy.port)
      (refl, (refl, (refl, v.host_field)))
    ∙ search-and (b's' ∷ b'p' ∷ b'=' ∷ proxy.port)
    ∙ search-last (b's' ∷ b'p' ∷ b'=' ∷ proxy.port) (refl, (refl, (refl, v.port_field)))

digit-IsDigit : (i : ℕ) → i < 10 → is_digit (b'0' + i) ≡ true
unfolding is_digit
digit-IsDigit i h = ground arith

search-server_query :
    (d : ℕ) (info : ServerInfo) (rest : Bytes)
    → is_digit d ≡ true
    → IsServer info
    → search match_server (server_query d info rest) ≡ some (info, b'&' ∷ rest)
search-server_query d info rest digit v =
    search-some match_server b'h' _ (match_server-query d info rest digit v)

servers_loop-form :
    (fuel i : ℕ) (infos : List ServerInfo) (proxy : ServerInfo)
    → length infos < fuel
    → i + length infos ≤ 10
    → All IsServer infos
    → IsServer proxy
    → servers_loop fuel (form_query i infos proxy) ≡ some (all_kept infos)
unfolding servers_loop
servers_loop-form zero i infos proxy h k v w = absurd (omega arith)
servers_loop-form (suc fuel) i [] proxy h k v w =
    ap (next_server (servers_loop fuel)) (search-proxy_query proxy w)
servers_loop-form (suc fuel) i (info ∷ infos) proxy h k v w =
    ap (next_server (servers_loop fuel)) (
      search-server_query (b'0' + i) info (form_query (i + 1) infos proxy)
        (digit-IsDigit i (omega arith)) v.0)
    ∙ ap (λ r. and_then r λ rest. some (kept info rest))
        (loop-and fuel (form_query (i + 1) infos proxy)
          ∙ servers_loop-form fuel (i + 1) infos proxy (omega arith) (omega arith) v.1 w)
  where
    loop-and : (fuel : ℕ) (t : Bytes) → servers_loop fuel (b'&' ∷ t) ≡ servers_loop fuel t
    loop-and zero t = refl
    loop-and (suc fuel) t = ap (next_server (servers_loop fuel)) (search-and t)

if_then-none :
    (b : Bool) (r : Option Bytes) (f : Bytes → Option (ServerInfo × Bytes))
    → and_then r f ≡ none
    → and_then (if b then r else none) f ≡ none
if_then-none true r f h = h
if_then-none false r f h = refl

-- No proxy starts in a text whose `&` has no second field of a proxy behind it.
module _ (u : Bytes) (apart : strip_prefix (codes "&sp=") (b'&' ∷ u) ≡ none) where
  match_proxy-field : (c : ℕ) (w : Bytes) → IsField w → match_proxy (c ∷ (w ++ b'&' ∷ u)) ≡ none
  unfolding match_proxy match_port
  match_proxy-field c [] h = if_then-none (b's' == c) none match_port refl
  match_proxy-field c (d ∷ []) h =
      if_then-none (b's' == c) _ match_port (if_then-none (b'h' == d) none match_port refl)
  match_proxy-field c (d ∷ e ∷ w) h = if_then-none (b's' == c) _ match_port (
      if_then-none (b'h' == d) _ match_port (
        if_then-none (b'=' == e) (some (w ++ b'&' ∷ u)) match_port (
          ap
            (λ t. and_then (strip_prefix (codes "&sp=") t) λ v. some (
              record { host = run_of (w ++ b'&' ∷ u); port = run_of v; file_name = [] },
              behind_run v,
            ))
            (behind_run-field w u h.1.1)
          ∙ ap
              (λ r. and_then r λ v. some (
                record { host = run_of (w ++ b'&' ∷ u); port = run_of v; file_name = [] },
                behind_run v,
              ))
              apart)))

  search-field : (w : Bytes) → IsField w → search match_proxy (w ++ b'&' ∷ u) ≡ search match_proxy u
  unfolding match_proxy
  search-field [] h = search-none match_proxy b'&' u refl
  search-field (c ∷ w) h =
      search-none match_proxy c (w ++ b'&' ∷ u) (match_proxy-field c w h.1) ∙ search-field w h.1

match_proxy-query :
    (proxy : ServerInfo)
    → IsServer proxy
    → proxy.file_name ≡ []
    → search match_proxy (proxy_query proxy) ≡ some (proxy, [])
unfolding match_proxy match_port
match_proxy-query proxy v unnamed = search-some match_proxy b's' _ (
    rw
      (
        behind_run-field proxy.host (b's' ∷ b'p' ∷ b'=' ∷ proxy.port) v.host_field,
        run_of-field proxy.host (b's' ∷ b'p' ∷ b'=' ∷ proxy.port) v.host_field,
        run_of-last proxy.port v.port_field,
        behind_run-last proxy.port v.port_field,
      )
      (ap (λ f. some (record { host = proxy.host; port = proxy.port; file_name = f }, []))
        (sym unnamed)))

digit-IsField : (i : ℕ) → ((b'0' + i) == b'&') ≡ false
digit-IsField i = ground arith

-- The first field of the rest of the form does not read as the second one of a proxy.
form_query-apart :
    (i : ℕ) (infos : List ServerInfo) (proxy : ServerInfo)
    → strip_prefix (codes "&sp=") (b'&' ∷ form_query i infos proxy) ≡ none
form_query-apart i [] proxy = refl
form_query-apart i (info ∷ infos) proxy = refl

search-form :
    (i : ℕ) (infos : List ServerInfo) (proxy : ServerInfo)
    → All IsServer infos
    → search match_proxy (form_query i infos proxy) ≡ search match_proxy (proxy_query proxy)
search-form i [] proxy v = refl
search-form i (info ∷ infos) proxy v =
    search-field _ refl (b'h' ∷ (b'0' + i) ∷ b'=' ∷ info.host)
      (refl, (digit-IsField i, (refl, v.0.host_field)))
    ∙ search-field _ refl (b'p' ∷ (b'0' + i) ∷ b'=' ∷ info.port)
        (refl, (digit-IsField i, (refl, v.0.port_field)))
    ∙ search-field _ (form_query-apart (i + 1) infos proxy)
        (b'f' ∷ (b'0' + i) ∷ b'=' ∷ info.file_name)
        (refl, (digit-IsField i, (refl, v.0.file_field)))
    ∙ search-form (i + 1) infos proxy v.1

form_query-le :
    (i : ℕ) (infos : List ServerInfo) (proxy : ServerInfo)
    → length infos ≤ length (form_query i infos proxy)
form_query-le i [] proxy = omega arith
form_query-le i (info ∷ infos) proxy =
    let file = b'&' ∷ form_query (i + 1) infos proxy in
    let port = b'&' ∷ b'f' ∷ (b'0' + i) ∷ b'=' ∷ (info.file_name ++ file) in
    let host = b'&' ∷ b'p' ∷ (b'0' + i) ∷ b'=' ∷ (info.port ++ port) in
    omega (
      arith,
      form_query-le (i + 1) infos proxy,
      length-append info.file_name file,
      length-append info.port port,
      length-append info.host host,
    )

-- The query that the form makes of at most ten servers and a proxy, whose texts have no `&`, is
-- read back as the servers that have any text, in their order, and the proxy behind them.
pub parse_http_query_string-form :
    (infos : List ServerInfo) (proxy : ServerInfo)
    → length infos ≤ 10
    → All IsServer infos
    → IsServer proxy
    → proxy.file_name ≡ []
    → parse_http_query_string (some (form_query 0 infos proxy))
      ≡ some (all_kept infos ++ proxy ∷ [])
unfolding parse_http_query_string
parse_http_query_string-form infos proxy few v w unnamed =
    ap
      (λ r.
        and_then r
          λ servers. some (with_proxy (search match_proxy (form_query 0 infos proxy)) servers))
      (servers_loop-form (suc (length (form_query 0 infos proxy))) 0 infos proxy
        (omega (arith, form_query-le 0 infos proxy)) (omega arith) v w)
    ∙ ap (λ r. some (with_proxy r (all_kept infos)))
        (search-form 0 infos proxy v ∙ match_proxy-query proxy w unnamed)
