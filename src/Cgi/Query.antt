-- ===== src/Cgi/Query.antt =====
-- `parseHTTPQueryString` of 312552017_np_project4/cgiserver/cgi_util.cpp. Its two patterns have runs
-- of bytes other than `&`, each in front of a `&` or at the end, so that there is one way at most to
-- match them at a place.
pub mod Fields
pub mod RoundTrip
use nycu_np.Cgi.Console.{ServerInfo}
use nycu_np.Prelude.{
  ℕ, zero, suc, Bool, true, false, ◌&&◌, if◌then◌else◌, ◌==◌, is_digit, List, [], ◌∷◌, ◌++◌, Option,
  none, some, Bytes, codes, length, strip_prefix,
}

-- `[^&]*`, and what stands behind it.
unfoldable pub run_of : Bytes → Bytes
run_of [] = []
run_of (c ∷ cs) = let rest = run_of cs in if c == b'&' then [] else c ∷ rest

unfoldable pub behind_run : Bytes → Bytes
behind_run [] = []
behind_run (c ∷ cs) = let rest = behind_run cs in if c == b'&' then c ∷ cs else rest

abbrev pub and_then {ℓ κ} : {A : Type ℓ} {B : Type κ} → Option A → (A → Option B) → Option B
and_then none f = none
and_then (some a) f = f a

-- `h(\d)=([^&]*)&p\1=([^&]*)&f\1=([^&]*)` behind the first `=`, where the digit is `d`.
unfoldable pub match_fields : ℕ → Bytes → Option (ServerInfo × Bytes)
unfolding run_of behind_run
match_fields d s = and_then (strip_prefix (b'&' ∷ b'p' ∷ d ∷ b'=' ∷ []) (behind_run s)) λ t.
    and_then (strip_prefix (b'&' ∷ b'f' ∷ d ∷ b'=' ∷ []) (behind_run t))
      λ u. some (record { host = run_of s; port = run_of t; file_name = run_of u }, behind_run u)

unfoldable pub match_server : Bytes → Option (ServerInfo × Bytes)
unfolding match_fields is_digit
match_server (c ∷ d ∷ e ∷ s) =
    let fields = match_fields d s in if c == b'h' && is_digit d && e == b'=' then fields else none
match_server _ = none

-- `sh=([^&]*)&sp=([^&]*)` behind the first `=`, and the whole.
unfoldable pub match_port : Bytes → Option (ServerInfo × Bytes)
unfolding run_of behind_run
match_port s =
    and_then (strip_prefix (codes "&sp=") (behind_run s))
      λ t. some (record { host = run_of s; port = run_of t; file_name = [] }, behind_run t)

unfoldable pub match_proxy : Bytes → Option (ServerInfo × Bytes)
unfolding match_port
match_proxy s = and_then (strip_prefix (codes "sh=") s) match_port

-- `std::regex_search`: the first place with a match. Neither pattern matches nothing.
abbrev pub or_later :
    Option (ServerInfo × Bytes) → Option (ServerInfo × Bytes) → Option (ServerInfo × Bytes)
or_later none later = later
or_later (some found) later = some found

unfoldable pub search : (Bytes → Option (ServerInfo × Bytes)) → Bytes → Option (ServerInfo × Bytes)
search matches [] = none
search matches (c ∷ cs) = let later = search matches cs in or_later (matches (c ∷ cs)) later

abbrev pub is_empty : Bytes → Bool
is_empty [] = true
is_empty (c ∷ cs) = false

-- A server without any text is left out.
abbrev pub kept : ServerInfo → List ServerInfo → List ServerInfo
kept info rest =
    if is_empty info.host && is_empty info.port && is_empty info.file_name
    then rest
    else info ∷ rest

-- The loop over the matches, on fuel; `none` is fuel that ran out.
abbrev pub next_server :
    (Bytes → Option (List ServerInfo)) → Option (ServerInfo × Bytes) → Option (List ServerInfo)
next_server go none = some []
next_server go (some (info, suffix)) = and_then (go suffix) λ rest. some (kept info rest)

unfoldable pub servers_loop : ℕ → Bytes → Option (List ServerInfo)
unfolding search match_server
servers_loop zero s = none
servers_loop (suc fuel) s = next_server (servers_loop fuel) (search match_server s)

abbrev pub with_proxy : Option (ServerInfo × Bytes) → List ServerInfo → List ServerInfo
with_proxy none servers = servers
with_proxy (some (info, suffix)) servers = servers ++ info ∷ []

-- `none` for the query is a null pointer. Each match takes a byte at least, so that fuel above the
-- length is enough.
unfoldable pub parse_http_query_string : Option Bytes → Option (List ServerInfo)
unfolding servers_loop match_proxy
parse_http_query_string none = some []
parse_http_query_string (some query) =
    and_then (servers_loop (suc (length query)) query)
      λ servers. some (with_proxy (search match_proxy query) servers)
