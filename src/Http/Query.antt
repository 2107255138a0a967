-- ===== src/Http/Query.antt =====
-- `parseQueryString` (cgi_util.cpp of project 3).
pub mod Form
pub mod Bounds
use nycu_np.Cgi.Console.{ServerInfo}
use nycu_np.Http.Boost.{Boost}
use nycu_np.Prelude.{
  ℕ, Bool, true, false, if◌then◌else◌, ◌==◌, List, [], ◌∷◌, Option, none, some, Bytes, codes,
}

-- `token.find("=")`, and what stands behind it.
unfoldable pub after_sign : Bytes → Option Bytes
after_sign [] = none
after_sign (c ∷ cs) = let rest = after_sign cs in if c == b'=' then some cs else rest

-- Where there is no sign, `npos + 1` is 0, and the token is taken whole.
abbrev pub or_whole : Bytes → Option Bytes → Bytes
or_whole token none = token
or_whole token (some value) = value

-- `token.substr(token.find("=") + 1)`.
unfoldable pub value_of : Bytes → Bytes
unfolding after_sign
value_of token = or_whole token (after_sign token)

-- A server, in front of those behind it.
abbrev pub cons_server : ServerInfo → Option (List ServerInfo) → Option (List ServerInfo)
cons_server info none = none
cons_server info (some infos) = some (info ∷ infos)

-- The loop over the tokens, three at a time; `none` is a read behind the end of the vector.
unfoldable pub servers_of : List Bytes → Option (List ServerInfo)
unfolding value_of
servers_of [] = some []
servers_of (h ∷ []) = none
servers_of (h ∷ p ∷ []) = none
servers_of (h ∷ p ∷ f ∷ tokens) =
    cons_server (record { host = value_of h; port = value_of p; file_name = value_of f })
      (servers_of tokens)

unfoldable pub parse_query_string : Boost → Bytes → Option (List ServerInfo)
unfolding servers_of
parse_query_string b query = servers_of (b.split true (codes "&") query)
