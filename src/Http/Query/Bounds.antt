-- ===== src/Http/Query/Bounds.antt =====
-- Which queries are read past their end.
use nycu_np.Cgi.Console.{ServerInfo}
use nycu_np.Http.Boost.{Boost}
use nycu_np.Http.Query.{cons_server, servers_of, parse_query_string}
use nycu_np.Prelude.{
  ◌*◌, ◌%◌, List, [], ◌∷◌, Option, none, some, Bytes, codes, length, ◌≡◌, ◌≢◌, refl, ap, ◌⊎◌, inl,
  inr, arith, true, some-injective,
}

-- Three tokens for each server, or a number of tokens that three does not divide.
abbrev pub Fits : List Bytes → Option (List ServerInfo) → Type 0
Fits tokens r =
    ((infos : List ServerInfo) × (r ≡ some infos) × (length tokens ≡ 3 * length infos))
    ⊎ ((r ≡ none) × (length tokens % 3 ≢ 0))

cons_server-Fits :
    (info : ServerInfo) (h p f : Bytes) (tokens : List Bytes) (r : Option (List ServerInfo))
    → Fits tokens r
    → Fits (h ∷ p ∷ f ∷ tokens) (cons_server info r)
cons_server-Fits info h p f tokens none (inl (infos, e, n)) = absurd cc
cons_server-Fits info h p f tokens (some infos) (inl (infos', e, n)) =
    inl (info ∷ infos, refl, ground (arith, ap length (some-injective e)))
cons_server-Fits info h p f tokens none (inr (e, n)) = inr (refl, λ z. n (omega arith))
cons_server-Fits info h p f tokens (some infos) (inr (e, n)) = absurd cc

servers_of-Fits : (tokens : List Bytes) → Fits tokens (servers_of tokens)
unfolding servers_of
servers_of-Fits [] = inl ([], refl, refl)
servers_of-Fits (h ∷ []) = inr (refl, λ e. absurd (omega arith))
servers_of-Fits (h ∷ p ∷ []) = inr (refl, λ e. absurd (omega arith))
servers_of-Fits (h ∷ p ∷ f ∷ tokens) =
    cons_server-Fits _ h p f tokens (servers_of tokens) (servers_of-Fits tokens)

-- A query is read past the end of the vector of its tokens exactly where three does not divide their
-- number; otherwise each server takes three.
pub parse_query_string-Fits :
    (b : Boost) (query : Bytes) → Fits (b.split true (codes "&") query) (parse_query_string b query)
unfolding parse_query_string
parse_query_string-Fits b query = servers_of-Fits (b.split true (codes "&") query)
