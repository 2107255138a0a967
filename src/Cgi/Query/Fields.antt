-- ===== src/Cgi/Query/Fields.antt =====
-- One field of the form's query, and the places where no match starts.
use nycu_np.Cgi.Console.{ServerInfo}
use nycu_np.Cgi.Query.{run_of, behind_run, match_fields, match_server, or_later, search}
use nycu_np.Prelude.{
  ℕ, Bool, true, false, ◌&&◌, if◌then◌else◌, ◌==◌, ==_iff, is_digit, [], ◌∷◌, ◌++◌, All, Option,
  none, some, Bytes, ◌≡◌, refl, ap, ◌∙◌, if_false,
}

abbrev pub IsField : Bytes → Type 0
IsField text = All (λ c. (c == b'&') ≡ false) text

pub run_of-field : (w t : Bytes) → IsField w → run_of (w ++ b'&' ∷ t) ≡ w
unfolding run_of
run_of-field [] t h = refl
run_of-field (c ∷ w) t h = rw h.0 (ap (◌∷◌ c) (run_of-field w t h.1))

pub behind_run-field : (w t : Bytes) → IsField w → behind_run (w ++ b'&' ∷ t) ≡ b'&' ∷ t
unfolding behind_run
behind_run-field [] t h = refl
behind_run-field (c ∷ w) t h = rw h.0 (behind_run-field w t h.1)

pub run_of-last : (w : Bytes) → IsField w → run_of w ≡ w
unfolding run_of
run_of-last [] h = refl
run_of-last (c ∷ w) h = rw h.0 (ap (◌∷◌ c) (run_of-last w h.1))

pub behind_run-last : (w : Bytes) → IsField w → behind_run w ≡ []
unfolding behind_run
behind_run-last [] h = refl
behind_run-last (c ∷ w) h = rw h.0 (behind_run-last w h.1)

-- The field of the form for one server, with the `&` behind it.
abbrev pub server_query : ℕ → ServerInfo → Bytes → Bytes
server_query d info rest =
    b'h'
    ∷ d
    ∷ b'='
    ∷ (info.host
        ++ b'&'
          ∷ b'p'
          ∷ d
          ∷ b'='
          ∷ (info.port ++ b'&' ∷ b'f' ∷ d ∷ b'=' ∷ (info.file_name ++ b'&' ∷ rest)))

pub record IsServer (info : ServerInfo) : Type 0 where
  pub host_field : IsField info.host
  pub port_field : IsField info.port
  pub file_field : IsField info.file_name

eq_refl : (n : ℕ) → (n == n) ≡ true
eq_refl n = (==_iff n n).1 refl

pub match_server-query :
    (d : ℕ) (info : ServerInfo) (rest : Bytes)
    → is_digit d ≡ true
    → IsServer info
    → match_server (server_query d info rest) ≡ some (info, b'&' ∷ rest)
unfolding match_server match_fields
match_server-query d info rest digit v =
    rw
      (
        digit,
        behind_run-field info.host _ v.host_field,
        eq_refl d,
        behind_run-field info.port _ v.port_field,
        eq_refl d,
        behind_run-field info.file_name _ v.file_field,
        run_of-field info.host _ v.host_field,
        run_of-field info.port _ v.port_field,
        run_of-field info.file_name rest v.file_field,
      )
      refl

pub if_same : {A : Type 0} (b : Bool) (x : A) → (if b then x else x) ≡ x
if_same true x = refl
if_same false x = refl

and_and_false : (a b : Bool) → (a && b && false) ≡ false
and_and_false false b = refl
and_and_false true false = refl
and_and_false true true = refl

pub search-none :
    (matches : Bytes → Option (ServerInfo × Bytes)) (c : ℕ) (cs : Bytes)
    → matches (c ∷ cs) ≡ none
    → search matches (c ∷ cs) ≡ search matches cs
unfolding search
search-none matches c cs h = ap (λ r. or_later r (search matches cs)) h

pub search-some :
    (matches : Bytes → Option (ServerInfo × Bytes)) (c : ℕ) (cs : Bytes)
    {found : ServerInfo × Bytes}
    → matches (c ∷ cs) ≡ some found
    → search matches (c ∷ cs) ≡ some found
unfolding search
search-some matches c cs h = ap (λ r. or_later r (search matches cs)) h

-- No server starts in a text up to the proxy's second field.
match_server-proxy :
    (c : ℕ) (w u : Bytes) → IsField w → match_server (c ∷ (w ++ b'&' ∷ b's' ∷ u)) ≡ none
unfolding match_server match_fields
match_server-proxy c [] u h =
    if_false (c == b'h' && is_digit b'&' && b's' == b'=') _ _
      (and_and_false (c == b'h') (is_digit b'&'))
match_server-proxy c (d ∷ []) u h =
    if_false (c == b'h' && is_digit d && b'&' == b'=') _ _ (and_and_false (c == b'h') (is_digit d))
match_server-proxy c (d ∷ e ∷ w) u h =
    ap (λ fields. if c == b'h' && is_digit d && e == b'=' then fields else none)
      (rw (behind_run-field w (b's' ∷ u) h.1.1) refl)
    ∙ if_same _ none

match_server-last : (c : ℕ) (w : Bytes) → IsField w → match_server (c ∷ w) ≡ none
unfolding match_server match_fields
match_server-last c [] h = refl
match_server-last c (d ∷ []) h = refl
match_server-last c (d ∷ e ∷ w) h =
    ap (λ fields. if c == b'h' && is_digit d && e == b'=' then fields else none)
      (rw (behind_run-last w h.1.1) refl)
    ∙ if_same _ none

pub search-proxy :
    (w u : Bytes)
    → IsField w
    → search match_server (w ++ b'&' ∷ b's' ∷ u) ≡ search match_server (b'&' ∷ b's' ∷ u)
search-proxy [] u h = refl
search-proxy (c ∷ w) u h =
    search-none match_server c _ (match_server-proxy c w u h.1) ∙ search-proxy w u h.1

pub search-last : (w : Bytes) → IsField w → search match_server w ≡ none
unfolding search
search-last [] h = refl
search-last (c ∷ w) h = search-none match_server c w (match_server-last c w h.1) ∙ search-last w h.1

pub search-and : (t : Bytes) → search match_server (b'&' ∷ t) ≡ search match_server t
unfolding match_server
search-and [] = search-none match_server b'&' [] refl
search-and (d ∷ []) = search-none match_server b'&' (d ∷ []) refl
search-and (d ∷ e ∷ s) = search-none match_server b'&' (d ∷ e ∷ s) refl
