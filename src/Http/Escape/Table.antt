-- ===== src/Http/Escape/Table.antt =====
-- The escaping in one pass, byte by byte.
use nycu_np.Http.Boost.{Boost, substitute, Replaces}
use nycu_np.Http.Escape.{cgi_html_escape}
use nycu_np.Prelude.{
  ℕ, Bool, true, false, ◌==◌, if◌then◌else◌, [], ◌∷◌, ◌++◌, append_assoc, Bytes, codes, All,
  All-append, ◌≡◌, refl, sym, ap, ap₂, ◌∙◌, arith,
}

-- What stands for a byte on the page.
abbrev pub entity : ℕ → Bytes
entity c =
    if c == b'&'
    then codes "&amp;"
    else if c == b'>'
    then codes "&gt;"
    else if c == b'<'
    then codes "&lt;"
    else if c == b'"'
    then codes "&quot;"
    else if c == 39
    then codes "&apos;"
    else if c == 10
    then codes "&NewLine;"
    else if c == 13
    then []
    else c ∷ []

-- Each byte of a text replaced by a text.
abbrev pub each : (ℕ → Bytes) → Bytes → Bytes
each f [] = []
each f (c ∷ text) = f c ++ each f text

substitute-append :
    (c : ℕ) (by s t : Bytes) → substitute c by (s ++ t) ≡ substitute c by s ++ substitute c by t
substitute-append c by [] t = refl
substitute-append c by (d ∷ s) t =
    ap (λ u. (if d == c then by else d ∷ []) ++ u) (substitute-append c by s t)
    ∙ sym (append_assoc (if d == c then by else d ∷ []) (substitute c by s) (substitute c by t))

substitute-each :
    (c : ℕ) (by : Bytes) (f : ℕ → Bytes) (text : Bytes)
    → substitute c by (each f text) ≡ each (λ d. substitute c by (f d)) text
substitute-each c by f [] = refl
substitute-each c by f (d ∷ text) =
    substitute-append c by (f d) (each f text)
    ∙ ap (λ u. substitute c by (f d) ++ u) (substitute-each c by f text)

-- The replacements at one byte.
abbrev replaced : ℕ → Bytes
replaced c = substitute 13 [] (
    substitute 10 (codes "&NewLine;") (
      substitute 39 (codes "&apos;") (
        substitute b'"' (codes "&quot;") (
          substitute b'<' (codes "&lt;")
            (substitute b'>' (codes "&gt;") (substitute b'&' (codes "&amp;") (c ∷ [])))))))

replaced-entity : (c : ℕ) → replaced c ≡ entity c
replaced-entity c = ground arith

each_cong : (f g : ℕ → Bytes) (text : Bytes) → ((c : ℕ) → f c ≡ g c) → each f text ≡ each g text
each_cong f g [] same = refl
each_cong f g (c ∷ text) same = ap₂ ◌++◌ (same c) (each_cong f g text same)

each_self : (text : Bytes) → each (λ c. c ∷ []) text ≡ text
each_self [] = refl
each_self (c ∷ text) = ap (λ u. c ∷ u) (each_self text)

-- One replacement, on top of those before it.
replace_all-each :
    (b : Boost) (replaces : Replaces b) (c : ℕ) (by text so_far : Bytes) (f : ℕ → Bytes)
    → so_far ≡ each f text
    → b.replace_all so_far (c ∷ []) by ≡ each (λ d. substitute c by (f d)) text
replace_all-each b replaces c by text so_far f done =
    replaces c by so_far ∙ ap (substitute c by) done ∙ substitute-each c by f text

-- A byte that is no bracket, no quote and no line end.
abbrev pub is_inert : ℕ → Bool
is_inert c =
    if c == b'<'
    then false
    else if c == b'>'
    then false
    else if c == b'"'
    then false
    else if c == 39
    then false
    else if c == 10
    then false
    else if c == 13
    then false
    else true

entity-is_inert : (c : ℕ) → All (λ d. is_inert d ≡ true) (entity c)
entity-is_inert c = ground arith

each-is_inert : (text : Bytes) → All (λ d. is_inert d ≡ true) (each entity text)
each-is_inert [] = tt
each-is_inert (c ∷ text) =
    All-append (λ d. is_inert d ≡ true) (entity c) (each entity text) (entity-is_inert c)
      (each-is_inert text)

-- Where `replace_all` does what Boost documents, the seven replacements, one after the other, are
-- the table applied to each byte once, so that no replacement touches what another has put in; and
-- the result has no bracket, no quote and no line end.
pub cgi_html_escape-each :
    (b : Boost) (text : Bytes)
    → Replaces b
    → (cgi_html_escape b text ≡ each entity text)
      × All (λ c. is_inert c ≡ true) (cgi_html_escape b text)
unfolding cgi_html_escape
cgi_html_escape-each b text replaces =
    let step = replace_all-each b replaces in
    let whole : cgi_html_escape b text ≡ each entity text =
      step 13 [] text _ _ (
        step 10 (codes "&NewLine;") text _ _ (
          step 39 (codes "&apos;") text _ _ (
            step b'"' (codes "&quot;") text _ _ (
              step b'<' (codes "&lt;") text _ _ (
                step b'>' (codes "&gt;") text _ _
                  (step b'&' (codes "&amp;") text text (λ c. c ∷ []) (sym (each_self text))))))))
      ∙ each_cong replaced entity text replaced-entity in
    (whole, rw whole (each-is_inert text))
