-- ===== src/Http/Query/Form.antt =====
-- The query of the panel's form, read back.
use nycu_np.Cgi.Console.{ServerInfo}
use nycu_np.Cgi.Query.Fields.{IsField, IsServer}
use nycu_np.Http.Boost.{Boost, Splits, IsApart}
use nycu_np.Http.Query.{value_of, after_sign, servers_of, parse_query_string}
use nycu_np.Prelude.{
  ℕ, ◌+◌, ◌≤◌, true, false, ◌==◌, List, [], ◌∷◌, ◌++◌, append-nil, some, Bytes, codes, All, length,
  ◌≡◌, refl, ap, ◌∙◌, arith,
}

-- A field of the form: a letter and the number of the server, and the value.
abbrev pub field : ℕ → ℕ → Bytes → Bytes
field letter i value = letter ∷ (b'0' + i) ∷ b'=' ∷ value

-- The fields of one server, in front of a text.
abbrev pub fields : ℕ → ServerInfo → Bytes → Bytes
fields i info rest =
    field b'h' i info.host
    ++ b'&' ∷ (field b'p' i info.port ++ b'&' ∷ (field b'f' i info.file_name ++ rest))

-- The query of the form, with its servers numbered from `i` on, behind the first one.
abbrev pub more_servers : ℕ → List ServerInfo → Bytes
more_servers i [] = []
more_servers i (info ∷ infos) = b'&' ∷ fields i info (more_servers (i + 1) infos)

abbrev pub form_query : ServerInfo → List ServerInfo → Bytes
form_query info infos = fields 0 info (more_servers 1 infos)

abbrev tokens : ℕ → List ServerInfo → List Bytes
tokens i [] = []
tokens i (info ∷ infos) =
    field b'h' i info.host
    ∷ field b'p' i info.port
    ∷ field b'f' i info.file_name
    ∷ tokens (i + 1) infos

IsField-IsApart : (w : Bytes) → IsField w → IsApart (codes "&") w
IsField-IsApart [] h = tt
IsField-IsApart (c ∷ w) h = (ground (arith, h.0), IsField-IsApart w h.1)

field-IsApart :
    (letter i : ℕ) (w : Bytes)
    → (b'&' == letter) ≡ false
    → IsField w
    → IsApart (codes "&") (field letter i w)
field-IsApart letter i w l h = (ground arith, (ground arith, (refl, IsField-IsApart w h)))

module _ (b : Boost) (splits : Splits b) where
  split-fields :
      (i : ℕ) (info : ServerInfo) (infos : List ServerInfo)
      → IsServer info
      → All IsServer infos
      → b.split true (codes "&") (fields i info (more_servers (i + 1) infos))
        ≡ tokens i (info ∷ infos)
  split-fields i info [] v vs =
      splits.more_tokens (codes "&") (field b'h' i info.host) b'&' b'p' _
        (field-IsApart b'h' i info.host refl v.host_field) refl refl
      ∙ ap (◌∷◌ (field b'h' i info.host)) (
          splits.more_tokens (codes "&") (field b'p' i info.port) b'&' b'f' _
            (field-IsApart b'p' i info.port refl v.port_field) refl refl
          ∙ ap (◌∷◌ (field b'p' i info.port)) (
              ap (b.split true (codes "&")) (append-nil (field b'f' i info.file_name))
              ∙ splits.last_part true (codes "&") (field b'f' i info.file_name)
                  (field-IsApart b'f' i info.file_name refl v.file_field)))
  split-fields i info (next ∷ infos) v vs =
      splits.more_tokens (codes "&") (field b'h' i info.host) b'&' b'p' _
        (field-IsApart b'h' i info.host refl v.host_field) refl refl
      ∙ ap (◌∷◌ (field b'h' i info.host)) (
          splits.more_tokens (codes "&") (field b'p' i info.port) b'&' b'f' _
            (field-IsApart b'p' i info.port refl v.port_field) refl refl
          ∙ ap (◌∷◌ (field b'p' i info.port)) (
              splits.more_tokens (codes "&") (field b'f' i info.file_name) b'&' b'h' _
                (field-IsApart b'f' i info.file_name refl v.file_field) refl refl
              ∙ ap (◌∷◌ (field b'f' i info.file_name)) (split-fields (i + 1) next infos vs.0 vs.1)))

value_of-field :
    (letter i : ℕ) (w : Bytes) → (letter == b'=') ≡ false → i ≤ 9 → value_of (field letter i w) ≡ w
unfolding value_of after_sign
value_of-field letter i w l h = ground arith

servers_of-tokens :
    (i : ℕ) (infos : List ServerInfo)
    → i + length infos ≤ 10
    → servers_of (tokens i infos) ≡ some infos
unfolding servers_of
servers_of-tokens i [] h = refl
servers_of-tokens i (info ∷ infos) h =
    rw
      (
        servers_of-tokens (i + 1) infos (omega arith),
        value_of-field b'h' i info.host refl (omega arith),
        value_of-field b'p' i info.port refl (omega arith),
        value_of-field b'f' i info.file_name refl (omega arith),
      )
      refl

-- The query that the form makes of one to ten servers, whose texts have no `&`, is read back as
-- these servers, those without any text included, where `split` does what Boost documents.
pub parse_query_string-form :
    (b : Boost) (info : ServerInfo) (infos : List ServerInfo)
    → Splits b
    → length infos ≤ 9
    → IsServer info
    → All IsServer infos
    → parse_query_string b (form_query info infos) ≡ some (info ∷ infos)
unfolding parse_query_string
parse_query_string-form b info infos splits few v vs =
    ap servers_of (split-fields b splits 0 info infos v vs)
    ∙ servers_of-tokens 0 (info ∷ infos) (omega arith)
