-- ===== src/Http/Session/Route.antt =====
-- From the bytes of a request to the dialogues that it starts.
use nycu_np.Cgi.Console.{ServerInfo}
use nycu_np.Http.Boost.{Boost, Splits, IsApart, is_any_of}
use nycu_np.Http.Session.{url_of, header_of, handle_http_request, start_app, Call}
use nycu_np.Prelude.{
  ◌⊎◌, ◌≢◌, ◌+◌, ℕ, true, false, List, [], ◌∷◌, ◌++◌, none, Bytes, codes, ◌≡◌, refl, ap, ◌∙◌, arith,
}

-- A text without spaces, question marks and line ends.
abbrev pub IsPlain : Bytes → Type 0
IsPlain text = IsApart (codes " ?\r\n") text

-- The parts of a request: the method, the path and the query of the target, the version, and the
-- headers, each of which has a byte at least.
pub record Request : Type 0 where
  pub method : Bytes
  pub path : Bytes
  pub query : Bytes
  pub version_head : ℕ
  pub version : Bytes
  pub header_head : ℕ
  pub headers : Bytes

abbrev pub target_text : Request → Bytes
target_text r = b'/' ∷ (r.path ++ b'?' ∷ r.query)

abbrev pub line_text : Request → Bytes
line_text r = r.method ++ b' ' ∷ (target_text r ++ b' ' ∷ r.version_head ∷ r.version)

abbrev pub request_text : Request → Bytes
request_text r = line_text r ++ b'\r' ∷ b'\n' ∷ r.header_head ∷ r.headers

pub record IsRequest (r : Request) : Type 0 where
  pub method_plain : IsPlain r.method
  pub path_plain : IsPlain r.path
  pub query_plain : IsPlain r.query
  pub version_plain : IsPlain (r.version_head ∷ r.version)
  pub header_plain : is_any_of (codes "\r\n") r.header_head ≡ false

-- A text without the bytes of a set has none of a smaller one.
IsApart-subset :
    (set less : Bytes)
    → ((c : ℕ) → is_any_of set c ≡ false → is_any_of less c ≡ false)
    → (w : Bytes) → IsApart set w
    → IsApart less w
IsApart-subset set less sub [] h = tt
IsApart-subset set less sub (c ∷ w) h = (sub c h.0, IsApart-subset set less sub w h.1)

abbrev pub IsComplete : ServerInfo → Type 0
IsComplete info = (info.host ≢ []) × (info.port ≢ []) × (info.file_name ≢ [])

-- The calls are one for each server that has a host, a port and a file, in their order, with the
-- number of its panel, where the first one has the number `i`.
abbrev pub Starts : ℕ → List ServerInfo → List Call → Type 0
Starts i [] calls = calls ≡ []
Starts i (info ∷ infos) calls =
    (IsComplete info
      × (rest : List Call) × (calls ≡ start_app i info ∷ rest)
      × Starts (i + 1) infos rest)
    ⊎ (¬ IsComplete info × Starts (i + 1) infos calls)

-- A request whose first line has no space, where `split` does what Boost documents: the session
-- reads behind the end of a vector, whatever else the request says.
pub handle_http_request-no_space :
    (b : Boost) (line : Bytes) (head : ℕ) (headers : Bytes)
    → Splits b
    → IsApart (codes " \r\n") line
    → is_any_of (codes "\r\n") head ≡ false
    → handle_http_request b (line ++ b'\r' ∷ b'\n' ∷ head ∷ headers) ≡ none
unfolding handle_http_request header_of url_of
handle_http_request-no_space b line head headers splits one_word h =
    let apart = IsApart-subset (codes " \r\n") (codes "\r\n") (λ c k. ground arith) line one_word in
    ap (header_of b) (
      splits.same_token (codes "\r\n") line b'\r' b'\n' (head ∷ headers) apart refl refl
      ∙ splits.more_tokens (codes "\r\n") line b'\n' head headers apart refl h)
    ∙ ap (url_of b) (
        splits.last_part true (codes " ") line
          (IsApart-subset (codes " \r\n") (codes " ") (λ c k. ground arith) line one_word))
