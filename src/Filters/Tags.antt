-- ===== src/Filters/Tags.antt =====
-- What is left of a marked-up text.
use nycu_np.Prelude.{
  ℕ, Bool, true, false, not, ◌&&◌, ◌||◌, ◌==◌, List, [], ◌∷◌, ◌++◌, Bytes, All, ◌≡◌, refl, arith,
  ap, ◌∙◌, is_alpha,
}
use nycu_np.Filters.{removetag_loop, removetag, removetag0_loop, removetag0, Written, put, report}

-- A text without angle brackets, and a tag behind it.
pub record Marked : Type 0 where
  pub text : Bytes
  pub tag : Bytes

abbrev pub is_bracket : ℕ → Bool
is_bracket c = c == b'<' || c == b'>'

pub record IsMarked (m : Marked) : Type 0 where
  pub plain_text : All (λ c. is_bracket c ≡ false) m.text
  pub plain_tag : All (λ c. is_bracket c ≡ false) m.tag

abbrev pub markup : List Marked → Bytes
markup [] = []
markup (m ∷ ms) = m.text ++ (b'<' ∷ (m.tag ++ (b'>' ∷ markup ms)))

abbrev pub texts : List Marked → Bytes
texts [] = []
texts (m ∷ ms) = m.text ++ texts ms

loop-text :
    (t rest : Bytes)
    → All (λ c. is_bracket c ≡ false) t
    → removetag_loop false (t ++ rest) ≡ t ++ removetag_loop false rest
unfolding removetag_loop
loop-text [] rest h = refl
loop-text (c ∷ t) rest h = ground (arith, loop-text t rest h.1)

loop-tag :
    (t rest : Bytes)
    → All (λ c. is_bracket c ≡ false) t
    → removetag_loop true (t ++ (b'>' ∷ rest)) ≡ removetag_loop false rest
unfolding removetag_loop
loop-tag [] rest h = refl
loop-tag (c ∷ t) rest h = ground (arith, loop-tag t rest h.1)

-- From texts and tags without angle brackets in them, each tag between `<` and `>`, the tags are
-- removed and the texts stay.
removetag-markup : (ms : List Marked) → All IsMarked ms → removetag (markup ms) ≡ texts ms
unfolding removetag_loop
removetag-markup [] h = refl
removetag-markup (m ∷ ms) h =
    loop-text m.text (b'<' ∷ (m.tag ++ (b'>' ∷ markup ms))) h.0.plain_text
    ∙ ap (◌++◌ m.text) (loop-tag m.tag (markup ms) h.0.plain_tag ∙ removetag-markup ms h.1)

-- The bytes written to the output, without the messages.
abbrev pub output : List Written → Bytes
output [] = []
output (put c ∷ ws) = c ∷ output ws
output (report msg ∷ ws) = output ws

output-loop :
    (in_tag is_illegal : Bool) (tag_name s : Bytes)
    → output (removetag0_loop in_tag is_illegal tag_name s) ≡ removetag_loop in_tag s
unfolding removetag0_loop removetag_loop
output-loop in_tag is_illegal tag_name [] = refl
output-loop in_tag is_illegal tag_name (c ∷ s) = ground (
  arith,
  output-loop true is_illegal tag_name s,
  output-loop false is_illegal tag_name s,
  output-loop true (is_illegal || (not (is_alpha c) && not (c == b'/'))) (tag_name ++ c ∷ []) s,
  output-loop false false tag_name s,
)

-- Whatever the input, the output of removetag0 is that of removetag: the check of the tags only
-- adds messages on the error output.
pub output-removetag0 : (s : Bytes) → output (removetag0 s) ≡ removetag s
output-removetag0 s = output-loop false false [] s
