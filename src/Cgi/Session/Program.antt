-- ===== src/Cgi/Session/Program.antt =====
-- The program that a request runs, and what it is told.
use nycu_np.Prelude.{
  strip_prefix, false, ◌==◌, List, [], ◌∷◌, ◌++◌, All, Option, none, some, Bytes, codes, ◌≡◌,
}

abbrev pub HasNoMark : Bytes → Type 0
HasNoMark text = All (λ c. (c == b'?') ≡ false) text

-- What `boost::split` documents, for the question mark: the parts between the marks.
pub record IsSplit (split : Bytes → List Bytes) : Type 0 where
  pub last_part : (a : Bytes) → HasNoMark a → split a ≡ a ∷ []
  pub more_parts : (a b : Bytes) → HasNoMark a → split (a ++ b'?' ∷ b) ≡ a ∷ split b

-- What an environment says of a variable: the text behind its name and the sign, in the first
-- entry that starts with them.
abbrev first_of : Option Bytes → Option Bytes → Option Bytes
first_of none b = b
first_of (some a) b = some a

abbrev pub value_of : Bytes → List Bytes → Option Bytes
value_of name [] = none
value_of name (entry ∷ envp) =
    first_of (strip_prefix (name ++ codes "=") entry) (value_of name envp)

-- A query, and what may stand behind it from a second question mark on.
abbrev pub with_more : Bytes → Option Bytes → Bytes
with_more query none = query
with_more query (some more) = query ++ b'?' ∷ more
