-- ===== src/Socks/Regex.antt =====
-- The part of `std::regex` that the server uses: a pattern is a sequence of pieces, and a text
-- matches as a whole.
use nycu_np.Prelude.{
  ℕ, Bool, true, false, not, ◌&&◌, ◌||◌, if◌then◌else◌, leb, ◌==◌, List, [], ◌∷◌, Option, none,
  some, Bytes,
}
use mathlib.Core.Option

pub data Atom : Type 0 where
  lit : ℕ → Atom
  any : Atom
  range : ℕ → ℕ → Atom

pub data Part : Type 0 where
  one : Atom → Part
  star : Atom → Part
  opt : Atom → Part

-- `.` takes no line end.
abbrev pub accepts : Atom → ℕ → Bool
accepts (lit c) x = x == c
accepts any x = not (x == b'\n' || x == b'\r')
accepts (range lo hi) x = leb lo x && leb x hi

unfoldable pub regex_match : List Part → Bytes → Bool
regex_match [] [] = true
regex_match [] (x ∷ s) = false
regex_match (one a ∷ ps) [] = false
regex_match (one a ∷ ps) (x ∷ s) = accepts a x && regex_match ps s
regex_match (star a ∷ ps) [] = regex_match ps []
regex_match (star a ∷ ps) (x ∷ s) =
    regex_match ps (x ∷ s) || (accepts a x && regex_match (star a ∷ ps) s)
regex_match (opt a ∷ ps) [] = regex_match ps []
regex_match (opt a ∷ ps) (x ∷ s) = regex_match ps (x ∷ s) || (accepts a x && regex_match ps s)

-- The bytes that mean something of their own in a pattern, but for `.`.
abbrev pub is_meta : ℕ → Bool
is_meta c =
    c == b'^'
    || c == b'$'
    || c == b'\\'
    || c == b'+'
    || c == b'?'
    || c == b'('
    || c == b')'
    || c == b'['
    || c == b']'
    || c == b'{'
    || c == b'}'
    || c == b'|'
    || c == b'*'

abbrev pub atom_of : ℕ → Option Atom
atom_of c = if c == b'.' then some any else (if is_meta c then none else some (lit c))

abbrev pub cons_part : Option Part → Option (List Part) → Option (List Part)
cons_part (some p) (some ps) = some (p ∷ ps)
cons_part _ _ = none

-- The pattern of a text of single bytes, `.`, `\.`, and `*` behind a byte or a `.`; `none` where
-- the text says more than that.
unfoldable pub compile : Bytes → Option (List Part)
compile [] = some []
compile (c ∷ []) = cons_part (Option.map one (atom_of c)) (some [])
compile (c ∷ d ∷ rest) =
    let behind = compile rest in
    let at_next = compile (d ∷ rest) in
    if c == b'\\'
    then (if d == b'.' then cons_part (some (one (lit d))) behind else none)
    else if d == b'*'
    then cons_part (Option.map star (atom_of c)) behind
    else cons_part (Option.map one (atom_of c)) at_next
