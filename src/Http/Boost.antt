-- ===== src/Http/Boost.antt =====
-- What the server uses of Boost's string algorithms and of asio, as a parameter, and what it relies
-- on.
use nycu_np.Prelude.{
  Bool, true, false, ◌==◌, if◌then◌else◌, List, [], ◌∷◌, ◌++◌, ℕ, Bytes, All, ◌≡◌,
}

-- `replace_all(input, search, format)`, and `split` at the bytes of a set, whose Boolean is
-- `token_compress_on`.
pub record Boost : Type 0 where
  pub replace_all : Bytes → Bytes → Bytes → Bytes
  pub split : Bool → Bytes → Bytes → List Bytes
  pub writes_at_once : Bytes → Bool

-- `async_write` asks of its caller that the text lives until the write is reported. A text that is
-- destroyed before is written in full only where the socket takes all of it while `async_write`
-- runs: `writes_at_once` says whether it does, and this that it always does.
abbrev pub WritesAtOnce : Boost → Type 0
WritesAtOnce b = (text : Bytes) → b.writes_at_once text ≡ true

-- Each byte `c` of a text replaced by the text `by`.
abbrev pub substitute : ℕ → Bytes → Bytes → Bytes
substitute c by [] = []
substitute c by (d ∷ text) = (if d == c then by else d ∷ []) ++ substitute c by text

-- No byte of the text is in the set.
abbrev pub is_any_of : Bytes → ℕ → Bool
is_any_of [] c = false
is_any_of (s ∷ set) c = if s == c then true else is_any_of set c

abbrev pub IsApart : Bytes → Bytes → Type 0
IsApart set text = All (λ c. is_any_of set c ≡ false) text

-- What Boost documents of `replace_all` with a search text of one byte.
abbrev pub Replaces : Boost → Type 0
Replaces b = (c : ℕ) (by text : Bytes) → b.replace_all text (c ∷ []) by ≡ substitute c by text

-- What it documents of `split`: the parts between the separators. With compression, separators
-- that stand together are one.
pub record Splits (b : Boost) : Type 0 where
  pub last_part : (on : Bool) (set a : Bytes) → IsApart set a → b.split on set a ≡ a ∷ []
  pub more_parts :
      (set a : Bytes) (c : ℕ) (rest : Bytes)
      → IsApart set a
      → is_any_of set c ≡ true
      → b.split false set (a ++ c ∷ rest) ≡ a ∷ b.split false set rest
  pub more_tokens :
      (set a : Bytes) (c d : ℕ) (rest : Bytes)
      → IsApart set a
      → is_any_of set c ≡ true
      → is_any_of set d ≡ false
      → b.split true set (a ++ c ∷ d ∷ rest) ≡ a ∷ b.split true set (d ∷ rest)
  pub same_token :
      (set a : Bytes) (c d : ℕ) (rest : Bytes)
      → IsApart set a
      → is_any_of set c ≡ true
      → is_any_of set d ≡ true
      → b.split true set (a ++ c ∷ d ∷ rest) ≡ b.split true set (a ++ d ∷ rest)
